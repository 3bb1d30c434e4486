-- ===== src/Codec/Truncated.antt =====
-- DecodeFrames on a file whose last frame was cut off, as a crash in the middle of a write leaves it.
use range_vec_kv.Base.{
  ℕ, zero, suc, ◌≡◌, refl, ap, ◌∙◌, ◌<◌, ◌-◌, ◌+◌, true, some, List, [], ◌∷◌, ◌++◌, length,
  length-append, length-take, take, drop, All, arith, ltb, if◌then◌else◌,
}
use range_vec_kv.Base.Bytes.{Bytes, bytes}
use range_vec_kv.Status.{status, internal}
use range_vec_kv.Codec.{magic_header, encode_frame, decode_loop, decode_frames, or_no_frames}
use range_vec_kv.Codec.Frames.{
  FitsFrame, encode_frames, decode_loop-encode_frames, decode_frames_lem, length-encode_frames,
  length-encode_frame,
}

torn_payload :
    (n fuel m : ℕ) (p : Bytes) (frames : List Bytes)
    → n ≡ length p
    → m < length p
    → (if ltb (length (take m p)) n
        then some (status (internal (bytes "truncated protobuf persistence payload")))
        else decode_loop fuel (drop n (take m p)) (frames ++ take n (take m p) ∷ []))
      ≡ some (status (internal (bytes "truncated protobuf persistence payload")))
torn_payload n fuel m p frames e h = rw short
  where
    short : ltb (length (take m p)) n ≡ true
    short = ground (arith, length-take m p)

-- Which part of a frame is missing when `m` of its bytes are there.
abbrev pub torn_message : ℕ → Bytes
torn_message (suc (suc (suc (suc m)))) = bytes "truncated protobuf persistence payload"
torn_message m = bytes "truncated protobuf persistence frame"

decode_loop-take :
    (fuel m : ℕ) (p : Bytes) (frames : List Bytes)
    → FitsFrame p
    → 0 < m
    → m < length p + 4
    → decode_loop (suc fuel) (take m (encode_frame p)) frames
      ≡ some (status (internal (torn_message m)))
unfolding decode_loop encode_frame
decode_loop-take fuel zero p frames f h k = absurd (omega arith)
decode_loop-take fuel (suc zero) p frames f h k = refl
decode_loop-take fuel (suc (suc zero)) p frames f h k = refl
decode_loop-take fuel (suc (suc (suc zero))) p frames f h k = refl
decode_loop-take fuel (suc (suc (suc (suc m)))) p frames f h k =
    torn_payload _ fuel m p frames (omega arith) (omega arith)

enough : (a b : ℕ) → b < a → a - b ≡ suc (a - b - 1)
enough a b h = omega arith

-- A file whose last frame is cut off after at least one byte is refused as a whole, whatever whole
-- frames come before it; the message tells a cut length from a cut payload. (All payloads fit the
-- four bytes of a length.)
pub decode_frames_torn :
    (ps : List Bytes) (p : Bytes) (m : ℕ)
    → All FitsFrame ps
    → FitsFrame p
    → 0 < m
    → m < length (encode_frame p)
    → decode_frames (magic_header ++ (encode_frames ps ++ take m (encode_frame p)))
      ≡ status (internal (torn_message m))
decode_frames_torn ps p m fs f h k =
    decode_frames_lem (encode_frames ps ++ torn) ∙ ap or_no_frames refused
  where
    torn : Bytes
    torn = take m (encode_frame p)

    fuel : ℕ
    fuel = length (encode_frames ps ++ torn)

    room : length ps < fuel
    room = omega (
      arith,
      length-append (encode_frames ps) torn,
      length-take m (encode_frame p),
      length-encode_frames ps,
      k,
      h,
    )

    refused :
        decode_loop fuel (encode_frames ps ++ torn) [] ≡ some (status (internal (torn_message m)))
    refused =
        decode_loop-encode_frames ps fuel torn [] fs (omega (arith, room))
        ∙ ap (λ (n : ℕ). decode_loop n torn ps) (enough fuel (length ps) room)
        ∙ decode_loop-take (fuel - length ps - 1) m p ps f h (omega (arith, length-encode_frame p))
