-- ===== src/Codec/Frames.antt =====
-- EncodeFrame and DecodeFrames: the loop always ends, and what was framed is read back in order.
use range_vec_kv.Base.{
  ℕ, zero, suc, ◌≡◌, refl, ap, ◌∙◌, sym, ◌≤◌, ◌<◌, ◌-◌, ◌+◌, ◌^◌, Bool, true, false, some, List, [],
  ◌∷◌, ◌++◌, length, length-append, length-drop, take, drop, take-append, drop-append, All, arith,
  ltb, false, if◌then◌else◌, Bool-cases, inl, inr,
}
use range_vec_kv.Base.Bytes.{Bytes, bytes, bytes_eq_refl}
use range_vec_kv.Status.{StatusOr, value, status, internal, invalid_argument}
use range_vec_kv.Codec.{
  magic_header, length_byte, frame_length, encode_frame, decode_loop, decode_frames, has_prefix,
  or_no_frames,
}
use mathlib.Core.List.{append_assoc, append-nil}

-- A payload whose length fits the four bytes of a frame.
abbrev pub FitsFrame : Bytes → Type 0
FitsFrame p = length p < 2 ^ 32

unfoldable pub encode_frames : List Bytes → Bytes
encode_frames [] = []
encode_frames (p ∷ ps) = encode_frame p ++ encode_frames ps

pub frame_length-length_byte :
    (n : ℕ)
    → n < 2 ^ 32
    → frame_length (length_byte n 0) (length_byte n 8) (length_byte n 16) (length_byte n 24) ≡ n
frame_length-length_byte n h = omega arith

pub length-encode_frame : (p : Bytes) → length (encode_frame p) ≡ length p + 4
unfolding encode_frame
length-encode_frame p = omega arith

-- Nothing is left to read.
pub decode_loop_nil :
    (fuel : ℕ) (frames : List Bytes) → decode_loop fuel [] frames ≡ some (value frames)
unfolding decode_loop
decode_loop_nil zero frames = refl
decode_loop_nil (suc fuel) frames = refl

-- What a round does once it has read the length of the payload.
round_lem :
    (n fuel : ℕ) (p rest : Bytes) (frames : List Bytes)
    → n ≡ length p
    → (if ltb (length (p ++ rest)) n
        then some (status (internal (bytes "truncated protobuf persistence payload")))
        else decode_loop fuel (drop n (p ++ rest)) (frames ++ take n (p ++ rest) ∷ []))
      ≡ decode_loop fuel rest (frames ++ p ∷ [])
round_lem n fuel p rest frames e = rw (e, enough, drop-append p rest, take-append p rest)
  where
    enough : ltb (length (p ++ rest)) (length p) ≡ false
    enough = ground (arith, length-append p rest)

-- One round of the loop takes one frame off.
pub decode_loop-encode_frame :
    (fuel : ℕ) (p rest : Bytes) (frames : List Bytes)
    → FitsFrame p
    → decode_loop (suc fuel) (encode_frame p ++ rest) frames
      ≡ decode_loop fuel rest (frames ++ p ∷ [])
unfolding decode_loop encode_frame
decode_loop-encode_frame fuel p rest frames h = round_lem _ fuel p rest frames (omega arith)

pub decode_loop-encode_frames :
    (ps : List Bytes) (fuel : ℕ) (rest : Bytes) (frames : List Bytes)
    → All FitsFrame ps
    → length ps ≤ fuel
    → decode_loop fuel (encode_frames ps ++ rest) frames
      ≡ decode_loop (fuel - length ps) rest (frames ++ ps)
unfolding encode_frames
decode_loop-encode_frames [] fuel rest frames h k =
    rw append-nil (ap (λ (f : ℕ). decode_loop f rest frames) (omega arith))
decode_loop-encode_frames (p ∷ ps) zero rest frames h k = elim k [ ]
decode_loop-encode_frames (p ∷ ps) (suc fuel) rest frames h k = rw append_assoc (
    decode_loop-encode_frame fuel p (encode_frames ps ++ rest) frames h.0
    ∙ decode_loop-encode_frames ps fuel rest (frames ++ p ∷ []) h.1 (omega arith)
    ∙ ap (λ (f : ℕ). decode_loop f rest ((frames ++ p ∷ []) ++ ps)) (omega arith)
    ∙ ap (decode_loop (suc fuel - suc (length ps)) rest) (append_assoc frames (p ∷ []) ps))

pub length-encode_frames : (ps : List Bytes) → length ps ≤ length (encode_frames ps)
unfolding encode_frames
length-encode_frames [] = omega arith
length-encode_frames (p ∷ ps) = omega (
  arith,
  length-append (encode_frame p) (encode_frames ps),
  length-encode_frame p,
  length-encode_frames ps,
)

pub encode_frames-append :
    (ps qs : List Bytes) → encode_frames (ps ++ qs) ≡ encode_frames ps ++ encode_frames qs
unfolding encode_frames
encode_frames-append [] qs = refl
encode_frames-append (p ∷ ps) qs = rw (encode_frames-append ps qs, append_assoc)

pub has_prefix-append : (p rest : Bytes) → has_prefix p (p ++ rest) ≡ true
unfolding has_prefix
has_prefix-append p rest = rw (take-append p rest) (bytes_eq_refl p)

-- The loop ends, whatever the text: the fuel that DecodeFrames is given is never used up.
pub decode_loop_total :
    (fuel : ℕ) (text : Bytes) (frames : List Bytes)
    → length text ≤ fuel
    → (r : StatusOr (List Bytes)) × (decode_loop fuel text frames ≡ some r)
unfolding decode_loop
decode_loop_total fuel [] frames h = (value frames, refl)
decode_loop_total zero (b ∷ rest) frames h = absurd (omega arith)
decode_loop_total (suc fuel) (a ∷ []) frames h = (_, refl)
decode_loop_total (suc fuel) (a ∷ b ∷ []) frames h = (_, refl)
decode_loop_total (suc fuel) (a ∷ b ∷ c ∷ []) frames h = (_, refl)
decode_loop_total (suc fuel) (a ∷ b ∷ c ∷ d ∷ rest) frames h =
    elim (Bool-cases (ltb (length rest) (frame_length a b c d))) [
      | inl e ↦ (status (internal (bytes "truncated protobuf persistence payload")), rw e)
      | inr e ↦
          let (r, q) =
            decode_loop_total fuel (drop (frame_length a b c d) rest)
              (frames ++ take (frame_length a b c d) rest ∷ [])
              (omega (arith, length-drop (frame_length a b c d) rest)) in
          (r, rw e q)
    ]

-- DecodeFrames on a text that has the header.
pub decode_frames_lem :
    (body : Bytes)
    → decode_frames (magic_header ++ body) ≡ or_no_frames (decode_loop (length body) body [])
unfolding decode_frames
decode_frames_lem body = by_prefix _ (has_prefix-append magic_header body)
  where
    by_prefix :
        (b : Bool)
        → b ≡ true
        → (if b
            then or_no_frames (decode_loop (length body) body [])
            else status (invalid_argument (bytes "missing protobuf persistence magic header")))
          ≡ or_no_frames (decode_loop (length body) body [])
    by_prefix b e = rw e

-- A text of the magic header and framed payloads, each of which fits the four bytes of a length, is
-- read back as these payloads, in order.
pub decode_frames-encode_frames :
    (ps : List Bytes)
    → All FitsFrame ps
    → decode_frames (magic_header ++ encode_frames ps) ≡ value ps
decode_frames-encode_frames ps h = decode_frames_lem (encode_frames ps) ∙ ap or_no_frames all_read
  where
    fuel : ℕ
    fuel = length (encode_frames ps)

    all_read : decode_loop fuel (encode_frames ps) [] ≡ some (value ps)
    all_read =
        ap (λ t. decode_loop fuel t []) (sym (append-nil (encode_frames ps)))
        ∙ decode_loop-encode_frames ps fuel [] [] h (length-encode_frames ps)
        ∙ decode_loop_nil (fuel - length ps) ps
