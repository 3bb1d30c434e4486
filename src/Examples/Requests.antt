-- ===== src/Examples/Requests.antt =====
-- Requests at which the theorems about authentication and rate limits are applied.
use range_vec_kv.Base.{ℕ, ◌≡◌, ◌↔◌, refl, true, List, [], ◌∷◌, length, min, suc, arith}
use range_vec_kv.Base.Bytes.{Bytes, bytes, bytes_eq}
use range_vec_kv.OrderedMap.{Map, find}
use range_vec_kv.Status.{is_ok}
use range_vec_kv.Codec.{has_prefix}
use range_vec_kv.Auth.{
  Authenticator, authenticate, extract_presented_key, api_key_header, trim, trim_front, trim_back,
  is_space,
}
use range_vec_kv.Auth.Compare.{authenticate-is_ok}
use range_vec_kv.RateLimiter.{Limiter, allowed, allowed-burst}

abbrev guarded : Authenticator
guarded = record { api_key = bytes "s3cret"; required = true }

abbrev bearer : Map Bytes
bearer = (bytes "authorization", bytes "Bearer  s3cret\n") ∷ []

bearer_key : extract_presented_key bearer ≡ bytes "s3cret"
unfolding extract_presented_key api_key_header trim trim_front trim_back is_space find bytes_eq
    has_prefix
bearer_key = refl

authenticate-is_ok_example :
    (is_ok (authenticate guarded bearer) ≡ true) ↔ (extract_presented_key bearer ≡ bytes "s3cret")
unfolding extract_presented_key api_key_header trim trim_front trim_back is_space find bytes_eq
    has_prefix
authenticate-is_ok_example =
    authenticate-is_ok guarded bearer refl refl (omega arith) (omega arith) (omega arith)
      (omega arith)

abbrev used_up : Limiter
used_up = record { max_requests = 2; request_count = 2; window_start = 5 }

abbrev burst : List ℕ
burst = 1000000006 ∷ 1000000007 ∷ []

allowed-burst_example : allowed (1000000005 ∷ burst) used_up ≡ min (suc (length burst)) 2
allowed-burst_example =
    allowed-burst 1000000005 burst used_up (omega arith) (omega arith) (omega arith) (omega arith)
