-- ===== src/Status.antt =====
-- src/infra/status.h and src/infra/status.cpp: status codes, statuses and `StatusOr`. A call that
-- may throw a C++ exception, as `std::stoull` does, returns a `Try`.
use range_vec_kv.Base.{Bool, true, false, [], ◌++◌, if◌then◌else◌}
use range_vec_kv.Base.Bytes.{Bytes, bytes}

pub data StatusCode : Type 0 where
  ok_code invalid_argument_code not_found_code unavailable_code : StatusCode
  timeout_code internal_code not_supported_code : StatusCode

pub record Status : Type 0 where
  pub code : StatusCode
  pub message : Bytes

abbrev pub ok_status : Status
ok_status = record { code = ok_code; message = [] }

abbrev pub invalid_argument : Bytes → Status
invalid_argument m = record { code = invalid_argument_code; message = m }

abbrev pub not_found : Bytes → Status
not_found m = record { code = not_found_code; message = m }

abbrev pub unavailable : Bytes → Status
unavailable m = record { code = unavailable_code; message = m }

abbrev pub timeout : Bytes → Status
timeout m = record { code = timeout_code; message = m }

abbrev pub internal : Bytes → Status
internal m = record { code = internal_code; message = m }

abbrev pub not_supported : Bytes → Status
not_supported m = record { code = not_supported_code; message = m }

abbrev pub is_ok_code : StatusCode → Bool
is_ok_code ok_code = true
is_ok_code _ = false

-- status.ok()
abbrev pub is_ok : Status → Bool
is_ok s = is_ok_code s.code

pub status_code_to_string : StatusCode → Bytes
status_code_to_string ok_code = bytes "OK"
status_code_to_string invalid_argument_code = bytes "INVALID_ARGUMENT"
status_code_to_string not_found_code = bytes "NOT_FOUND"
status_code_to_string unavailable_code = bytes "UNAVAILABLE"
status_code_to_string timeout_code = bytes "TIMEOUT"
status_code_to_string internal_code = bytes "INTERNAL"
status_code_to_string not_supported_code = bytes "NOT_SUPPORTED"

unfoldable pub to_string : Status → Bytes
unfolding status_code_to_string
to_string s =
    if is_ok s then bytes "OK" else (status_code_to_string s.code ++ bytes ": " ++ s.message)

-- `StatusOr<T>`: the source builds it from a value, or from a status that is not ok.
pub data StatusOr {ℓ} (A : Type ℓ) : Type ℓ where
  value : A → StatusOr A
  status : Status → StatusOr A

pub data Try {ℓ} (A : Type ℓ) : Type ℓ where
  returned : A → Try A
  raised : Try A
