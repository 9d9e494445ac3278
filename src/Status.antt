-- ===== src/Status.antt =====
-- The error codes and the status value that every fallible call returns: include/liteim/base/
-- ErrorCode.hpp, include/liteim/base/Status.hpp, src/base/Status.cpp and src/base/ErrorCode.cpp.
use lite_im.Prelude.{ℕ, String, Bool, true, false, ◌≡◌, refl, ◌⊎◌, inl, inr}

pub data ErrorCode : Type 0 where
  ok invalid_argument not_found already_exists io_error parse_error config_error : ErrorCode
  internal_error resource_exhausted : ErrorCode

-- The value of the enumerator, which `sendError` puts on the wire.
unfoldable pub to_value : ErrorCode → ℕ
to_value ErrorCode.ok = 0
to_value invalid_argument = 1
to_value not_found = 2
to_value already_exists = 3
to_value io_error = 4
to_value parse_error = 5
to_value config_error = 6
to_value internal_error = 7
to_value resource_exhausted = 8

unfoldable pub to_string : ErrorCode → String
to_string ErrorCode.ok = "Ok"
to_string invalid_argument = "InvalidArgument"
to_string not_found = "NotFound"
to_string already_exists = "AlreadyExists"
to_string io_error = "IoError"
to_string parse_error = "ParseError"
to_string config_error = "ConfigError"
to_string internal_error = "InternalError"
to_string resource_exhausted = "ResourceExhausted"

pub record Status : Type 0 where
  pub code : ErrorCode
  pub message : String

-- `Status::ok()`.
abbrev pub success : Status
success = record { code = ErrorCode.ok; message = "" }

-- `Status::error(code, message)`.
abbrev pub error : ErrorCode → String → Status
error c m = record { code = c; message = m }

abbrev pub code_is_ok : ErrorCode → Bool
code_is_ok ErrorCode.ok = true
code_is_ok _ = false

-- `Status::isOk()`.
abbrev pub is_ok : Status → Bool
is_ok s = code_is_ok s.code

-- The outcome of a call that writes its output only when it succeeds.
pub data Result {ℓ} (A : Type ℓ) : Type ℓ where
  ok : A → Result A
  err : Status → Result A

abbrev pub status_of {ℓ} : {A : Type ℓ} → Result A → Status
status_of (ok a) = success
status_of (err s) = s

pub Result-cases {ℓ} :
    {A : Type ℓ} (r : Result A) → ((a : A) × (r ≡ ok a)) ⊎ ((s : Status) × (r ≡ err s))
Result-cases (ok a) = inl (a, refl)
Result-cases (err s) = inr (s, refl)

-- `if (!status.isOk()) return status;`
abbrev pub check {ℓ} : {A : Type ℓ} → Status → A → Result A
check s a = elim (is_ok s) [ true ↦ ok a | false ↦ err s ]
