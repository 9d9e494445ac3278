-- ===== src/Service/Fields.antt =====
-- include/liteim/service/Validation.hpp, and the helpers by which handlers read and write the fields of a
-- packet.
use lite_im.Prelude.{ℕ, [], ◌∷◌, String, length, ltb, if◌then◌else◌}
use Prim.Native.String.{◌++◌}
use lite_im.Status.{Status, success, error, invalid_argument, Result, ok, err, check}
use lite_im.Protocol.Bytes.{Bytes}
use lite_im.Protocol.TlvCodec.{TlvMap, get_string}

abbrev pub max_username_bytes : ℕ
max_username_bytes = 64

abbrev pub max_nickname_bytes : ℕ
max_nickname_bytes = 64

abbrev pub max_password_bytes : ℕ
max_password_bytes = 128

unfoldable pub validate_max_bytes : Bytes → ℕ → String → Status
validate_max_bytes value max_bytes field_name =
    if ltb max_bytes (length value)
    then error invalid_argument (field_name ++ " is too long")
    else success

abbrev pub empty_field_status : String → Status
empty_field_status field_name = error invalid_argument (field_name ++ " must not be empty")

unfoldable pub not_empty : Bytes → String → Result Bytes
not_empty [] field_name = err (empty_field_status field_name)
not_empty (b ∷ bs) field_name = ok (b ∷ bs)

abbrev pub bind_result : {A B : Type 0} → Result A → (A → Result B) → Result B
bind_result (ok a) f = f a
bind_result (err e) f = err e

unfoldable pub required_string : TlvMap → ℕ → String → Result Bytes
unfolding not_empty
required_string fields type field_name =
    bind_result (get_string fields type) (λ output. not_empty output field_name)

-- A required field that is within its limit: `requiredString` and `validateMaxBytes`.
unfoldable pub bounded_string : TlvMap → ℕ → String → ℕ → Result Bytes
unfolding required_string validate_max_bytes
bounded_string fields type field_name max_bytes =
    bind_result (required_string fields type field_name)
      (λ value. check (validate_max_bytes value max_bytes field_name) value)

-- Appends to a body that is given up where one of them fails.
abbrev pub appended : Bytes × Status → Result Bytes
appended (body, status) = check status body
