-- ===== src/Protocol/TlvCodec/Append.antt =====
-- The appenders of a TLV body: a record behind the output, or an error and the output as it was.
use lite_im.Prelude.{
  ℕ, ◌%◌, ◌≤◌, ◌<◌, ◌^◌, ◌≡◌, ◌≢◌, sym, ◌⊎◌, inl, inr, false, not, [], ◌∷◌, ◌++◌, append_assoc,
  append-nil, arith, length, ltb, ◌==◌, if◌then◌else◌, Bool-cases, le→ltb-false, ltb-false→le,
  ltb→lt, ==_iff,
}
use lite_im.Status.{success, is_ok}
use lite_im.Protocol.Bytes.{Bytes, Span, null, bytes}
use lite_im.Protocol.ByteOrder.{append_uint16_be, append_uint32_be}
use lite_im.Protocol.ByteOrder.Values.{be, length-be}
use lite_im.Protocol.ByteOrder.Laws.{
  append_uint16_be_lem, append_uint32_be_lem, append_uint64_be_lem,
}
use lite_im.Protocol.TlvCodec.{
  append_value, append_string, append_uint64, unknown_type, max_tlv_value_length,
}
use lite_im.Protocol.TlvCodec.Records.{TlvRecord, Fits, record_bytes}

-- An error leaves the output alone, whatever the input.
pub append_value_refused :
    (type : ℕ) (input : Span) (output : Bytes)
    → is_ok (append_value type input output).1 ≡ false
    → (append_value type input output).0 ≡ output
unfolding append_value
append_value_refused type (null n) output e = ground arith
append_value_refused type (bytes value) output e = ground arith

-- The value is inserted only where it is not empty, which is the same.
appended :
    (head value : Bytes) → (if not (length value == 0) then head ++ value else head) ≡ head ++ value
appended head [] = sym (append-nil head)
appended head (x ∷ xs) = ground arith

head_bytes :
    (output : Bytes) (r : TlvRecord)
    → Fits r
    → append_uint32_be (append_uint16_be output (r.type % 2 ^ 16)) (length r.value % 2 ^ 32)
        ++ r.value
      ≡ output ++ record_bytes r
head_bytes output r f =
    let t : r.type % 2 ^ 16 ≡ r.type = omega (arith, f.type_fits) in
    let n : length r.value % 2 ^ 32 ≡ length r.value = omega (arith, f.value_fits) in
    rw (t, n) (simp (append_uint16_be_lem, append_uint32_be_lem, append_assoc))

pub append_value-record_bytes :
    (type : ℕ) (value output : Bytes)
    → type ≢ unknown_type
    → Fits (record { type = type; value = value })
    → append_value type (bytes value) output
      ≡ (output ++ record_bytes (record { type = type; value = value }), success)
unfolding append_value
append_value-record_bytes type value output k f =
    let known : (type == unknown_type) ≡ false = ground arith in
    let small : ltb max_tlv_value_length (length value) ≡ false = le→ltb-false _ _ f.value_fits in
    let record' : TlvRecord = record { type = type; value = value } in
    let head = append_uint32_be (append_uint16_be output (type % 2 ^ 16)) (length value % 2 ^ 32) in
    rw (known, small, appended head value, head_bytes output record' f)

append_value_bad :
    (type : ℕ) (value output : Bytes)
    → (type ≡ unknown_type) ⊎ (max_tlv_value_length < length value)
    → is_ok (append_value type (bytes value) output).1 ≡ false
unfolding append_value
append_value_bad type value output h = ground arith

-- `append_string` adds the record of a known type with a value of at most 1 MiB; otherwise it returns an
-- error and leaves the output as it was.
pub append_string_cases :
    (type : ℕ) (value output : Bytes)
    → type < 2 ^ 16
    → ((type ≢ unknown_type)
        × (length value ≤ max_tlv_value_length)
        × (append_string type value output
            ≡ (output ++ record_bytes (record { type = type; value = value }), success)))
      ⊎ (((type ≡ unknown_type) ⊎ (max_tlv_value_length < length value))
          × (is_ok (append_string type value output).1 ≡ false)
          × ((append_string type value output).0 ≡ output))
unfolding append_string
append_string_cases type value output h = elim (Bool-cases (type == unknown_type)) [
  | inl e ↦
      let bad = inl ((==_iff type unknown_type).0 e) in
      let refused = append_value_bad type value output bad in
      inr (bad, refused, append_value_refused type (bytes value) output refused)
  | inr e ↦ elim (Bool-cases (ltb max_tlv_value_length (length value))) [
    | inl big ↦
        let bad = inr (ltb→lt max_tlv_value_length (length value) big) in
        let refused = append_value_bad type value output bad in
        inr (bad, refused, append_value_refused type (bytes value) output refused)
    | inr small ↦
        let known : type ≢ unknown_type = ground arith in
        let le : length value ≤ max_tlv_value_length = ltb-false→le _ _ small in
        inl (
          known,
          le,
          append_value-record_bytes type value output known
              (record { type_fits = h; value_fits = le }),
        )
  ]
]

-- A number is always appended under a known type, as the record of its eight bytes.
pub append_uint64-record_bytes :
    (type value : ℕ) (output : Bytes)
    → type ≢ unknown_type
    → type < 2 ^ 16
    → append_uint64 type value output
      ≡ (output ++ record_bytes (record { type = type; value = be 8 value }), success)
unfolding append_uint64
append_uint64-record_bytes type value output k h = rw (append_uint64_be_lem [] value) (
    append_value-record_bytes type (be 8 value) output k
      (record { type_fits = h; value_fits = omega (arith, length-be 8 value) }))
