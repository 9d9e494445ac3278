-- ===== src/Protocol/TlvCodec/Getters.antt =====
-- What the getters find in the map of some records.
use lite_im.Prelude.{
  ℕ, ◌<◌, ◌^◌, ◌≡◌, ◌≢◌, refl, ap, sym, ◌∙◌, inl, inr, List, [], ◌∷◌, ◌++◌, append_assoc,
  append-nil, arith, length, map, ◌==◌, if◌then◌else◌, All, Option, none, some, Option-cases,
}
use lite_im.Prelude.Assoc.{find, find-nil}
use lite_im.Status.{success, error, Result, ok, err, not_found, parse_error}
use lite_im.Protocol.Bytes.{Bytes, bytes}
use lite_im.Protocol.ByteOrder.{read_uint64_be}
use lite_im.Protocol.ByteOrder.Values.{be, length-be}
use lite_im.Protocol.ByteOrder.RoundTrip.{read_uint64_be-be}
use lite_im.Protocol.TlvCodec.{
  TlvMap, parse_tlv_map, append_uint64, unknown_type, find_values, get_string, get_uint64,
  get_repeated_uint64, decode_all,
}
use lite_im.Protocol.TlvCodec.Records.{
  TlvRecord, Fits, record_bytes, body_bytes, group, values_of, entry, entry-group,
}
use lite_im.Protocol.TlvCodec.Parse.{parse_tlv_map-body_bytes}
use lite_im.Protocol.TlvCodec.Append.{append_uint64-record_bytes}

-- `find_values` in terms of the values under a type.
abbrev non_empty : List Bytes → Option (List Bytes)
non_empty [] = none
non_empty (v ∷ vs) = some (v ∷ vs)

find_values-entry : (m : TlvMap) (t : ℕ) → find_values m t ≡ non_empty (entry m t)
unfolding find_values
find_values-entry m t = elim (Option-cases (find t m)) [
  | inl e ↦ rw (e, find_values)
  | inr ([], e) ↦ rw (e, find_values)
  | inr (v ∷ vs, e) ↦ rw (e, find_values)
]

find_values-group :
    (rs : List TlvRecord) (t : ℕ) → find_values (group [] rs) t ≡ non_empty (values_of t rs)
find_values-group rs t =
    find_values-entry (group [] rs) t ∙ ap non_empty (entry-group [] rs t ∙ rw (find-nil t))

-- The first value of a field, or the error of a field that is not there.
abbrev pub first_string : List Bytes → Result Bytes
first_string [] = err (error not_found "missing required string field")
first_string (v ∷ vs) = ok v

abbrev pub first_uint64 : List Bytes → Result ℕ
first_uint64 [] = err (error not_found "missing required uint64 field")
first_uint64 (v ∷ vs) =
    if length v == 8
    then ok (read_uint64_be v)
    else err (error parse_error "uint64 tlv field must be 8 bytes")

get_string-non_empty :
    (m : TlvMap) (t : ℕ) (vs : List Bytes)
    → find_values m t ≡ non_empty vs
    → get_string m t ≡ first_string vs
unfolding get_string
get_string-non_empty m t [] e = rw (e, get_string)
get_string-non_empty m t (v ∷ vs) e = rw (e, get_string)

get_uint64-non_empty :
    (m : TlvMap) (t : ℕ) (vs : List Bytes)
    → find_values m t ≡ non_empty vs
    → get_uint64 m t ≡ first_uint64 vs
unfolding get_uint64
get_uint64-non_empty m t [] e = rw (e, get_uint64)
get_uint64-non_empty m t (v ∷ vs) e = rw (e, get_uint64) (ground arith)

-- From a body of records the getters take the first value of the asked type, whatever other records
-- stand around it: `not_found` is returned exactly where no record has that type, and a number is
-- refused where its first value is not eight bytes long.
pub getters-body_bytes :
    (rs : List TlvRecord) (t : ℕ)
    → All Fits rs
    → let m = (parse_tlv_map (bytes (body_bytes rs))).0 in
      (get_string m t ≡ first_string (values_of t rs))
      × (get_uint64 m t ≡ first_uint64 (values_of t rs))
getters-body_bytes rs t f = rw (parse_tlv_map-body_bytes rs f) (
  get_string-non_empty _ t (values_of t rs) (find_values-group rs t),
  get_uint64-non_empty _ t (values_of t rs) (find_values-group rs t),
)

-- The first value of a number that was written, whatever others stand behind it.
pub first_uint64-be : (v : ℕ) (vs : List Bytes) → v < 2 ^ 64 → first_uint64 (be 8 v ∷ vs) ≡ ok v
first_uint64-be v vs h =
    let whole : read_uint64_be (be 8 v) ≡ v =
      rw (append-nil (be 8 v)) at (read_uint64_be-be v [] h) in
    rw (length-be 8 v, whole) (refl)

-- A field that is sent as several numbers: one `append_uint64` for each.
unfoldable pub append_numbers : ℕ → List ℕ → Bytes → Bytes
append_numbers t [] output = output
append_numbers t (n ∷ ns) output = append_numbers t ns (append_uint64 t n output).0

abbrev number_record : ℕ → ℕ → TlvRecord
number_record t n = record { type = t; value = be 8 n }

abbrev number_records : ℕ → List ℕ → List TlvRecord
number_records t [] = []
number_records t (n ∷ ns) = number_record t n ∷ number_records t ns

number_record-Fits : (t n : ℕ) → t < 2 ^ 16 → Fits (number_record t n)
number_record-Fits t n h = record { type_fits = h; value_fits = omega (arith, length-be 8 n) }

number_records-Fits : (t : ℕ) (ns : List ℕ) → t < 2 ^ 16 → All Fits (number_records t ns)
number_records-Fits t [] h = tt
number_records-Fits t (n ∷ ns) h = (number_record-Fits t n h, number_records-Fits t ns h)

append_numbers_lem :
    (t : ℕ) (ns : List ℕ) (output : Bytes)
    → t ≢ unknown_type
    → t < 2 ^ 16
    → append_numbers t ns output ≡ output ++ body_bytes (number_records t ns)
unfolding append_numbers
append_numbers_lem t [] output k h = sym (append-nil output)
append_numbers_lem t (n ∷ ns) output k h = rw (append_uint64-record_bytes t n output k h) (
    append_numbers_lem t ns _ k h
    ∙ append_assoc output (record_bytes (number_record t n)) (body_bytes (number_records t ns)))

values_of-number_records : (t : ℕ) (ns : List ℕ) → values_of t (number_records t ns) ≡ map (be 8) ns
values_of-number_records t [] = refl
values_of-number_records t (n ∷ ns) = ground (arith, values_of-number_records t ns)

decode_all-be :
    (ns output : List ℕ)
    → All (λ n. n < 2 ^ 64) ns
    → decode_all (map (be 8) ns) output ≡ (output ++ ns, success)
unfolding decode_all
decode_all-be [] output h = rw (append-nil output)
decode_all-be (n ∷ ns) output h =
    let whole : read_uint64_be (be 8 n) ≡ n =
      rw (append-nil (be 8 n)) at (read_uint64_be-be n [] h.0) in
    rw (length-be 8 n, whole)
      (decode_all-be ns (output ++ (n ∷ [])) h.1 ∙ rw (append_assoc output (n ∷ []) ns))

-- Numbers that were appended under one known type come back all and in order.
pub get_repeated_uint64-append_numbers :
    (t n : ℕ) (ns : List ℕ)
    → t ≢ unknown_type
    → t < 2 ^ 16
    → All (λ k. k < 2 ^ 64) (n ∷ ns)
    → get_repeated_uint64 (parse_tlv_map (bytes (append_numbers t (n ∷ ns) []))).0 t
      ≡ (n ∷ ns, success)
unfolding get_repeated_uint64
get_repeated_uint64-append_numbers t n ns k h f =
    let rs = number_records t (n ∷ ns) in
    let found : find_values (group [] rs) t ≡ some (map (be 8) (n ∷ ns)) =
      find_values-group rs t ∙ ap non_empty (values_of-number_records t (n ∷ ns)) in
    rw
      (
        append_numbers_lem t (n ∷ ns) [] k h,
        parse_tlv_map-body_bytes rs (number_records-Fits t (n ∷ ns) h),
        found,
        get_repeated_uint64,
      )
      (decode_all-be (n ∷ ns) [] f)
