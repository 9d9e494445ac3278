-- ===== src/Protocol/TlvCodec.antt =====
-- include/liteim/protocol/TlvCodec.hpp and src/protocol/TlvCodec.cpp: the body of a packet as
-- type-length-value records. A `TlvType` is the 16-bit value of the enumerator, since a cast from the
-- wire can give any; a `std::string` is its bytes.
pub mod Records
pub mod Append
pub mod Parse
pub mod Sound
pub mod Getters
use lite_im.Prelude.{
  ℕ, zero, suc, ◌+◌, ◌-◌, ◌*◌, ◌%◌, ◌^◌, Bool, true, false, not, List, [], ◌∷◌, ◌++◌, Option, none,
  some, length, take, drop, ltb, ◌==◌, if◌then◌else◌,
}
use lite_im.Prelude.Assoc.{Map, find, insert}
use lite_im.Status.{
  Status, success, error, invalid_argument, not_found, parse_error, Result, ok, err,
}
use lite_im.Protocol.Bytes.{Bytes, Span, null, bytes}
use lite_im.Protocol.ByteOrder.{
  append_uint16_be, append_uint32_be, append_uint64_be, read_uint16_be, read_uint32_be,
  read_uint64_be,
}

abbrev pub tlv_header_size : ℕ
tlv_header_size = 6

abbrev pub max_tlv_value_length : ℕ
max_tlv_value_length = 1024 * 1024

abbrev pub unknown_type : ℕ
unknown_type = 0

abbrev pub TlvMap : Type 0
TlvMap = Map (List Bytes)

-- The output buffer and the status.
unfoldable pub append_value : ℕ → Span → Bytes → Bytes × Status
append_value type (null len) output =
    if type == unknown_type
    then (output, error invalid_argument "cannot encode unknown tlv type")
    else if not (len == 0)
    then (output, error invalid_argument "tlv value data is null")
    else (append_uint32_be (append_uint16_be output (type % 2 ^ 16)) 0, success)
append_value type (bytes data') output =
    if type == unknown_type
    then (output, error invalid_argument "cannot encode unknown tlv type")
    else if ltb max_tlv_value_length (length data')
    then (output, error invalid_argument "tlv value is too large")
    else let head : Bytes =
        append_uint32_be (append_uint16_be output (type % 2 ^ 16)) (length data' % 2 ^ 32) in
      (if not (length data' == 0) then head ++ data' else head, success)

unfoldable pub append_string : ℕ → Bytes → Bytes → Bytes × Status
append_string type value output = append_value type (bytes value) output

unfoldable pub append_uint64 : ℕ → ℕ → Bytes → Bytes × Status
append_uint64 type value output = append_value type (bytes (append_uint64_be [] value)) output

abbrev pub or_empty : Option (List Bytes) → List Bytes
or_empty none = []
or_empty (some vs) = vs

-- `output[type].emplace_back(value)`: the entry is made if there is none.
unfoldable pub emplace : TlvMap → ℕ → Bytes → TlvMap
emplace m type value = insert type (or_empty (find type m) ++ (value ∷ [])) m

-- The loop of `parseTlvMap`, with rounds as fuel: a round moves the offset by the size of a header at
-- least, so one round more than there are bytes is enough.
unfoldable pub parse_loop : ℕ → Bytes → ℕ → TlvMap → TlvMap × Status
parse_loop zero data' offset output = (output, success)
parse_loop (suc fuel) data' offset output =
    let type : ℕ = read_uint16_be (drop offset data') in
    let value_len : ℕ = read_uint32_be (drop (offset + 2) data') in
    let value_at : ℕ = offset + tlv_header_size in
    let value : Bytes = take value_len (drop value_at data') in
    let rest = parse_loop fuel data' (value_at + value_len) (emplace output type value) in
    if not (ltb offset (length data'))
    then (output, success)
    else if ltb (length data' - offset) tlv_header_size
    then (output, error parse_error "tlv header is incomplete")
    else if ltb max_tlv_value_length value_len
    then (output, error parse_error "tlv value is too large")
    else if ltb (length data' - value_at) value_len
    then (output, error parse_error "tlv length exceeds body size")
    else rest

-- The map, which holds the records before the faulty one where the status is an error.
unfoldable pub parse_tlv_map : Span → TlvMap × Status
parse_tlv_map (null len) =
    if not (len == 0)
    then ([], error invalid_argument "tlv body data is null")
    else parse_loop 1 [] 0 []
parse_tlv_map (bytes data') = parse_loop (suc (length data')) data' 0 []

-- `findValues`: no entry, or an empty one, is a null pointer.
unfoldable pub find_values : TlvMap → ℕ → Option (List Bytes)
find_values m type = elim (find type m) [
  | none ↦ none
  | some vs ↦ elim vs [ [] ↦ none | v ∷ rest ↦ some (v ∷ rest) ]
]

-- `values->front()`.
abbrev front : List Bytes → Bytes
front [] = []
front (v ∷ vs) = v

unfoldable pub get_string : TlvMap → ℕ → Result Bytes
get_string m type = elim (find_values m type) [
  | none ↦ err (error not_found "missing required string field")
  | some vs ↦ ok (front vs)
]

abbrev decode_uint64 : Bytes → Result ℕ
decode_uint64 value =
    if not (length value == 8)
    then err (error parse_error "uint64 tlv field must be 8 bytes")
    else ok (read_uint64_be value)

unfoldable pub get_uint64 : TlvMap → ℕ → Result ℕ
get_uint64 m type = elim (find_values m type) [
  | none ↦ err (error not_found "missing required uint64 field")
  | some vs ↦ decode_uint64 (front vs)
]

-- The output is cleared first, so it is empty where a field is missing.
unfoldable pub get_repeated_string : TlvMap → ℕ → List Bytes × Status
get_repeated_string m type = elim (find_values m type) [
  | none ↦ ([], error not_found "missing required repeated string field")
  | some vs ↦ (vs, success)
]

-- The loop of `getRepeatedUint64`: the numbers pushed before a value of the wrong size stay.
unfoldable pub decode_all : List Bytes → List ℕ → List ℕ × Status
decode_all [] output = (output, success)
decode_all (v ∷ vs) output =
    let rest = decode_all vs (output ++ (read_uint64_be v ∷ [])) in
    if not (length v == 8)
    then (output, error parse_error "uint64 tlv field must be 8 bytes")
    else rest

unfoldable pub get_repeated_uint64 : TlvMap → ℕ → List ℕ × Status
unfolding decode_all
get_repeated_uint64 m type = elim (find_values m type) [
  | none ↦ ([], error not_found "missing required repeated uint64 field")
  | some vs ↦ decode_all vs []
]
