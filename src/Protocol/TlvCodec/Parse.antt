-- ===== src/Protocol/TlvCodec/Parse.antt =====
-- `parse_tlv_map` against the list of records that a body is.
use lite_im.Prelude.{
  ℕ, zero, suc, ◌+◌, ◌-◌, ◌≤◌, ◌<◌, ◌≡◌, refl, ap, sym, ◌∙◌, List, [], ◌∷◌, ◌++◌, append_assoc,
  arith, length, length-append, length-drop, take, drop, take-append_all, drop-append_all,
  drop-drop, All,
}
use lite_im.Status.{success}
use lite_im.Protocol.Bytes.{Bytes, bytes}
use lite_im.Protocol.ByteOrder.{read_uint16_be, read_uint32_be}
use lite_im.Protocol.ByteOrder.Values.{be}
use lite_im.Protocol.ByteOrder.RoundTrip.{read_uint16_be-be, read_uint32_be-be}
use lite_im.Protocol.TlvCodec.{TlvMap, emplace, parse_loop, parse_tlv_map}
use lite_im.Protocol.TlvCodec.Records.{
  TlvRecord, Fits, record_bytes, body_bytes, length-record_bytes, group,
}

-- Cutting the two parts of a record's header off.
drop-type : (t : ℕ) (xs : Bytes) → drop 2 (be 2 t ++ xs) ≡ xs
unfolding be
drop-type t xs = refl

drop-length : (n : ℕ) (xs : Bytes) → drop 4 (be 4 n ++ xs) ≡ xs
unfolding be
drop-length n xs = refl

-- What the loop reads at an offset where the record `r` stands.
record ReadsRecord (data' : Bytes) (offset : ℕ) (r : TlvRecord) (rest : Bytes) : Type 0 where
  pub type_read : read_uint16_be (drop offset data') ≡ r.type
  pub length_read : read_uint32_be (drop (offset + 2) data') ≡ length r.value
  pub value_read : take (length r.value) (drop (offset + 6) data') ≡ r.value
  pub room : offset + 6 + length r.value ≤ length data'
  pub rest_read : drop (offset + 6 + length r.value) data' ≡ rest

module _ (data' : Bytes) (offset : ℕ) (r : TlvRecord) (rest : Bytes) (f : Fits r)
    (here : drop offset data' ≡ record_bytes r ++ rest) where
  behind : Bytes
  behind = r.value ++ rest

  parted : drop offset data' ≡ be 2 r.type ++ (be 4 (length r.value) ++ (r.value ++ rest))
  parted =
      here
      ∙ append_assoc (be 2 r.type) (be 4 (length r.value) ++ r.value) rest
      ∙ ap (◌++◌ (be 2 r.type)) (append_assoc (be 4 (length r.value)) r.value rest)

  at_length : drop (offset + 2) data' ≡ be 4 (length r.value) ++ (r.value ++ rest)
  at_length = sym (drop-drop 2 offset data') ∙ ap (drop 2) parted ∙ drop-type r.type _

  at_value : drop (offset + 6) data' ≡ r.value ++ rest
  at_value =
      ap (λ (k : ℕ). drop k data') {x = offset + 6} {y = offset + 2 + 4} (omega arith)
      ∙ sym (drop-drop 4 (offset + 2) data')
      ∙ ap (drop 4) at_length
      ∙ drop-length (length r.value) _

  reads_record : ReadsRecord data' offset r rest
  reads_record = record {
    type_read = rw parted (read_uint16_be-be r.type _ f.type_fits);
    length_read = rw at_length (read_uint32_be-be (length r.value) _ (omega (arith, f.value_fits)));
    value_read = rw at_value (take-append_all r.value rest);
    room = omega (
      arith,
      length-drop offset data',
      ap length here,
      length-append (record_bytes r) rest,
      length-record_bytes r,
    );
    rest_read =
        sym (drop-drop (length r.value) (offset + 6) data')
        ∙ ap (drop (length r.value)) at_value
        ∙ drop-append_all r.value rest;
  }

-- One round over a record.
loop_round :
    (fuel : ℕ) (data' : Bytes) (offset : ℕ) (m : TlvMap) (r : TlvRecord) (rest : Bytes)
    → Fits r
    → ReadsRecord data' offset r rest
    → parse_loop (suc fuel) data' offset m
      ≡ parse_loop fuel data' (offset + 6 + length r.value) (emplace m r.type r.value)
unfolding parse_loop
loop_round fuel data' offset m r rest f v = ground arith

loop_end :
    (fuel : ℕ) (data' : Bytes) (offset : ℕ) (m : TlvMap)
    → length data' ≤ offset
    → parse_loop (suc fuel) data' offset m ≡ (m, success)
unfolding parse_loop
loop_end fuel data' offset m h = ground arith

parse_loop-body_bytes :
    (rs : List TlvRecord) (fuel : ℕ) (data' : Bytes) (offset : ℕ) (m : TlvMap)
    → All Fits rs
    → drop offset data' ≡ body_bytes rs
    → length data' - offset < fuel
    → parse_loop fuel data' offset m ≡ (group m rs, success)
parse_loop-body_bytes rs zero data' offset m f e h = absurd (omega arith)
parse_loop-body_bytes [] (suc fuel) data' offset m f e h =
    loop_end fuel data' offset m (omega (arith, ap length e, length-drop offset data'))
parse_loop-body_bytes (r ∷ rs) (suc fuel) data' offset m f e h =
    let v = reads_record data' offset r (body_bytes rs) f.0 e in
    loop_round fuel data' offset m r (body_bytes rs) f.0 v
    ∙ parse_loop-body_bytes rs fuel data' (offset + 6 + length r.value) (emplace m r.type r.value)
        f.1 v.rest_read (omega (arith, v.room))

-- A body that was built from records is parsed without error, into the map of these records.
pub parse_tlv_map-body_bytes :
    (rs : List TlvRecord)
    → All Fits rs
    → parse_tlv_map (bytes (body_bytes rs)) ≡ (group [] rs, success)
unfolding parse_tlv_map
parse_tlv_map-body_bytes rs f =
    parse_loop-body_bytes rs (suc (length (body_bytes rs))) (body_bytes rs) 0 [] f refl
      (omega arith)
