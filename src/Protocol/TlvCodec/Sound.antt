-- ===== src/Protocol/TlvCodec/Sound.antt =====
-- A body that `parse_tlv_map` accepts is a list of records and nothing else.
use lite_im.Prelude.{
  ℕ, zero, suc, ◌+◌, ◌-◌, ◌≤◌, ◌<◌, ◌^◌, ◌≡◌, refl, ap, ap₂, sym, ◌∙◌, ◌⊎◌, ◌↔◌, inl, inr, true,
  List, [], ◌∷◌, ◌++◌, append_assoc, arith, length, length-take, length-drop, take, drop,
  take-append-drop, drop-drop, drop_all, All,
}
use lite_im.Status.{Status, success, is_ok}
use lite_im.Protocol.Bytes.{Bytes, AreBytes, bytes}
use lite_im.Protocol.ByteOrder.{read_uint16_be, read_uint32_be}
use lite_im.Protocol.ByteOrder.Values.{be}
use lite_im.Protocol.ByteOrder.RoundTrip.{be-read_uint16_be, be-read_uint32_be}
use lite_im.Protocol.TlvCodec.{TlvMap, emplace, max_tlv_value_length, parse_loop, parse_tlv_map}
use lite_im.Protocol.TlvCodec.Records.{TlvRecord, Fits, record_bytes, body_bytes, group}
use lite_im.Protocol.TlvCodec.Parse.{parse_tlv_map-body_bytes}

-- The record that the loop reads at an offset.
abbrev read_record : Bytes → ℕ → TlvRecord
read_record data' offset = record {
  type = read_uint16_be (drop offset data');
  value = take (read_uint32_be (drop (offset + 2) data')) (drop (offset + 6) data');
}

-- A header of six bytes, read and laid out again.
header_split :
    (xs : Bytes)
    → AreBytes xs
    → 6 ≤ length xs
    → (be 2 (read_uint16_be xs) ++ (be 4 (read_uint32_be (drop 2 xs)) ++ drop 6 xs) ≡ xs)
      × (read_uint16_be xs < 2 ^ 16)
header_split (a ∷ b ∷ c ∷ d ∷ e ∷ f ∷ rest) h l =
    let t = be-read_uint16_be a b (c ∷ d ∷ e ∷ f ∷ rest) (h.0, (h.1.0, tt)) in
    let n =
      be-read_uint32_be c d e f rest (h.1.1.0, (h.1.1.1.0, (h.1.1.1.1.0, (h.1.1.1.1.1.0, tt)))) in
    (rw (t.0, n.0), t.1)
header_split xs h l = absurd (omega arith)

AreBytes-drop : (n : ℕ) (bs : Bytes) → AreBytes bs → AreBytes (drop n bs)
AreBytes-drop zero bs h = h
AreBytes-drop (suc n) [] h = tt
AreBytes-drop (suc n) (b ∷ bs) h = AreBytes-drop n bs h.1

-- The tests that a round passes when the loop goes on.
record GoesOn (data' : Bytes) (offset : ℕ) : Type 0 where
  pub header_whole : offset + 6 ≤ length data'
  pub value_bounded : read_uint32_be (drop (offset + 2) data') ≤ max_tlv_value_length
  pub value_whole : offset + 6 + read_uint32_be (drop (offset + 2) data') ≤ length data'

next_offset : Bytes → ℕ → ℕ
next_offset data' offset = offset + 6 + read_uint32_be (drop (offset + 2) data')

round_cases :
    (fuel : ℕ) (data' : Bytes) (offset : ℕ) (m : TlvMap)
    → is_ok (parse_loop (suc fuel) data' offset m).1 ≡ true
    → ((length data' ≤ offset) × (parse_loop (suc fuel) data' offset m ≡ (m, success)))
      ⊎ (GoesOn data' offset
          × (parse_loop (suc fuel) data' offset m
              ≡ parse_loop fuel data'
                  (offset + 6 + read_uint32_be (drop (offset + 2) data'))
                  (emplace m (read_record data' offset).type (read_record data' offset).value)))
unfolding parse_loop
round_cases fuel data' offset m e = ground arith

module _ (data' : Bytes) (offset : ℕ) (b : AreBytes data') (g : GoesOn data' offset) where
  size : ℕ
  size = read_uint32_be (drop (offset + 2) data')

  size-length : length (read_record data' offset).value ≡ size
  unfolding size
  size-length = omega (
    arith,
    length-take (read_uint32_be (drop (offset + 2) data')) (drop (offset + 6) data'),
    length-drop (offset + 6) data',
    g.value_whole,
  )

  read_record-Fits : Fits (read_record data' offset)
  unfolding size
  read_record-Fits = record {
    type_fits =
        (header_split (drop offset data') (AreBytes-drop offset data' b)
          (omega (arith, length-drop offset data', g.header_whole))).1;
    value_fits = omega (arith, size-length, g.value_bounded);
  }

  read_record-record_bytes :
      record_bytes (read_record data' offset)
        ++ drop (offset + 6 + read_uint32_be (drop (offset + 2) data')) data'
      ≡ drop offset data'
  unfolding size
  read_record-record_bytes =
      let value : Bytes = (read_record data' offset).value in
      let n : ℕ = read_uint32_be (drop (offset + 2) data') in
      let here : Bytes = drop offset data' in
      let value_end : value ++ drop (offset + 6 + n) data' ≡ drop 6 here =
        ap (◌++◌ value) (sym (drop-drop n (offset + 6) data'))
        ∙ take-append-drop n (drop (offset + 6) data')
        ∙ sym (drop-drop 6 offset data') in
      let count : length value ≡ read_uint32_be (drop 2 here) =
        size-length ∙ ap read_uint32_be (sym (drop-drop 2 offset data')) in
      append_assoc (be 2 (read_uint16_be here)) (be 4 (length value) ++ value) _
      ∙ ap (◌++◌ (be 2 (read_uint16_be here))) (
          append_assoc (be 4 (length value)) value _
          ∙ ap₂ (λ (k : ℕ) (xs : Bytes). be 4 k ++ xs) count value_end)
      ∙ (header_split here (AreBytes-drop offset data' b)
          (omega (arith, length-drop offset data', g.header_whole))).0

-- The records of a body from an offset on.
abbrev Parsed : Bytes → ℕ → TlvMap → TlvMap → Type 0
Parsed data' offset m result =
    (rs : List TlvRecord) × All Fits rs
    × (body_bytes rs ≡ drop offset data')
    × (result ≡ group m rs)

parse_loop-Parsed :
    (fuel : ℕ) (data' : Bytes) (offset : ℕ) (m : TlvMap)
    → AreBytes data'
    → length data' - offset < fuel
    → is_ok (parse_loop fuel data' offset m).1 ≡ true
    → Parsed data' offset m (parse_loop fuel data' offset m).0
parse_loop-Parsed zero data' offset m b h e = absurd (omega arith)
parse_loop-Parsed (suc fuel) data' offset m b h e = elim (round_cases fuel data' offset m e) [
  | inl (over, r) ↦ ([], tt, sym (drop_all offset data' over), ap (λ (p : TlvMap × Status). p.0) r)
  | inr (g, r) ↦
      let n : ℕ = read_uint32_be (drop (offset + 2) data') in
      let v : TlvRecord = read_record data' offset in
      let (rs, fits, layout, result) =
        parse_loop-Parsed fuel data' (offset + 6 + n) (emplace m v.type v.value) b
          (omega (arith, g.value_whole)) (rw r at e) in
      (
        v ∷ rs,
        (read_record-Fits data' offset b g, fits),
        ap (◌++◌ (record_bytes v)) layout ∙ read_record-record_bytes data' offset b g,
        ap (λ (p : TlvMap × Status). p.0) r ∙ result,
      )
]

-- `parse_tlv_map` succeeds on a body exactly when the body is the layout of some records, each with a
-- 16-bit type and a value of at most 1 MiB; the map is then the map of these records.
pub parse_tlv_map_iff :
    (body : Bytes)
    → AreBytes body
    → (is_ok (parse_tlv_map (bytes body)).1 ≡ true) ↔ (
        (rs : List TlvRecord) × All Fits rs
        × (body_bytes rs ≡ body)
        × ((parse_tlv_map (bytes body)).0 ≡ group [] rs))
parse_tlv_map_iff body b = (
  unfold parse_tlv_map in (parse_loop-Parsed (suc (length body)) body 0 [] b (omega arith)),
  λ (rs, fits, layout, _). rw (← layout, parse_tlv_map-body_bytes rs fits) refl,
)
