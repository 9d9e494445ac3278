-- ===== src/Protocol/TlvCodec/Records.antt =====
-- A body as a list of records: the layout of one, and what a map of the records holds.
use lite_im.Prelude.{
  ℕ, ◌+◌, ◌≤◌, ◌<◌, ◌^◌, ◌≡◌, sym, ◌∙◌, List, [], ◌∷◌, ◌++◌, append_assoc, append-nil, arith,
  length, length-append, ◌==◌, if◌then◌else◌, Bool-cases, inl, inr,
}
use lite_im.Prelude.Assoc.{find, find-insert}
use lite_im.Protocol.Bytes.{Bytes}
use lite_im.Protocol.ByteOrder.Values.{be, length-be}
use lite_im.Protocol.TlvCodec.{TlvMap, or_empty, emplace, max_tlv_value_length}

pub record TlvRecord : Type 0 where
  pub type : ℕ
  pub value : Bytes

pub record Fits (r : TlvRecord) : Type 0 where
  pub type_fits : r.type < 2 ^ 16
  pub value_fits : length r.value ≤ max_tlv_value_length

abbrev pub record_bytes : TlvRecord → Bytes
record_bytes r = be 2 r.type ++ (be 4 (length r.value) ++ r.value)

abbrev pub body_bytes : List TlvRecord → Bytes
body_bytes [] = []
body_bytes (r ∷ rs) = record_bytes r ++ body_bytes rs

pub length-record_bytes : (r : TlvRecord) → length (record_bytes r) ≡ 6 + length r.value
length-record_bytes r = omega (
  arith,
  length-append (be 2 r.type) (be 4 (length r.value) ++ r.value),
  length-append (be 4 (length r.value)) r.value,
  length-be 2 r.type,
  length-be 4 (length r.value),
)

-- The records in their order, put into a map.
abbrev pub group : TlvMap → List TlvRecord → TlvMap
group m [] = m
group m (r ∷ rs) = group (emplace m r.type r.value) rs

-- The values of one type, in the order of the records.
abbrev pub values_of : ℕ → List TlvRecord → List Bytes
values_of t [] = []
values_of t (r ∷ rs) = if r.type == t then r.value ∷ values_of t rs else values_of t rs

-- What a map holds for a type, an absent entry counting as an empty one.
abbrev pub entry : TlvMap → ℕ → List Bytes
entry m t = or_empty (find t m)

entry-emplace :
    (m : TlvMap) (t u : ℕ) (v : Bytes)
    → entry (emplace m t v) u ≡ (if t == u then entry m u ++ (v ∷ []) else entry m u)
unfolding emplace
entry-emplace m t u v = ground (arith, find-insert t u (or_empty (find t m) ++ (v ∷ [])) m)

pub entry-group :
    (m : TlvMap) (rs : List TlvRecord) (t : ℕ) → entry (group m rs) t ≡ entry m t ++ values_of t rs
entry-group m [] t = sym (append-nil (entry m t))
entry-group m (r ∷ rs) t = elim (Bool-cases (r.type == t)) [
  | inl e ↦
      entry-group (emplace m r.type r.value) rs t
      ∙ rw (entry-emplace m r.type t r.value, e) (append_assoc (entry m t) (r.value ∷ []) _)
  | inr e ↦ entry-group (emplace m r.type r.value) rs t ∙ rw (entry-emplace m r.type t r.value, e)
]
