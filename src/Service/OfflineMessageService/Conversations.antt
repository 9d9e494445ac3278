-- ===== src/Service/OfflineMessageService/Conversations.antt =====
-- The conversations whose counters an acknowledgement clears.
use mathlib.Core.Logic.Or
use mathlib.Core.List.{Mem, not-mem-nil, mem-cons, mem-cons_self, mem-cons_of_mem}
use lite_im.Prelude.{
  sym, subst, ◌∙◌, ◌↔◌, ◌≡◌, refl, Bool, true, false, not, ◌||◌, List, [], ◌∷◌, ◌++◌, if◌then◌else◌,
  if_elim, Bool-cases, inl, inr, arith,
}
use lite_im.Service.Records.{
  ConversationType, private_chat, group, type_value, ConversationKey, OfflineMessageRecord,
}
use lite_im.Service.OfflineMessageService.{same_conversation, contains_conversation, collect}

-- Whether one of the messages is of this conversation.
abbrev concerns : List OfflineMessageRecord → ConversationKey → Bool
concerns [] conversation = false
concerns (m ∷ ms) conversation =
    same_conversation m.message.conversation conversation || concerns ms conversation

abbrev IsDistinct : List ConversationKey → Type 0
IsDistinct [] = Unit {0}
IsDistinct (k ∷ ks) = (contains_conversation ks k ≡ false) × IsDistinct ks

contains-append :
    (ks ks' : List ConversationKey) (k : ConversationKey)
    → contains_conversation (ks ++ ks') k
      ≡ (contains_conversation ks k || contains_conversation ks' k)
unfolding contains_conversation
contains-append [] ks' k = refl
contains-append (j ∷ ks) ks' k = ground (arith, contains-append ks ks' k)

same_sym : (a b : ConversationKey) → same_conversation a b ≡ same_conversation b a
unfolding same_conversation
same_sym a b = ground arith

same_trans :
    (a b c : ConversationKey)
    → same_conversation a b ≡ true
    → same_conversation b c ≡ true
    → same_conversation a c ≡ true
unfolding same_conversation
same_trans a b c h k = ground (arith, h, k)

contains_trans :
    (ks : List ConversationKey) (a b : ConversationKey)
    → contains_conversation ks a ≡ true
    → same_conversation a b ≡ true
    → contains_conversation ks b ≡ true
unfolding contains_conversation
contains_trans [] a b h k = h
contains_trans (j ∷ ks) a b h k = elim (Bool-cases (same_conversation j a)) [
  | inl e ↦ let s = same_trans j a b e k in ground (arith, s)
  | inr e ↦ let c = contains_trans ks a b (ground (arith, e, h)) k in ground (arith, c)
]

append-IsDistinct :
    (ks : List ConversationKey) (k : ConversationKey)
    → contains_conversation ks k ≡ false
    → IsDistinct ks
    → IsDistinct (ks ++ (k ∷ []))
unfolding contains_conversation
append-IsDistinct [] k h d = (refl, tt)
append-IsDistinct (j ∷ ks) k h d =
    let tail = contains-append ks (k ∷ []) j in
    let swap = same_sym k j in
    let head = d.0 in
    (ground (arith, tail, swap, head, h), append-IsDistinct ks k (ground (arith, h)) d.1)

abbrev added : List ConversationKey → ConversationKey → List ConversationKey
added ks k = if not (contains_conversation ks k) then ks ++ (k ∷ []) else ks

contains-added :
    (ks : List ConversationKey) (c k : ConversationKey)
    → contains_conversation (added ks c) k ≡ (contains_conversation ks k || same_conversation c k)
unfolding contains_conversation
contains-added ks c k = elim (Bool-cases (contains_conversation ks c)) [
  | inl e ↦ elim (Bool-cases (same_conversation c k)) [
    | inl s ↦ let t = contains_trans ks c k e s in ground (arith, e, s, t)
    | inr s ↦ ground (arith, e, s)
  ]
  | inr e ↦ let a = contains-append ks (c ∷ []) k in ground (arith, e, a)
]

added-IsDistinct :
    (ks : List ConversationKey) (c : ConversationKey) → IsDistinct ks → IsDistinct (added ks c)
added-IsDistinct ks c d =
    if_elim IsDistinct (not (contains_conversation ks c))
      (λ e. append-IsDistinct ks c (ground (arith, e)) d) (λ _. d)

collect_from :
    (ks : List ConversationKey) (ms : List OfflineMessageRecord)
    → IsDistinct ks
    → IsDistinct (collect ks ms)
      × ((k : ConversationKey)
          → contains_conversation (collect ks ms) k ≡ (contains_conversation ks k || concerns ms k))
unfolding collect
collect_from ks [] d = (d, λ k. ground arith)
collect_from ks (m ∷ ms) d =
    let (d', c) =
      collect_from (added ks m.message.conversation) ms
        (added-IsDistinct ks m.message.conversation d) in
    (
      d',
      λ k.
          let h = c k in let a = contains-added ks m.message.conversation k in ground (arith, h, a),
    )

same-eq : (a b : ConversationKey) → same_conversation a b ≡ true → a ≡ b
unfolding same_conversation
same-eq a b h = λ i. record { type = type_eq a.type b.type (ground (arith, h)) i; id = id_eq i }
  where
    id_eq : a.id ≡ b.id
    id_eq = ground (arith, h)

    type_eq : (t t' : ConversationType) → type_value t ≡ type_value t' → t ≡ t'
    type_eq private_chat private_chat e = refl
    type_eq private_chat group e = absurd (omega (arith, e))
    type_eq group private_chat e = absurd (omega (arith, e))
    type_eq group group e = refl

same_refl : (a : ConversationKey) → same_conversation a a ≡ true
unfolding same_conversation
same_refl a = ground arith

-- The test of the code is membership.
contains_iff :
    (ks : List ConversationKey) (k : ConversationKey)
    → (contains_conversation ks k ≡ true) ↔ Mem k ks
unfolding contains_conversation
contains_iff ks k = (there ks, found ks)
  where
    there : (ks : List ConversationKey) → contains_conversation ks k ≡ true → Mem k ks
    there [] h = absurd (ground (arith, h))
    there (j ∷ ks) h = elim (Bool-cases (same_conversation j k)) [
      | inl e ↦ subst (λ c. Mem c (j ∷ ks)) (same-eq j k e) mem-cons_self
      | inr e ↦ mem-cons_of_mem j (there ks (ground (arith, e, h)))
    ]

    found : (ks : List ConversationKey) → Mem k ks → contains_conversation ks k ≡ true
    found [] m = absurd (not-mem-nil m)
    found (j ∷ ks) m =
        let prop : IsProp (contains_conversation (j ∷ ks) k ≡ true) = hlevel in
        Or.elim prop (mem-cons.0 m)
          (λ e.
            let s = same_refl j in
            let t : same_conversation j k ≡ true = rw (e) (s) in ground (arith, t))
          (λ n. let t = found ks n in ground (arith, t))

-- The conversations of the messages, in their order.
abbrev pub conversations_of : List OfflineMessageRecord → List ConversationKey
conversations_of [] = []
conversations_of (m ∷ ms) = m.message.conversation ∷ conversations_of ms

concerns_lem :
    (ms : List OfflineMessageRecord) (k : ConversationKey)
    → concerns ms k ≡ contains_conversation (conversations_of ms) k
unfolding contains_conversation
concerns_lem [] k = refl
concerns_lem (m ∷ ms) k = let h = concerns_lem ms k in ground (arith, h)

-- No conversation is there twice.
abbrev pub IsWithoutRepeats : List ConversationKey → Type 0
IsWithoutRepeats [] = Unit {0}
IsWithoutRepeats (k ∷ ks) = ¬ Mem k ks × IsWithoutRepeats ks

distinct-IsWithoutRepeats : (ks : List ConversationKey) → IsDistinct ks → IsWithoutRepeats ks
distinct-IsWithoutRepeats [] d = tt
distinct-IsWithoutRepeats (k ∷ ks) d = (
  (λ m. let t = (contains_iff ks k).1 m in ground (arith, t, d.0)),
  distinct-IsWithoutRepeats ks d.1,
)

-- The counters that an acknowledgement clears are those of the conversations of the acknowledged messages,
-- all of these and no others, and each of them once. Two conversations are the same exactly where type and id
-- are.
pub collect_lem :
    (ms : List OfflineMessageRecord)
    → IsWithoutRepeats (collect [] ms)
      × ((k : ConversationKey) → Mem k (collect [] ms) ↔ Mem k (conversations_of ms))
unfolding contains_conversation
collect_lem ms =
    let (distinct, same) = collect_from [] ms tt in
    (
      distinct-IsWithoutRepeats (collect [] ms) distinct,
      λ k.
          let s = same k ∙ concerns_lem ms k in
          (
            λ m.
                (contains_iff (conversations_of ms) k).0
                  (sym s ∙ (contains_iff (collect [] ms) k).1 m),
            λ m.
                (contains_iff (collect [] ms) k).0 (s ∙ (contains_iff (conversations_of ms) k).1 m),
          ),
    )
