-- ===== src/Service/ChatService/Conversations.antt =====
-- The id of the conversation of two users.
use lite_im.Prelude.{
  ℕ, ◌+◌, ◌-◌, ◌*◌, ◌%◌, ◌^◌, ◌≤◌, ◌<◌, ◌≡◌, ◌≢◌, refl, sym, subst, ◌⊎◌, inl, inr, ◌↔◌, Bool, true,
  false, ◌&&◌, ◌||◌, ltb, ◌==◌, if◌then◌else◌, min, max, arith, Bool-cases,
}
use Prim.Native.Nat.{bit_or}
use lite_im.Prelude.Bits.{bit_or_shift}
use lite_im.Status.{Status, Result, ok, err, error, invalid_argument}
use lite_im.Service.ChatService.{
  private_conversation_id, small_user_id_conversation_base, invalid_receiver_status,
}

-- The two ways to make an id, of the smaller and the greater of two user ids.
abbrev IsNumber : ℕ → ℕ → ℕ → Type 0
IsNumber left right n =
    ((right < 10000) × (n ≡ left * 10000 + right))
    ⊎ ((10000 ≤ right) × (right < 2 ^ 32) × (n ≡ left * 2 ^ 32 + right))

abbrev IsConversation : ℕ → ℕ → ℕ → Type 0
IsConversation a b n = (a ≢ 0) × (b ≢ 0) × (a ≢ b) × IsNumber (min a b) (max a b) n

large_number :
    (left right : ℕ)
    → left < 2 ^ 32
    → right < 2 ^ 32
    → bit_or (left * 2 ^ 32 % 2 ^ 64) right ≡ left * 2 ^ 32 + right
large_number left right h h' =
    let small : left * 2 ^ 32 % 2 ^ 64 ≡ left * 2 ^ 32 = omega arith in
    rw (small) (bit_or_shift 32 left right h')

module _ {A : Type 0} (a : A) where
  guard-ok :
      (t : Bool) (x : Status) (r : Result A)
      → (if t then err x else r) ≡ ok a
      → (t ≡ false) × (r ≡ ok a)
  guard-ok true x r e = absurd (ground (arith, e))
  guard-ok false x r e = (refl, e)

  branch-ok :
      (t : Bool) (r r' : Result A)
      → (if t then r else r') ≡ ok a
      → ((t ≡ true) × (r ≡ ok a)) ⊎ ((t ≡ false) × (r' ≡ ok a))
  branch-ok true r r' e = inl (refl, e)
  branch-ok false r r' e = inr (refl, e)

private_conversation_id-IsConversation :
    (a b n : ℕ) → private_conversation_id a b ≡ ok n → IsConversation a b n
unfolding private_conversation_id
private_conversation_id-IsConversation a b n e =
    let left : ℕ = min a b in
    let right : ℕ = max a b in
    let wide : Result ℕ = ok (bit_or (left * 2 ^ 32 % 2 ^ 64) right) in
    let too_large : Status =
      error invalid_argument "user id is too large for private conversation id" in
    let (some_users, e1) = guard-ok n (a == 0 || b == 0 || a == b) invalid_receiver_status _ e in
    let number : IsNumber (min a b) (max a b) n =
      elim (branch-ok n
        (ltb left small_user_id_conversation_base && ltb right small_user_id_conversation_base) _ _
        e1) [
          | inl (s, e2) ↦ inl (ground (arith, s), ground (arith, e2))
          | inr (s, e2) ↦
              let (fits, e3) = guard-ok n (ltb (2 ^ 32 - 1) right) too_large wide e2 in
              let fits' : max a b < 2 ^ 32 = ground (arith, fits) in
              let least : min a b < 2 ^ 32 = omega arith in
              let same = large_number (min a b) (max a b) least fits' in
              inr (ground (arith, s), fits', ground (arith, e3, same))
        ] in
    (
      (λ q. ground (arith, some_users, q)),
      (λ q. ground (arith, some_users, q)),
      (λ q. ground (arith, some_users, q)),
      number,
    )

same_number :
    (l r l' r' n : ℕ)
    → l ≢ 0
    → l' ≢ 0
    → l < r
    → l' < r'
    → IsNumber l r n
    → IsNumber l' r' n
    → (l ≡ l') × (r ≡ r')
same_number l r l' r' n z z' h h' k k' = ground (arith, z, z', h, h', k, k')

one_number : (l r n m : ℕ) → IsNumber l r n → IsNumber l r m → n ≡ m
one_number l r n m k k' = ground (arith, k, k')

same_ends :
    (a b c d : ℕ)
    → ((a ≡ c) × (b ≡ d)) ⊎ ((a ≡ d) × (b ≡ c))
    → (min a b ≡ min c d) × (max a b ≡ max c d)
same_ends a b c d (inl (p, q)) = (omega (arith, p, q), omega (arith, p, q))
same_ends a b c d (inr (p, q)) = (omega (arith, p, q), omega (arith, p, q))

-- Two pairs of users have the same conversation exactly where they are the same two users, in either order.
pub private_conversation_id_iff :
    (a b c d n m : ℕ)
    → private_conversation_id a b ≡ ok n
    → private_conversation_id c d ≡ ok m
    → (n ≡ m) ↔ (((a ≡ c) × (b ≡ d)) ⊎ ((a ≡ d) × (b ≡ c)))
private_conversation_id_iff a b c d n m e e' =
    let (za, zb, ne, k) = private_conversation_id-IsConversation a b n e in
    let (zc, zd, ne', k') = private_conversation_id-IsConversation c d m e' in
    (
      (λ q.
          let (x, y) =
            same_number (min a b) (max a b) (min c d) (max c d) n (omega arith) (omega arith)
              (omega arith) (omega arith) k (subst (IsNumber (min c d) (max c d)) (sym q) k') in
          ground (arith, x, y)),
      (λ p.
          let (x, y) = same_ends a b c d p in
          one_number (min c d) (max c d) n m (rw (x, y) at k) k'),
    )

-- Two different users with ids from 1 to the greatest 32-bit number have a conversation, whose id is not
-- zero and fits 64 bits.
pub private_conversation_id_total :
    (a b : ℕ)
    → a ≢ 0
    → b ≢ 0
    → a ≢ b
    → a < 2 ^ 32
    → b < 2 ^ 32
    → (n : ℕ) × (private_conversation_id a b ≡ ok n) × (n ≢ 0) × (n < 2 ^ 64)
unfolding private_conversation_id
private_conversation_id_total a b za zb ne ha hb =
    let users : (a == 0 || b == 0 || a == b) ≡ false = ground (arith, za, zb, ne) in
    let fits : ltb (2 ^ 32 - 1) (max a b) ≡ false = ground (arith, ha, hb) in
    let least : min a b < 2 ^ 32 = omega arith in
    let greatest : max a b < 2 ^ 32 = omega arith in
    let same = large_number (min a b) (max a b) least greatest in
    rw (users)
      (elim (Bool-cases (
        ltb (min a b) small_user_id_conversation_base
        && ltb (max a b) small_user_id_conversation_base)) [
          | inl s ↦ rw (s) (
            min a b * small_user_id_conversation_base + max a b,
            refl,
            (λ q. omega (arith, za, zb, q)),
            ground (arith, s),
          )
          | inr s ↦
              rw (s, fits)
                (
                  bit_or (min a b * 2 ^ 32 % 2 ^ 64) (max a b),
                  refl,
                  (λ q. omega (arith, za, zb, q, same)),
                  omega (arith, same, least, greatest),
                )
        ])
