-- ===== src/Service/AuthService/Equality.antt =====
-- `secureEquals` tells whether two texts are equal.
use lite_im.Prelude.{ℕ, ◌≡◌, ◌↔◌, refl, ap₂, sym, true, [], ◌∷◌, length, arith}
use Prim.Native.Nat.{bit_or, bit_xor}
use lite_im.Prelude.Bits.{bit_or_zero, bit_xor_zero, bit_xor_same, zero_or_zero}
use lite_im.Protocol.Bytes.{Bytes}
use lite_im.Service.AuthService.{difference, secure_equals}

difference_zero :
    (diff : ℕ) (xs ys : Bytes)
    → length xs ≡ length ys
    → difference diff xs ys ≡ 0
    → (diff ≡ 0) × (xs ≡ ys)
unfolding difference
difference_zero diff [] [] l h = (h, refl)
difference_zero diff [] (y ∷ ys) l h = absurd (omega (arith, l))
difference_zero diff (x ∷ xs) [] l h = absurd (omega (arith, l))
difference_zero diff (x ∷ xs) (y ∷ ys) l h =
    let rest = difference_zero (bit_or diff (bit_xor x y)) xs ys (omega (arith, l)) h in
    let both = bit_or_zero diff (bit_xor x y) rest.0 in
    (both.0, ap₂ (λ z zs. z ∷ zs) (bit_xor_zero x y both.1) rest.1)

difference_same : (xs : Bytes) → difference 0 xs xs ≡ 0
unfolding difference
difference_same [] = refl
difference_same (x ∷ xs) = rw (bit_xor_same x, zero_or_zero) (difference_same xs)

-- `secureEquals` is true of two texts exactly when they are equal, although it looks at every character.
pub secure_equals_iff : (lhs rhs : Bytes) → (secure_equals lhs rhs ≡ true) ↔ (lhs ≡ rhs)
unfolding secure_equals
secure_equals_iff lhs rhs = (
  λ h. (difference_zero 0 lhs rhs (ground (arith, h)) (ground (arith, h))).1,
  λ e. rw (sym e) (ground (arith, difference_same lhs)),
)
