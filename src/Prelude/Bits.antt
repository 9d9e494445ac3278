-- ===== src/Prelude/Bits.antt =====
-- The bits of machine words as arithmetic: `|` of a shifted word and a part below the shift is
-- their sum.
use Prim.Native.Nat.{
  ℕ, zero, suc, ◌+◌, ◌*◌, ◌/◌, ◌%◌, ◌^◌, ◌≤◌, ◌<◌, max, bit_or, digits, bit_or-bitwise, bit_xor,
  bit_xor-bitwise, differ,
}
use mathlib.Core.Path.{◌≡◌, refl, ◌∙◌}
use native.Mathlib.Nat.{pow-suc}
use native.Mathlib.Omega.{arith}

abbrev or_digits : ℕ → ℕ → ℕ → ℕ
or_digits n a b = digits (λ b. b) max n a b

or_digits_fuel : (n m a b : ℕ) → a ≤ n → a ≤ m → or_digits n a b ≡ or_digits m a b
or_digits_fuel zero zero a b p q = refl
or_digits_fuel zero (suc m) zero b p q = refl
or_digits_fuel zero (suc m) (suc a) b p q = absurd (omega arith)
or_digits_fuel (suc n) zero zero b p q = refl
or_digits_fuel (suc n) zero (suc a) b p q = absurd (omega arith)
or_digits_fuel (suc n) (suc m) zero b p q = refl
or_digits_fuel (suc n) (suc m) (suc a) b p q =
    omega (arith, or_digits_fuel n m (suc a / 2) (b / 2) (omega arith) (omega arith))

zero-bit_or : (b : ℕ) → bit_or 0 b ≡ b
zero-bit_or b = bit_or-bitwise 0 b

bit_or_step : (a b : ℕ) → bit_or a b ≡ bit_or (a / 2) (b / 2) * 2 + max (a % 2) (b % 2)
bit_or_step zero b = omega (arith, zero-bit_or b, zero-bit_or (b / 2))
bit_or_step (suc a) b = omega (
  arith,
  bit_or-bitwise (suc a) b,
  bit_or-bitwise (suc a / 2) (b / 2),
  or_digits_fuel a (suc a / 2) (suc a / 2) (b / 2) (omega arith) (omega arith),
)

bit_or-zero_fuel : (n a : ℕ) → a ≤ n → bit_or a 0 ≡ a
bit_or-zero_fuel n zero h = refl
bit_or-zero_fuel zero (suc a) h = absurd (omega arith)
bit_or-zero_fuel (suc n) (suc a) h =
    omega (arith, bit_or_step (suc a) 0, bit_or-zero_fuel n (suc a / 2) (omega arith))

bit_or_double : (c b : ℕ) → bit_or (c * 2) b ≡ bit_or c (b / 2) * 2 + b % 2
bit_or_double c b =
    let half : c * 2 / 2 ≡ c = omega arith in bit_or_step (c * 2) b ∙ (rw half (omega arith))

pub bit_or_shift : (k a b : ℕ) → b < 2 ^ k → bit_or (a * 2 ^ k) b ≡ a * 2 ^ k + b
bit_or_shift zero a b h =
    let none_below : b ≡ 0 = omega arith in
    let same : a * 1 ≡ a = omega arith in
    rw (none_below, same) (omega (arith, bit_or-zero_fuel a a (omega arith)))
bit_or_shift (suc k) a b h =
    let split : a * 2 ^ suc k ≡ a * 2 ^ k * 2 = rw (pow-suc 2 k) (omega arith) in
    rw split (
      omega
        (arith, bit_or_double (a * 2 ^ k) b, bit_or_shift k a (b / 2) (omega (arith, pow-suc 2 k))))

bit_or_zero_fuel : (n a b : ℕ) → a ≤ n → b ≤ n → bit_or a b ≡ 0 → (a ≡ 0) × (b ≡ 0)
bit_or_zero_fuel zero a b p q h = (omega arith, omega arith)
bit_or_zero_fuel (suc n) a b p q h =
    let step = bit_or_step a b in
    let half = bit_or_zero_fuel n (a / 2) (b / 2) (omega arith) (omega arith) (omega arith) in
    (omega (arith, half.0), omega (arith, half.1))

-- `|` is zero on zeros only.
pub bit_or_zero : (a b : ℕ) → bit_or a b ≡ 0 → (a ≡ 0) × (b ≡ 0)
bit_or_zero a b h = bit_or_zero_fuel (a + b) a b (omega arith) (omega arith) h

abbrev xor_digits : ℕ → ℕ → ℕ → ℕ
xor_digits n a b = digits (λ b. b) differ n a b

xor_digits_fuel : (n m a b : ℕ) → a ≤ n → a ≤ m → xor_digits n a b ≡ xor_digits m a b
xor_digits_fuel zero zero a b p q = refl
xor_digits_fuel zero (suc m) zero b p q = refl
xor_digits_fuel zero (suc m) (suc a) b p q = absurd (omega arith)
xor_digits_fuel (suc n) zero zero b p q = refl
xor_digits_fuel (suc n) zero (suc a) b p q = absurd (omega arith)
xor_digits_fuel (suc n) (suc m) zero b p q = refl
xor_digits_fuel (suc n) (suc m) (suc a) b p q =
    omega (arith, xor_digits_fuel n m (suc a / 2) (b / 2) (omega arith) (omega arith))

zero-bit_xor : (b : ℕ) → bit_xor 0 b ≡ b
zero-bit_xor b = bit_xor-bitwise 0 b

bit_xor_step : (a b : ℕ) → bit_xor a b ≡ bit_xor (a / 2) (b / 2) * 2 + differ (a % 2) (b % 2)
bit_xor_step zero b = omega (arith, zero-bit_xor b, zero-bit_xor (b / 2))
bit_xor_step (suc a) b = omega (
  arith,
  bit_xor-bitwise (suc a) b,
  bit_xor-bitwise (suc a / 2) (b / 2),
  xor_digits_fuel a (suc a / 2) (suc a / 2) (b / 2) (omega arith) (omega arith),
)

differ_zero : (x y : ℕ) → differ x y ≡ 0 → x ≡ y
differ_zero zero y h = omega (arith, h)
differ_zero (suc x) zero h = h
differ_zero (suc x) (suc y) h = omega (arith, differ_zero x y h)

differ_same : (x : ℕ) → differ x x ≡ 0
differ_same zero = refl
differ_same (suc x) = differ_same x

bit_xor_zero_fuel : (n a b : ℕ) → a ≤ n → b ≤ n → bit_xor a b ≡ 0 → a ≡ b
bit_xor_zero_fuel zero a b p q h = omega arith
bit_xor_zero_fuel (suc n) a b p q h =
    let step = bit_xor_step a b in
    let half =
      bit_xor_zero_fuel n (a / 2) (b / 2) (omega arith) (omega arith) (omega (arith, step, h)) in
    let low = differ_zero (a % 2) (b % 2) (omega (arith, step, h)) in omega (arith, half, low)

-- `^` is zero on equal words only, and on all of them.
pub bit_xor_zero : (a b : ℕ) → bit_xor a b ≡ 0 → a ≡ b
bit_xor_zero a b h = bit_xor_zero_fuel (a + b) a b (omega arith) (omega arith) h

bit_xor_same_fuel : (n a : ℕ) → a ≤ n → bit_xor a a ≡ 0
bit_xor_same_fuel n zero p = zero-bit_xor 0
bit_xor_same_fuel zero (suc a) p = absurd (omega arith)
bit_xor_same_fuel (suc n) (suc a) p =
    let step = bit_xor_step (suc a) (suc a) in
    let half = bit_xor_same_fuel n (suc a / 2) (omega arith) in
    let low = differ_same (suc a % 2) in omega (arith, step, half, low)

pub bit_xor_same : (a : ℕ) → bit_xor a a ≡ 0
bit_xor_same a = bit_xor_same_fuel a a (omega arith)

pub zero_or_zero : bit_or 0 0 ≡ 0
zero_or_zero = zero-bit_or 0
