-- ===== src/Protocol/ByteOrder/Values.antt =====
-- Big-endian numerals of any width: what the readers and writers of ByteOrder.hpp are held against.
use lite_im.Prelude.{
  ℕ, zero, suc, ◌+◌, ◌*◌, ◌/◌, ◌%◌, ◌^◌, ◌<◌, ◌≡◌, refl, ap, ◌∙◌, [], ◌∷◌, ◌++◌, append-nil,
  append_assoc, arith, length, length-append, All-append,
}
use lite_im.Protocol.Bytes.{Bytes, IsByte, AreBytes}
use native.Mathlib.Nat.{pow-suc}

-- The `k` low bytes of `v`, highest first.
unfoldable pub be : ℕ → ℕ → Bytes
be zero v = []
be (suc k) v = be k (v / 256) ++ (v % 256 ∷ [])

unfoldable pub of_be_from : ℕ → Bytes → ℕ
of_be_from acc [] = acc
of_be_from acc (b ∷ bs) = of_be_from (acc * 256 + b) bs

unfoldable pub of_be : Bytes → ℕ
unfolding of_be_from
of_be bs = of_be_from 0 bs

pub length-be : (k v : ℕ) → length (be k v) ≡ k
unfolding be
length-be zero v = refl
length-be (suc k) v =
    omega (arith, length-append (be k (v / 256)) (v % 256 ∷ []), length-be k (v / 256))

pub be-AreBytes : (k v : ℕ) → AreBytes (be k v)
unfolding be
be-AreBytes zero v = tt
be-AreBytes (suc k) v =
    All-append IsByte (be k (v / 256)) (v % 256 ∷ []) (be-AreBytes k (v / 256)) (omega arith, tt)

of_be_from-append :
    (acc : ℕ) (xs ys : Bytes) → of_be_from acc (xs ++ ys) ≡ of_be_from (of_be_from acc xs) ys
unfolding of_be_from
of_be_from-append acc [] ys = refl
of_be_from-append acc (x ∷ xs) ys = of_be_from-append (acc * 256 + x) xs ys

pub of_be-be : (k v : ℕ) → v < 256 ^ k → of_be (be k v) ≡ v
unfolding of_be be
of_be-be zero v h = omega arith
of_be-be (suc k) v h =
    of_be_from-append 0 (be k (v / 256)) (v % 256 ∷ [])
    ∙ omega (arith, of_be-be k (v / 256) (omega (arith, pow-suc 256 k)))

be-of_be_from :
    (j acc : ℕ) (xs : Bytes) → AreBytes xs → be (j + length xs) (of_be_from acc xs) ≡ be j acc ++ xs
unfolding of_be_from be
be-of_be_from j acc [] h =
    rw (append-nil) (ap (λ (n : ℕ). be n acc) {x = j + 0} {y = j} (omega arith))
be-of_be_from j acc (x ∷ xs) h =
    ap (λ (n : ℕ). be n (of_be_from (acc * 256 + x) xs)) shifted
    ∙ be-of_be_from (suc j) (acc * 256 + x) xs h.1
    ∙ rw (high, low) (append_assoc (be j acc) (x ∷ []) xs)
  where
    shifted : j + suc (length xs) ≡ suc j + length xs
    shifted = omega arith

    high : (acc * 256 + x) / 256 ≡ acc
    high = omega (arith, h.0)

    low : (acc * 256 + x) % 256 ≡ x
    low = omega (arith, h.0)

pub be-of_be : (xs : Bytes) → AreBytes xs → be (length xs) (of_be xs) ≡ xs
unfolding of_be be
be-of_be xs h = ap (λ (n : ℕ). be n (of_be_from 0 xs)) start ∙ be-of_be_from 0 0 xs h
  where
    start : length xs ≡ 0 + length xs
    start = omega arith

of_be_from-lt :
    (m acc : ℕ) (xs : Bytes)
    → AreBytes xs
    → acc < 256 ^ m
    → of_be_from acc xs < 256 ^ (m + length xs)
unfolding of_be_from
of_be_from-lt m acc [] h k = let e : m + 0 ≡ m = omega arith in rw e k
of_be_from-lt m acc (x ∷ xs) h k =
    let e : m + suc (length xs) ≡ suc m + length xs = omega arith in
    rw e (of_be_from-lt (suc m) (acc * 256 + x) xs h.1 (omega (arith, pow-suc 256 m, h.0)))

pub of_be-lt : (xs : Bytes) → AreBytes xs → of_be xs < 256 ^ length xs
unfolding of_be
of_be-lt xs h =
    let e : 0 + length xs ≡ length xs = omega arith in
    rw e at (of_be_from-lt 0 0 xs h (omega arith))
