-- ===== src/Protocol/ByteOrder/Laws.antt =====
-- The readers and writers of ByteOrder.hpp are the big-endian numerals.
use Prim.Native.Nat.{bit_or}
use lite_im.Prelude.{ℕ, ◌+◌, ◌*◌, ◌/◌, ◌%◌, ◌^◌, ◌<◌, ◌≡◌, [], ◌∷◌, ◌++◌, append_assoc, arith}
use lite_im.Prelude.Bits.{bit_or_shift}
use lite_im.Protocol.Bytes.{Bytes, IsByte, AreBytes}
use lite_im.Protocol.ByteOrder.{
  append_uint16_be, append_uint32_be, append_uint64_be, read_uint16_be, read_uint32_be,
  read_uint64_be,
}
use lite_im.Protocol.ByteOrder.Values.{be, of_be}

-- Two shifts in a row.
shr_16 : (v : ℕ) → v / 256 / 256 ≡ v / 2 ^ 16
shr_16 v = omega arith

shr_24 : (v : ℕ) → v / 2 ^ 16 / 256 ≡ v / 2 ^ 24
shr_24 v = omega arith

shr_32 : (v : ℕ) → v / 2 ^ 24 / 256 ≡ v / 2 ^ 32
shr_32 v = omega arith

shr_40 : (v : ℕ) → v / 2 ^ 32 / 256 ≡ v / 2 ^ 40
shr_40 v = omega arith

shr_48 : (v : ℕ) → v / 2 ^ 40 / 256 ≡ v / 2 ^ 48
shr_48 v = omega arith

shr_56 : (v : ℕ) → v / 2 ^ 48 / 256 ≡ v / 2 ^ 56
shr_56 v = omega arith

shr_0 : (v : ℕ) → v / 1 ≡ v
shr_0 v = omega arith

ruleset shifts = (shr_16, shr_24, shr_32, shr_40, shr_48, shr_56, shr_0)

pub append_uint16_be_lem : (output : Bytes) (v : ℕ) → append_uint16_be output v ≡ output ++ be 2 v
unfolding append_uint16_be be
append_uint16_be_lem output v = append_assoc output _ _

pub append_uint32_be_lem : (output : Bytes) (v : ℕ) → append_uint32_be output v ≡ output ++ be 4 v
unfolding append_uint32_be be
append_uint32_be_lem output v = simp (append_assoc, shifts)

pub append_uint64_be_lem : (output : Bytes) (v : ℕ) → append_uint64_be output v ≡ output ++ be 8 v
unfolding append_uint64_be be
append_uint64_be_lem output v = simp (append_assoc, shifts)

-- One `|` of two parts that do not meet.
or_part : (k hi lo : ℕ) → lo < 2 ^ k → (x : ℕ) → x ≡ hi * 2 ^ k → bit_or x lo ≡ x + lo
or_part k hi lo h x e = rw e (bit_or_shift k hi lo h)

pub read_uint16_be_lem :
    (a b : ℕ) (rest : Bytes)
    → IsByte a
    → IsByte b
    → read_uint16_be (a ∷ b ∷ rest) ≡ of_be (a ∷ b ∷ [])
unfolding read_uint16_be of_be
read_uint16_be_lem a b rest p q =
    let word : a * 2 ^ 8 % 2 ^ 32 ≡ a * 2 ^ 8 = omega arith in
    rw (word, bit_or_shift 8 a b q) (omega arith)

pub read_uint32_be_lem :
    (a b c d : ℕ) (rest : Bytes)
    → IsByte a
    → IsByte b
    → IsByte c
    → IsByte d
    → read_uint32_be (a ∷ b ∷ c ∷ d ∷ rest) ≡ of_be (a ∷ b ∷ c ∷ d ∷ [])
unfolding read_uint32_be of_be
read_uint32_be_lem a b c d rest p q r s =
    let a' : a * 2 ^ 24 % 2 ^ 32 ≡ a * 2 ^ 24 = omega arith in
    let b' : b * 2 ^ 16 % 2 ^ 32 ≡ b * 2 ^ 16 = omega arith in
    let c' : c * 2 ^ 8 % 2 ^ 32 ≡ c * 2 ^ 8 = omega arith in
    rw
      (
        a',
        b',
        c',
        bit_or_shift 24 a (b * 2 ^ 16) (omega arith),
        or_part 16 (a * 256 + b) (c * 2 ^ 8) (omega arith) (a * 2 ^ 24 + b * 2 ^ 16) (omega arith),
        or_part 8 ((a * 256 + b) * 256 + c) d s (a * 2 ^ 24 + b * 2 ^ 16 + c * 2 ^ 8) (omega arith),
      )
      (omega arith)

-- One round of the 64-bit reader, while the value still fits.
read_round :
    (value b : ℕ) → value < 2 ^ 56 → IsByte b → bit_or (value * 2 ^ 8 % 2 ^ 64) b ≡ value * 256 + b
read_round value b h k =
    let word : value * 2 ^ 8 % 2 ^ 64 ≡ value * 2 ^ 8 = omega arith in
    rw (word, bit_or_shift 8 value b k) (omega arith)

pub read_uint64_be_lem :
    (a b c d e f g h : ℕ) (rest : Bytes)
    → AreBytes (a ∷ b ∷ c ∷ d ∷ e ∷ f ∷ g ∷ h ∷ [])
    → read_uint64_be (a ∷ b ∷ c ∷ d ∷ e ∷ f ∷ g ∷ h ∷ rest)
      ≡ of_be (a ∷ b ∷ c ∷ d ∷ e ∷ f ∷ g ∷ h ∷ [])
unfolding read_uint64_be of_be
read_uint64_be_lem a b c d e f g h rest (qa, (qb, (qc, (qd, (qe, (qf, (qg, (qh, _)))))))) = rw (
  read_round 0 a (omega arith) qa,
  read_round (0 * 256 + a) b (omega arith) qb,
  read_round ((0 * 256 + a) * 256 + b) c (omega arith) qc,
  read_round (((0 * 256 + a) * 256 + b) * 256 + c) d (omega arith) qd,
  read_round ((((0 * 256 + a) * 256 + b) * 256 + c) * 256 + d) e (omega arith) qe,
  read_round (((((0 * 256 + a) * 256 + b) * 256 + c) * 256 + d) * 256 + e) f (omega arith) qf,
  read_round ((((((0 * 256 + a) * 256 + b) * 256 + c) * 256 + d) * 256 + e) * 256 + f) g
      (omega arith) qg,
  read_round (((((((0 * 256 + a) * 256 + b) * 256 + c) * 256 + d) * 256 + e) * 256 + f) * 256 + g) h
      (omega arith) qh,
)
