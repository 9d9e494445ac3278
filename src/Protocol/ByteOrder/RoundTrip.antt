-- ===== src/Protocol/ByteOrder/RoundTrip.antt =====
-- What a writer of ByteOrder.hpp appends, the reader of the same width reads back, and the other way
-- round.
use lite_im.Prelude.{ℕ, ◌^◌, ◌<◌, ◌≡◌, ◌∙◌, [], ◌∷◌, ◌++◌, arith, length}
use lite_im.Protocol.Bytes.{Bytes, AreBytes}
use lite_im.Protocol.ByteOrder.{append_uint64_be, read_uint16_be, read_uint32_be, read_uint64_be}
use lite_im.Protocol.ByteOrder.Values.{be, of_be, be-AreBytes, of_be-be, be-of_be, of_be-lt}
use lite_im.Protocol.ByteOrder.Laws.{
  append_uint64_be_lem, read_uint16_be_lem, read_uint32_be_lem, read_uint64_be_lem,
}

-- The digits of `be k v` at the widths in use.
pub read_uint16_be-be : (v : ℕ) (rest : Bytes) → v < 2 ^ 16 → read_uint16_be (be 2 v ++ rest) ≡ v
unfolding be
read_uint16_be-be v rest h =
    let bytes = be-AreBytes 2 v in read_uint16_be_lem _ _ rest bytes.0 bytes.1.0 ∙ of_be-be 2 v h

pub read_uint32_be-be : (v : ℕ) (rest : Bytes) → v < 2 ^ 32 → read_uint32_be (be 4 v ++ rest) ≡ v
unfolding be
read_uint32_be-be v rest h =
    let bytes = be-AreBytes 4 v in
    read_uint32_be_lem _ _ _ _ rest bytes.0 bytes.1.0 bytes.1.1.0 bytes.1.1.1.0 ∙ of_be-be 4 v h

pub read_uint64_be-be : (v : ℕ) (rest : Bytes) → v < 2 ^ 64 → read_uint64_be (be 8 v ++ rest) ≡ v
unfolding be
read_uint64_be-be v rest h =
    read_uint64_be_lem _ _ _ _ _ _ _ _ rest (be-AreBytes 8 v) ∙ of_be-be 8 v h

-- A 64-bit number survives the writer and the reader, whatever bytes stand behind it.
pub read_uint64_be-append_uint64_be :
    (v : ℕ) (rest : Bytes) → v < 2 ^ 64 → read_uint64_be (append_uint64_be [] v ++ rest) ≡ v
read_uint64_be-append_uint64_be v rest h =
    rw (append_uint64_be_lem [] v) (read_uint64_be-be v rest h)

module _ (rest : Bytes) where
  pub read_uint16_be-of_be :
      (xs : Bytes) → AreBytes xs → length xs ≡ 2 → read_uint16_be (xs ++ rest) ≡ of_be xs
  read_uint16_be-of_be (a ∷ b ∷ []) h e = read_uint16_be_lem a b rest h.0 h.1.0
  read_uint16_be-of_be xs h e = absurd (omega arith)

  pub read_uint32_be-of_be :
      (xs : Bytes) → AreBytes xs → length xs ≡ 4 → read_uint32_be (xs ++ rest) ≡ of_be xs
  read_uint32_be-of_be (a ∷ b ∷ c ∷ d ∷ []) h e =
      read_uint32_be_lem a b c d rest h.0 h.1.0 h.1.1.0 h.1.1.1.0
  read_uint32_be-of_be xs h e = absurd (omega arith)

  pub read_uint64_be-of_be :
      (xs : Bytes) → AreBytes xs → length xs ≡ 8 → read_uint64_be (xs ++ rest) ≡ of_be xs
  read_uint64_be-of_be (a ∷ b ∷ c ∷ d ∷ e ∷ f ∷ g ∷ h ∷ []) k l =
      read_uint64_be_lem a b c d e f g h rest k
  read_uint64_be-of_be xs h e = absurd (omega arith)

-- The bytes that a reader looked at are the digits of what it returned, and the result fits.
pub be-read_uint16_be :
    (a b : ℕ) (rest : Bytes)
    → AreBytes (a ∷ b ∷ [])
    → (be 2 (read_uint16_be (a ∷ b ∷ rest)) ≡ a ∷ b ∷ []) × (read_uint16_be (a ∷ b ∷ rest) < 2 ^ 16)
be-read_uint16_be a b rest h =
    rw (read_uint16_be_lem a b rest h.0 h.1.0) (be-of_be _ h, of_be-lt _ h)

pub be-read_uint32_be :
    (a b c d : ℕ) (rest : Bytes)
    → AreBytes (a ∷ b ∷ c ∷ d ∷ [])
    → (be 4 (read_uint32_be (a ∷ b ∷ c ∷ d ∷ rest)) ≡ a ∷ b ∷ c ∷ d ∷ [])
      × (read_uint32_be (a ∷ b ∷ c ∷ d ∷ rest) < 2 ^ 32)
be-read_uint32_be a b c d rest h =
    rw (read_uint32_be_lem a b c d rest h.0 h.1.0 h.1.1.0 h.1.1.1.0) (be-of_be _ h, of_be-lt _ h)

pub be-read_uint64_be :
    (a b c d e f g h : ℕ) (rest : Bytes)
    → AreBytes (a ∷ b ∷ c ∷ d ∷ e ∷ f ∷ g ∷ h ∷ [])
    → (be 8 (read_uint64_be (a ∷ b ∷ c ∷ d ∷ e ∷ f ∷ g ∷ h ∷ rest))
        ≡ a ∷ b ∷ c ∷ d ∷ e ∷ f ∷ g ∷ h ∷ [])
      × (read_uint64_be (a ∷ b ∷ c ∷ d ∷ e ∷ f ∷ g ∷ h ∷ rest) < 2 ^ 64)
be-read_uint64_be a b c d e f g h rest k =
    rw (read_uint64_be_lem a b c d e f g h rest k) (be-of_be _ k, of_be-lt _ k)
