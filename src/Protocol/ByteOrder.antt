-- ===== src/Protocol/ByteOrder.antt =====
-- include/liteim/protocol/ByteOrder.hpp. `static_cast<Byte>(x & 0xFF)` is `x % 256`, and a shift of a
-- w-bit word to the left is taken modulo 2 ^ w.
pub mod Values
pub mod Laws
pub mod RoundTrip
use Prim.Native.Nat.{bit_or}
use lite_im.Prelude.{ℕ, zero, suc, ◌+◌, ◌*◌, ◌/◌, ◌%◌, ◌^◌, List, [], ◌∷◌, ◌++◌, get_or}
use lite_im.Protocol.Bytes.{Bytes, push_back}

abbrev shr : ℕ → ℕ → ℕ
shr x k = x / 2 ^ k

-- `x << k` on a word of `w` bits.
abbrev shl : ℕ → ℕ → ℕ → ℕ
shl w x k = x * 2 ^ k % 2 ^ w

abbrev low_byte : ℕ → ℕ
low_byte x = x % 256

unfoldable pub append_uint16_be : Bytes → ℕ → Bytes
append_uint16_be output value =
    push_back (push_back output (low_byte (shr value 8))) (low_byte value)

unfoldable pub append_uint32_be : Bytes → ℕ → Bytes
append_uint32_be output value =
    push_back
      (push_back (push_back (push_back output (low_byte (shr value 24))) (low_byte (shr value 16)))
        (low_byte (shr value 8)))
      (low_byte value)

-- `for (shift = 56; shift >= 0; shift -= 8)`: with `suc n` rounds left the shift is 8 * n.
append_uint64_loop : ℕ → Bytes → ℕ → Bytes
append_uint64_loop zero output value = output
append_uint64_loop (suc n) output value =
    append_uint64_loop n (push_back output (low_byte (shr value (8 * n)))) value

unfoldable pub append_uint64_be : Bytes → ℕ → Bytes
unfolding append_uint64_loop
append_uint64_be output value = append_uint64_loop 8 output value

-- The readers index from `data`; every caller has checked that the bytes are there, and a byte that
-- is not reads as 0 here.
abbrev at : Bytes → ℕ → ℕ
at data' i = get_or data' i 0

unfoldable pub read_uint16_be : Bytes → ℕ
read_uint16_be data' = bit_or (shl 32 (at data' 0) 8) (at data' 1) % 2 ^ 16

unfoldable pub read_uint32_be : Bytes → ℕ
read_uint32_be data' =
    bit_or
      (bit_or (bit_or (shl 32 (at data' 0) 24) (shl 32 (at data' 1) 16)) (shl 32 (at data' 2) 8))
      (at data' 3)

-- `for (index = 0; index < 8; ++index)`, with `n` rounds left.
read_uint64_loop : ℕ → ℕ → Bytes → ℕ → ℕ
read_uint64_loop zero index data' value = value
read_uint64_loop (suc n) index data' value =
    read_uint64_loop n (index + 1) data' (bit_or (shl 64 value 8) (at data' index))

unfoldable pub read_uint64_be : Bytes → ℕ
unfolding read_uint64_loop
read_uint64_be data' = read_uint64_loop 8 0 data' 0
