-- ===== src/Protocol/Bytes.antt =====
-- include/liteim/base/Types.hpp, and the pointer and length in which a caller hands bytes over.
use lite_im.Prelude.{ℕ, ◌<◌, List, [], ◌∷◌, ◌++◌, All}

-- A byte is a number below 256.
abbrev pub Bytes : Type 0
Bytes = List ℕ

abbrev pub IsByte : ℕ → Type 0
IsByte b = b < 256

abbrev pub AreBytes : Bytes → Type 0
AreBytes bs = All IsByte bs

-- `const Byte* data, std::size_t len`: a null pointer with some length, or `len` bytes.
pub data Span : Type 0 where
  null : ℕ → Span
  bytes : Bytes → Span

abbrev pub push_back : Bytes → ℕ → Bytes
push_back output b = output ++ (b ∷ [])
