-- ===== src/Net/Buffer.antt =====
-- include/liteim/net/Buffer.hpp and src/net/Buffer.cpp: the output buffer of a session, a vector with
-- a read and a write index.
pub mod Queue
pub mod Refinement
use lite_im.Prelude.{
  ℕ, ◌+◌, ◌-◌, Bool, not, [], ◌++◌, length, take, drop, replicate, ltb, leb, ◌==◌, if◌then◌else◌,
}
use lite_im.Status.{Status, success, error, invalid_argument}
use lite_im.Protocol.Bytes.{Bytes, Span, null, bytes}

pub record Buffer : Type 0 where
  pub storage : Bytes
  pub read_index : ℕ
  pub write_index : ℕ

unfoldable pub new_buffer : ℕ → Buffer
new_buffer initial_size = record {
  storage = replicate (if initial_size == 0 then 1 else initial_size) 0;
  read_index = 0;
  write_index = 0;
}

abbrev pub readable_bytes : Buffer → ℕ
readable_bytes b = b.write_index - b.read_index

abbrev pub writable_bytes : Buffer → ℕ
writable_bytes b = length b.storage - b.write_index

-- `peek()` and the `readableBytes()` bytes behind it.
abbrev pub peek : Buffer → Bytes
peek b = take (readable_bytes b) (drop b.read_index b.storage)

-- `std::move(begin + read, begin + write, begin)`, and the indices after it.
unfoldable pub move_to_front : Buffer → Buffer
move_to_front b = record {
  storage = peek b ++ drop (readable_bytes b) b.storage;
  read_index = 0;
  write_index = readable_bytes b;
}

-- `std::vector::resize` with zeros.
unfoldable pub resize : ℕ → Bytes → Bytes
resize n bs = if leb n (length bs) then take n bs else bs ++ replicate (n - length bs) 0

unfoldable pub ensure_writable_bytes : Buffer → ℕ → Buffer
ensure_writable_bytes b len =
    if leb len (writable_bytes b)
    then b
    else if leb len (b.read_index + writable_bytes b)
    then move_to_front b
    else let moved : Buffer = if not (b.read_index == 0) then move_to_front b else b in
      record moved { storage = resize (moved.write_index + len) moved.storage }

-- `std::memcpy` to an index.
unfoldable pub write_at : Bytes → ℕ → Bytes → Bytes
write_at storage i bs = take i storage ++ (bs ++ drop (i + length bs) storage)

unfoldable pub append : Buffer → Span → Buffer × Status
append b (null len) =
    if not (len == 0)
    then (b, error invalid_argument "buffer append input is null")
    else (b, success)
append b (bytes bs) =
    if length bs == 0
    then (b, success)
    else let roomy : Buffer = ensure_writable_bytes b (length bs) in
      (
        record roomy {
          storage = write_at roomy.storage roomy.write_index bs;
          write_index = roomy.write_index + length bs;
        },
        success,
      )

unfoldable pub retrieve_all : Buffer → Buffer
retrieve_all b = record b { read_index = 0; write_index = 0 }

unfoldable pub retrieve : Buffer → ℕ → Buffer × Status
unfolding retrieve_all
retrieve b len =
    if ltb (readable_bytes b) len
    then (b, error invalid_argument "buffer retrieve exceeds readable bytes")
    else if len == readable_bytes b
    then (retrieve_all b, success)
    else (record b { read_index = b.read_index + len }, success)

unfoldable pub retrieve_all_as_string : Buffer → Bytes × Buffer
unfolding retrieve_all
retrieve_all_as_string b = (peek b, retrieve_all b)
