-- ===== src/Protocol/FrameDecoder.antt =====
-- include/liteim/protocol/FrameDecoder.hpp and src/protocol/FrameDecoder.cpp: the incremental decoder
-- that cuts a TCP byte stream into packets.
pub mod Frames
pub mod Refinement
pub mod Streams
pub mod Chunks
pub mod Conservation
use lite_im.Prelude.{
  ℕ, zero, suc, ◌+◌, ◌-◌, Bool, true, false, List, [], ◌∷◌, ◌++◌, length, take, drop, ltb, ◌==◌,
  not, if◌then◌else◌,
}
use lite_im.Status.{Status, success, error, invalid_argument, parse_error, is_ok, Result, ok, err}
use lite_im.Protocol.Bytes.{Bytes, Span, null, bytes}
use lite_im.Protocol.Packet.{PacketHeader, Packet, parse_header, packet_header_size}

pub record FrameDecoder : Type 0 where
  pub buffer : Bytes
  pub in_error : Bool

abbrev pub new_decoder : FrameDecoder
new_decoder = record { buffer = []; in_error = false }

-- `compact_consumed`: drop the consumed front of the buffer.
unfoldable pub compact_consumed : ℕ → Bytes → Bytes
compact_consumed consumed buffer =
    if consumed == 0 then buffer else if consumed == length buffer then [] else drop consumed buffer

-- How the loop of `feed` ends: the read index, the packets pushed so far, and the parse error, if any.
pub record LoopEnd : Type 0 where
  pub read_index : ℕ
  pub output : List Packet
  pub status : Status

-- `header.body_len` bytes behind the header that starts at `read_index`.
abbrev body_at : Bytes → ℕ → PacketHeader → Bytes
body_at buffer read_index header =
    take header.body_len (drop (read_index + packet_header_size) buffer)

-- The loop, with rounds as fuel: a round consumes a header at least, so one round more than the
-- buffer has bytes is enough, and with that many the loop ends by its own test.
unfoldable pub feed_loop : ℕ → Bytes → ℕ → List Packet → LoopEnd
feed_loop zero buffer read_index output = record {
  read_index = read_index;
  output = output;
  status = success;
}
feed_loop (suc fuel) buffer read_index output =
    if ltb (length buffer - read_index) packet_header_size
    then record { read_index = read_index; output = output; status = success }
    else elim (parse_header (bytes (take packet_header_size (drop read_index buffer)))) [
      | err status ↦ record { read_index = read_index; output = output; status = status }
      | ok header ↦
          let frame_size : ℕ = packet_header_size + header.body_len in
          let packet : Packet = record {
            header = header;
            body = body_at buffer read_index header;
          } in
          let rest = feed_loop fuel buffer (read_index + frame_size) (output ++ (packet ∷ [])) in
          if ltb (length buffer - read_index) frame_size
          then record { read_index = read_index; output = output; status = success }
          else rest
    ]

-- The decoder, the output vector (cleared first) and the status after `feed`.
pub record Fed : Type 0 where
  pub decoder : FrameDecoder
  pub output : List Packet
  pub status : Status

-- The tail of `feed`, once the input stands in the buffer.
abbrev pub after_loop : Bytes → LoopEnd → Fed
after_loop buffer end = record {
  decoder = record {
    buffer = compact_consumed end.read_index buffer;
    in_error = not (is_ok end.status);
  };
  output = end.output;
  status = end.status;
}

unfoldable pub feed_bytes : FrameDecoder → Bytes → Fed
feed_bytes d data' =
    let buffer : Bytes = if not (length data' == 0) then d.buffer ++ data' else d.buffer in
    after_loop buffer (feed_loop (suc (length buffer)) buffer 0 [])

unfoldable pub feed : FrameDecoder → Span → Fed
unfolding feed_bytes
feed d (null len) =
    if d.in_error
    then record {
      decoder = d;
      output = [];
      status = error parse_error "frame decoder is in error state";
    }
    else if not (len == 0)
    then record {
      decoder = d;
      output = [];
      status = error invalid_argument "frame decoder input is null";
    }
    else feed_bytes d []
feed d (bytes data') =
    if d.in_error
    then record {
      decoder = d;
      output = [];
      status = error parse_error "frame decoder is in error state";
    }
    else feed_bytes d data'

unfoldable pub buffered_bytes : FrameDecoder → ℕ
buffered_bytes d = length d.buffer

unfoldable pub reset : FrameDecoder → FrameDecoder
reset d = record { buffer = []; in_error = false }
