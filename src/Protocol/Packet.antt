-- ===== src/Protocol/Packet.antt =====
-- include/liteim/protocol/Packet.hpp and src/protocol/Packet.cpp. A field holds a number of the width
-- that PacketHeader declares; `msg_type` holds the value of the enumerator, since a cast from the wire
-- can give any 16-bit value.
pub mod Header
pub mod RoundTrip
use lite_im.Prelude.{
  ℕ, ◌+◌, ◌*◌, ◌%◌, ◌^◌, Bool, not, List, [], ◌∷◌, ◌++◌, length, take, drop, get_or, ltb, ◌==◌,
  if◌then◌else◌,
}
use lite_im.Status.{
  Status, success, error, invalid_argument, parse_error, is_ok, Result, ok, err, check,
}
use lite_im.Protocol.Bytes.{Bytes, Span, null, bytes, push_back}
use lite_im.Protocol.ByteOrder.{
  append_uint16_be, append_uint32_be, append_uint64_be, read_uint16_be, read_uint32_be,
  read_uint64_be,
}

abbrev pub packet_magic : ℕ
packet_magic = 0x4C494D31

abbrev pub packet_version : ℕ
packet_version = 1

abbrev pub packet_flags_none : ℕ
packet_flags_none = 0

abbrev pub packet_header_size : ℕ
packet_header_size = 20

abbrev pub max_packet_body_length : ℕ
max_packet_body_length = 1024 * 1024

pub record PacketHeader : Type 0 where
  pub magic : ℕ
  pub version : ℕ
  pub flags : ℕ
  pub msg_type : ℕ
  pub seq_id : ℕ
  pub body_len : ℕ

pub record Packet : Type 0 where
  pub header : PacketHeader
  pub body : Bytes

-- The member initialisers of PacketHeader.
abbrev pub default_header : PacketHeader
default_header = record {
  magic = packet_magic;
  version = packet_version;
  flags = packet_flags_none;
  msg_type = 0;
  seq_id = 0;
  body_len = 0;
}

unfoldable pub validate_header : PacketHeader → Status
validate_header header =
    if not (header.magic == packet_magic)
    then error parse_error "invalid packet magic"
    else if not (header.version == packet_version)
    then error parse_error "unsupported packet version"
    else if not (header.flags == packet_flags_none)
    then error parse_error "unsupported packet flags"
    else if ltb max_packet_body_length header.body_len
    then error parse_error "packet body is too large"
    else success

-- The 20 bytes that `encodePacket` puts in front of the body, appended to an output.
unfoldable pub append_header : Bytes → PacketHeader → Bytes
append_header output header =
    append_uint32_be
      (append_uint64_be
        (append_uint16_be
          (push_back (push_back (append_uint32_be output header.magic) header.version) header.flags)
          header.msg_type)
        header.seq_id)
      header.body_len

-- The output that the caller is left with, and the status: `output.clear()` comes first.
unfoldable pub encode_packet : Packet → Bytes × Status
encode_packet packet =
    if ltb max_packet_body_length (length packet.body)
    then ([], error invalid_argument "packet body is too large")
    else let header : PacketHeader = record (packet.header) {
      body_len = length packet.body % 2 ^ 32;
    } in
      let status : Status = validate_header header in
      if not (is_ok status) then ([], status) else (append_header [] header ++ packet.body, success)

-- The fields of a header, read at their offsets.
unfoldable pub read_header : Bytes → PacketHeader
read_header data' = record {
  magic = read_uint32_be data';
  version = get_or data' 4 0;
  flags = get_or data' 5 0;
  msg_type = read_uint16_be (drop 6 data');
  seq_id = read_uint64_be (drop 8 data');
  body_len = read_uint32_be (drop 16 data');
}

unfoldable pub parse_header : Span → Result PacketHeader
parse_header (null len) = err (error invalid_argument "packet header data is null")
parse_header (bytes data') =
    if ltb (length data') packet_header_size
    then err (error parse_error "packet header is incomplete")
    else let header : PacketHeader = read_header data' in check (validate_header header) header
