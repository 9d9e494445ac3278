-- ===== src/Protocol/Tests.antt =====
-- Runs of the protocol on concrete packets, and the theorems at these inputs.
use mathlib.Core.List.{flatten}
use lite_im.Prelude.{◌+◌, ◌<◌, ◌≡◌, refl, ◌↔◌, true, List, [], ◌∷◌, ◌++◌, arith, take, drop, All}
use lite_im.Status.{success, error, is_ok, ok, err, parse_error}
use lite_im.Protocol.Bytes.{Bytes, bytes}
use lite_im.Protocol.ByteOrder.{append_uint64_be, read_uint16_be, read_uint32_be, read_uint64_be}
use lite_im.Protocol.ByteOrder.RoundTrip.{read_uint64_be-append_uint64_be}
use lite_im.Protocol.Packet.{
  PacketHeader, Packet, default_header, encode_packet, parse_header, packet_header_size,
  max_packet_body_length,
}
use lite_im.Protocol.Packet.Header.{FitsWords}
use lite_im.Protocol.Packet.RoundTrip.{IsEncodable, framed, frame_bytes, parse_header-encode_packet}
use lite_im.Protocol.FrameDecoder.{FrameDecoder, Fed, new_decoder, feed, buffered_bytes}
use lite_im.Protocol.FrameDecoder.Frames.{decode}
use lite_im.Protocol.FrameDecoder.Refinement.{fed, feed-decode}
use lite_im.Protocol.FrameDecoder.Streams.{IsSettled, new_decoder-IsSettled, feed-IsSettled}
use lite_im.Protocol.FrameDecoder.Chunks.{SameOutcome, feed_chunks, feed_chunks-flatten}
use lite_im.Protocol.FrameDecoder.Conservation.{
  IsFramed, stream, feed_conserves, feed_chunks-stream,
}
use lite_im.Protocol.TlvCodec.{parse_tlv_map, get_string, get_uint64, get_repeated_uint64}
use lite_im.Protocol.TlvCodec.Records.{TlvRecord, Fits, body_bytes, group}
use lite_im.Protocol.TlvCodec.Sound.{parse_tlv_map_iff}
use lite_im.Protocol.TlvCodec.Getters.{
  getters-body_bytes, append_numbers, get_repeated_uint64-append_numbers,
}

-- A heartbeat with no body, and a request with a body of one record: USER_ID = 5.
abbrev ping : Packet
ping = record { header = record default_header { msg_type = 1; seq_id = 7 }; body = [] }

abbrev user_five : Bytes
user_five = 0 ∷ 3 ∷ 0 ∷ 0 ∷ 0 ∷ 8 ∷ 0 ∷ 0 ∷ 0 ∷ 0 ∷ 0 ∷ 0 ∷ 0 ∷ 5 ∷ []

abbrev lookup : Packet
lookup = record { header = record default_header { msg_type = 202; seq_id = 8 }; body = user_five }

abbrev magic_bytes : Bytes
magic_bytes = 0x4c ∷ 0x49 ∷ 0x4d ∷ 0x31 ∷ []

abbrev ping_frame : Bytes
ping_frame = magic_bytes ++ (1 ∷ 0 ∷ 0 ∷ 1 ∷ 0 ∷ 0 ∷ 0 ∷ 0 ∷ 0 ∷ 0 ∷ 0 ∷ 7 ∷ 0 ∷ 0 ∷ 0 ∷ 0 ∷ [])

ping-encoded : (encode_packet ping).0 ≡ ping_frame
unfolding encode_packet lite_im.Protocol.Packet.validate_header
    lite_im.Protocol.Packet.append_header lite_im.Protocol.ByteOrder.append_uint32_be
    lite_im.Protocol.ByteOrder.append_uint16_be append_uint64_be
ping-encoded = refl

read_back : read_uint32_be magic_bytes ≡ 0x4C494D31
unfolding read_uint32_be
read_back = refl

ping-IsEncodable : IsEncodable ping
ping-IsEncodable = omega arith

lookup-IsEncodable : IsEncodable lookup
lookup-IsEncodable = omega arith

ping-FitsWords : FitsWords ping.header
ping-FitsWords = omega arith

lookup-FitsWords : FitsWords lookup.header
lookup-FitsWords = omega arith

-- Two bytes, then the rest of the frame.
abbrev two_chunks : List Bytes
two_chunks = take 2 ping_frame ∷ drop 2 ping_frame ∷ []

feed_chunks-flatten_example :
    SameOutcome (feed_chunks new_decoder two_chunks) (feed new_decoder (bytes ping_frame))
unfolding flatten
feed_chunks-flatten_example = feed_chunks-flatten new_decoder two_chunks new_decoder-IsSettled

feed_chunks-stream_example :
    feed_chunks new_decoder (frame_bytes ping ∷ frame_bytes lookup ∷ [])
    ≡ record { decoder = new_decoder; output = framed ping ∷ framed lookup ∷ []; status = success }
unfolding flatten
feed_chunks-stream_example =
    feed_chunks-stream (ping ∷ lookup ∷ []) (frame_bytes ping ∷ frame_bytes lookup ∷ [])
      ((ping-IsEncodable, ping-FitsWords), ((lookup-IsEncodable, lookup-FitsWords), tt)) refl

feed_conserves_example :
    All IsFramed (feed new_decoder (bytes ping_frame)).output
    × (stream (feed new_decoder (bytes ping_frame)).output
          ++ (feed new_decoder (bytes ping_frame)).decoder.buffer
        ≡ ping_frame)
feed_conserves_example = feed_conserves new_decoder ping_frame refl (omega arith)

feed-decode_example : feed new_decoder (bytes ping_frame) ≡ fed (decode ping_frame)
feed-decode_example = feed-decode new_decoder ping_frame refl

feed-IsSettled_example :
    IsSettled (feed new_decoder (bytes [])).decoder
    × (buffered_bytes (feed new_decoder (bytes [])).decoder
        < packet_header_size + max_packet_body_length)
feed-IsSettled_example =
    feed-IsSettled new_decoder [] (refl)
      (unfold feed lite_im.Protocol.FrameDecoder.feed_loop in refl)

parse_header-encode_packet_example :
    (parse_header (bytes (encode_packet lookup).0) ≡ ok (framed lookup).header)
    × (drop packet_header_size (encode_packet lookup).0 ≡ user_five)
parse_header-encode_packet_example =
    parse_header-encode_packet lookup lookup-IsEncodable lookup-FitsWords

ping_parsed : parse_header (bytes ping_frame) ≡ ok ping.header
unfolding parse_header lite_im.Protocol.Packet.validate_header lite_im.Protocol.Packet.read_header
    read_uint64_be read_uint32_be read_uint16_be
ping_parsed = refl

parse_tlv_map_iff_example : (is_ok (parse_tlv_map (bytes user_five)).1 ≡ true) ↔ (
    (rs : List TlvRecord) × All Fits rs
    × (body_bytes rs ≡ user_five)
    × ((parse_tlv_map (bytes user_five)).0 ≡ group [] rs))
parse_tlv_map_iff_example = parse_tlv_map_iff user_five (omega arith)

-- USERNAME = "hi", OFFSET = 9, USERNAME = "x".
abbrev three_records : List TlvRecord
three_records =
    record { type = 1; value = b'h' ∷ b'i' ∷ [] }
    ∷ record { type = 47; value = 0 ∷ 0 ∷ 0 ∷ 0 ∷ 0 ∷ 0 ∷ 0 ∷ 9 ∷ [] }
    ∷ record { type = 1; value = b'x' ∷ [] }
    ∷ []

getters-body_bytes_example :
    let m = (parse_tlv_map (bytes (body_bytes three_records))).0 in
    (get_string m 1 ≡ ok (b'h' ∷ b'i' ∷ []))
    × (get_uint64 m 1 ≡ err (error parse_error "uint64 tlv field must be 8 bytes"))
getters-body_bytes_example = getters-body_bytes three_records 1 (omega arith)

get_repeated_uint64-append_numbers_example :
    get_repeated_uint64 (parse_tlv_map (bytes (append_numbers 20 (5 ∷ 300 ∷ []) []))).0 20
    ≡ (5 ∷ 300 ∷ [], success)
get_repeated_uint64-append_numbers_example =
    get_repeated_uint64-append_numbers 20 5 (300 ∷ []) (omega arith) (omega arith) (omega arith)

abbrev letter : Bytes
letter = b'h' ∷ []

read_uint64_be-append_uint64_be_example :
    read_uint64_be (append_uint64_be [] 0x0102030405060708 ++ (9 ∷ [])) ≡ 0x0102030405060708
read_uint64_be-append_uint64_be_example =
    read_uint64_be-append_uint64_be 0x0102030405060708 (9 ∷ []) (omega arith)
