-- ===== src/Net/Session/Tests.antt =====
-- A run of one session, and the theorems at it.
use lite_im.Prelude.{◌≡◌, refl, true, false, List, [], ◌∷◌, ◌++◌, take, drop, All, arith}
use lite_im.Protocol.Bytes.{Bytes}
use lite_im.Protocol.Packet.{Packet, default_header}
use lite_im.Net.Session.{
  Session, Reaction, Io, returned, interrupted, again, failed, Event, run, new_session,
}
use lite_im.Net.Session.Sound.{IsSound}
use lite_im.Net.Session.Output.{run-IsSound}
use lite_im.Net.Session.Conserved.{IsConserved}
use lite_im.Net.Session.Input.{IsByteEvent, run-IsConserved}

-- A heartbeat, its frame, and a callback that sends it back.
abbrev ping : Packet
ping = record { header = record default_header { msg_type = 1; seq_id = 7 }; body = [] }

abbrev ping_frame : Bytes
ping_frame =
    0x4c ∷ 0x49 ∷ 0x4d ∷ 0x31 ∷ 1 ∷ 0 ∷ 0 ∷ 1 ∷ 0 ∷ 0 ∷ 0 ∷ 0 ∷ 0 ∷ 0 ∷ 0 ∷ 7 ∷ 0 ∷ 0 ∷ 0 ∷ 0 ∷ []

abbrev echo : Session → Packet → List Reaction
echo s p = Reaction.sends p ∷ []

-- The frame comes in two reads, and is written back in two writes, the second of which is cut by a close.
abbrev arrival : List Event
arrival =
    Event.starts true
    ∷ Event.readable
        (returned (take 12 ping_frame) ∷ interrupted ∷ returned (drop 12 ping_frame) ∷ again ∷ [])
    ∷ Event.writable (returned 5 ∷ again ∷ [])
    ∷ []

abbrev busy : List Event
busy =
    arrival ++ (Event.closes false ∷ Event.sends true ping ∷ Event.runs_task ∷ Event.runs_task ∷ [])

abbrev after_arrival : Session
after_arrival = run echo (new_session 64) arrival

echoed : (after_arrival.delivered ≡ ping ∷ []) × (after_arrival.written ≡ take 5 ping_frame)
unfolding run lite_im.Net.Session.step lite_im.Net.Session.handle_write
    lite_im.Net.Session.handle_read lite_im.Net.Session.start lite_im.Net.Session.start_in_loop
    lite_im.Net.Session.read_loop lite_im.Protocol.FrameDecoder.feed
    lite_im.Protocol.FrameDecoder.feed_loop lite_im.Net.Session.deliver
    lite_im.Protocol.FrameDecoder.compact_consumed lite_im.Protocol.Packet.parse_header
    lite_im.Protocol.Packet.validate_header lite_im.Protocol.Packet.read_header
    lite_im.Protocol.ByteOrder.read_uint32_be lite_im.Net.Session.react
    lite_im.Net.Session.send_packet lite_im.Net.Buffer.append
    lite_im.Net.Buffer.ensure_writable_bytes lite_im.Net.Buffer.move_to_front
    lite_im.Net.Buffer.resize lite_im.Net.Buffer.retrieve lite_im.Net.Buffer.retrieve_all
    lite_im.Net.Buffer.write_at lite_im.Net.Session.close lite_im.Net.Session.close_in_loop
    lite_im.Net.Session.send_encoded_in_loop lite_im.Net.Session.write_loop
    lite_im.Protocol.ByteOrder.append_uint16_be lite_im.Protocol.ByteOrder.append_uint32_be
    lite_im.Protocol.ByteOrder.append_uint64_be lite_im.Protocol.ByteOrder.read_uint16_be
    lite_im.Protocol.ByteOrder.read_uint64_be lite_im.Protocol.FrameDecoder.feed_bytes
    lite_im.Protocol.Packet.append_header lite_im.Protocol.Packet.encode_packet
    lite_im.Net.Buffer.new_buffer
echoed = (refl, refl)

-- A callback that throws, with two frames in one read and one in the next: the second frame is lost, what is in
-- the socket waits for the next event, and the session stays open.
abbrev throwing : Session → Packet → List Reaction
throwing s p = Reaction.sends p ∷ Reaction.throws ∷ Reaction.closes ∷ []

abbrev after_throw : Session
after_throw = run throwing (new_session 64) (
    Event.starts true
    ∷ Event.readable (returned (ping_frame ++ ping_frame) ∷ returned ping_frame ∷ [])
    ∷ [])

lost_by_throw :
    (after_throw.delivered ≡ ping ∷ [])
    × (after_throw.received ≡ ping_frame ++ ping_frame)
    × (after_throw.closed ≡ false)
    × (after_throw.thrown ≡ true)
unfolding run lite_im.Net.Session.step lite_im.Net.Session.handle_write
    lite_im.Net.Session.handle_read lite_im.Net.Session.start lite_im.Net.Session.start_in_loop
    lite_im.Net.Session.read_loop lite_im.Protocol.FrameDecoder.feed
    lite_im.Protocol.FrameDecoder.feed_loop lite_im.Net.Session.deliver
    lite_im.Protocol.FrameDecoder.compact_consumed lite_im.Protocol.Packet.parse_header
    lite_im.Protocol.Packet.validate_header lite_im.Protocol.Packet.read_header
    lite_im.Protocol.ByteOrder.read_uint32_be lite_im.Net.Session.react
    lite_im.Net.Session.send_packet lite_im.Net.Buffer.append
    lite_im.Net.Buffer.ensure_writable_bytes lite_im.Net.Buffer.move_to_front
    lite_im.Net.Buffer.resize lite_im.Net.Buffer.retrieve lite_im.Net.Buffer.retrieve_all
    lite_im.Net.Buffer.write_at lite_im.Net.Session.close lite_im.Net.Session.close_in_loop
    lite_im.Net.Session.send_encoded_in_loop lite_im.Net.Session.write_loop
    lite_im.Protocol.ByteOrder.append_uint16_be lite_im.Protocol.ByteOrder.append_uint32_be
    lite_im.Protocol.ByteOrder.append_uint64_be lite_im.Protocol.ByteOrder.read_uint16_be
    lite_im.Protocol.ByteOrder.read_uint64_be lite_im.Protocol.FrameDecoder.feed_bytes
    lite_im.Protocol.Packet.append_header lite_im.Protocol.Packet.encode_packet
    lite_im.Net.Buffer.new_buffer
lost_by_throw = (refl, refl, refl, refl)

run-IsSound_example : IsSound (run echo (new_session 64) busy)
run-IsSound_example = run-IsSound echo 64 busy

busy-IsByteEvent : All (IsByteEvent echo) busy
busy-IsByteEvent = omega arith

run-IsConserved_example : IsConserved (run echo (new_session 64) busy)
run-IsConserved_example = run-IsConserved echo 64 busy busy-IsByteEvent
