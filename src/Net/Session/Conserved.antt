-- ===== src/Net/Session/Conserved.antt =====
-- Bytes received against packets delivered: what is kept between two events.
use mathlib.Core.List.{Sublistᴰ}
use lite_im.Prelude.{
  ◌≡◌, Bool, true, false, not, ◌||◌, List, [], ◌++◌, All, length, ◌==◌, if◌then◌else◌, if_elim,
}
use lite_im.Status.{Status, is_ok}
use lite_im.Protocol.Bytes.{Bytes, bytes, AreBytes}
use lite_im.Protocol.Packet.{Packet}
use lite_im.Protocol.FrameDecoder.{FrameDecoder}
use lite_im.Protocol.FrameDecoder.Conservation.{IsFramed, stream}
use lite_im.Net.Session.{
  SessionState, Session, is_started, is_new, close_in_loop, start_in_loop, exceeds_mark,
  send_encoded_in_loop,
}
use lite_im.Net.Buffer.{Buffer, append}
use lite_im.Net.Session.Keeps.{Keeps}

-- With packets `ps` that are decoded, and not yet given to the callback, after `passed`.
pub record Pending (decoder : FrameDecoder) (received : Bytes) (delivered : List Packet)
    (thrown : Bool) (ps : List Packet) : Type 0 where
  pub passed : List Packet
  pub conserved : stream passed ++ (stream ps ++ decoder.buffer) ≡ received
  pub no_error : decoder.in_error ≡ false
  pub framed : All IsFramed passed
  pub framed_pending : All IsFramed ps
  pub are_bytes : AreBytes received
  pub in_order : Sublistᴰ delivered passed
  pub none_lost : thrown ≡ false → delivered ≡ passed

abbrev pub IsPending : List Packet → Session → Type 0
IsPending ps s = Pending s.decoder s.received s.delivered s.thrown ps

-- `decoded` are the packets that the bytes received begin with.
pub record Intake (is_closed has_fd : Bool) (decoder : FrameDecoder) (received : Bytes)
    (delivered : List Packet) (thrown : Bool) : Type 0 where
  pub decoded : List Packet
  pub undecoded : Bytes
  pub conserved : stream decoded ++ undecoded ≡ received
  pub framed : All IsFramed decoded
  pub in_order : Sublistᴰ delivered decoded
  pub from_start : thrown ≡ false → (lost : List Packet) × (delivered ++ lost ≡ decoded)
  pub open_fd : has_fd ≡ true → is_closed ≡ false
  pub while_open : is_closed ≡ false → Pending decoder received delivered thrown []

abbrev pub IsConserved : Session → Type 0
IsConserved s = Intake s.closed s.has_fd s.decoder s.received s.delivered s.thrown

-- A close keeps what was delivered.
pub close_in_loop-IsConserved : (s : Session) → IsConserved s → IsConserved (close_in_loop s)
unfolding close_in_loop
close_in_loop-IsConserved s h =
    if_elim IsConserved s.closed (λ _. h)
      (λ _. record {
        decoded = h.decoded;
        undecoded = h.undecoded;
        conserved = h.conserved;
        framed = h.framed;
        in_order = h.in_order;
        from_start = h.from_start;
        open_fd = λ q. cc;
        while_open = λ q. cc;
      })

close_in_loop-IsPending :
    (ps : List Packet) (s : Session) → IsPending ps s → IsPending ps (close_in_loop s)
unfolding close_in_loop
close_in_loop-IsPending ps s h = if_elim (IsPending ps) s.closed (λ _. h) (λ _. h)

module _ (P : Session → Type 0) where
  -- A predicate that a close keeps, and that says nothing of the output.
  pub appended-keeps :
      ((s : Session) → P s → P (close_in_loop s))
      → ((s : Session) (b : Buffer) (w : Bool) (a : Bytes)
          → P s
          → P (record s { output_buffer = b; writing = w; accepted = a }))
      → (s : Session) (encoded : Bytes) → P s
      → P (send_encoded_in_loop s encoded).0
  unfolding send_encoded_in_loop
  appended-keeps close change s encoded h =
      let Q : Session × Status → Type 0 = λ r. P r.0 in
      let put = append s.output_buffer (bytes encoded) in
      if_elim Q (not (is_started s.state) || s.closed || length encoded == 0) (λ _. h)
        (λ _.
          if_elim Q (exceeds_mark s encoded) (λ _. close s h)
            (λ _.
              if_elim Q (not (is_ok put.1)) (λ _. close s h)
                (λ _.
                  change s put.0 (if s.has_channel then true else s.writing) (s.accepted ++ encoded)
                    h)))

  pub started-keeps :
      ((s : Session)
        → P s
        → P (record s { channel_registered = true; state = SessionState.started }))
      → (s : Session) → P s
      → P (start_in_loop s)
  unfolding start_in_loop
  started-keeps change s h = if_elim P (not (is_new s.state) || s.closed) (λ _. h) (λ _. change s h)

pub IsConserved-Keeps : Keeps IsConserved
IsConserved-Keeps = record {
  at_close = close_in_loop-IsConserved;
  at_start = started-keeps IsConserved (λ s h. h);
  at_send = appended-keeps IsConserved close_in_loop-IsConserved (λ s b w a h. h);
  at_queue = λ s ts h. h;
  at_reset = λ s e h. h;
}
