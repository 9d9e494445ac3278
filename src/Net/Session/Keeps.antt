-- ===== src/Net/Session/Keeps.antt =====
-- What the calls of a session keep, if closing, starting and sending in the loop's thread do.
use lite_im.Prelude.{◌≡◌, Bool, true, false, not, List, [], ◌∷◌, ltb, length, if_elim}
use lite_im.Status.{Status, is_ok}
use lite_im.Protocol.Bytes.{Bytes}
use lite_im.Protocol.Packet.{Packet, encode_packet}
use lite_im.Net.Session.{
  Task, start_task, close_task, send_task, reset_channel_task, Session, close_in_loop,
  start_in_loop, send_encoded_in_loop, close, start, send_encoded, send_packet, Reaction, sends,
  closes, throws, react, run_task, run_first,
}

pub record Keeps (P : Session → Type 0) : Type 0 where
  pub at_close : (s : Session) → P s → P (close_in_loop s)
  pub at_start : (s : Session) → P s → P (start_in_loop s)
  pub at_send : (s : Session) (encoded : Bytes) → P s → P (send_encoded_in_loop s encoded).0
  pub at_queue : (s : Session) (ts : List Task) → P s → P (record s { tasks = ts })
  pub at_reset : (s : Session) → s.closed ≡ true → P s → P (record s { has_channel = false })

module _ (P : Session → Type 0) (k : Keeps P) where
  pub close-Keeps : (in_loop : Bool) (s : Session) → P s → P (close in_loop s)
  unfolding close
  close-Keeps true s h = k.at_close s h
  close-Keeps false s h = k.at_queue s _ h

  pub start-Keeps : (in_loop : Bool) (s : Session) → P s → P (start in_loop s)
  unfolding start
  start-Keeps true s h = k.at_start s h
  start-Keeps false s h = k.at_queue s _ h

  send_encoded-Keeps :
      (in_loop : Bool) (s : Session) (r : Bytes × Status) → P s → P (send_encoded in_loop s r).0
  send_encoded-Keeps in_loop s (encoded, status) h =
      let Q : Session × Status → Type 0 = λ r. P r.0 in
      if_elim Q (not (is_ok status)) (λ _. h)
        (λ _.
          if_elim Q (ltb s.output_high_water_mark (length encoded)) (λ _. close-Keeps in_loop s h)
            (λ _. if_elim Q in_loop (λ _. k.at_send s encoded h) (λ _. k.at_queue s _ h)))

  pub send_packet-Keeps :
      (in_loop : Bool) (s : Session) (p : Packet) → P s → P (send_packet in_loop s p).0
  unfolding send_packet
  send_packet-Keeps in_loop s p h =
      let Q : Session × Status → Type 0 = λ r. P r.0 in
      if_elim Q s.closed (λ _. h) (λ _. send_encoded-Keeps in_loop s (encode_packet p) h)

  pub react-Keeps : (rs : List Reaction) (s : Session) → P s → P (react rs s).0
  unfolding react
  react-Keeps [] s h = h
  react-Keeps (sends p ∷ rs) s h =
      react-Keeps rs (send_packet true s p).0 (send_packet-Keeps true s p h)
  react-Keeps (closes ∷ rs) s h = react-Keeps rs (close true s) (close-Keeps true s h)
  react-Keeps (throws ∷ rs) s h = h

  run_task-Keeps : (t : Task) (s : Session) → P s → P (run_task t s)
  run_task-Keeps start_task s h = k.at_start s h
  run_task-Keeps close_task s h = k.at_close s h
  run_task-Keeps (send_task encoded) s h = k.at_send s encoded h
  run_task-Keeps reset_channel_task s h = if_elim P s.closed (λ e. k.at_reset s e h) (λ _. h)

  pub run_first-Keeps : (ts : List Task) (s : Session) → P s → P (run_first ts s)
  run_first-Keeps [] s h = h
  run_first-Keeps (t ∷ ts) s h = run_task-Keeps t (record s { tasks = ts }) (k.at_queue s ts h)
