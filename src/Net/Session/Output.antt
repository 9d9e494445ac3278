-- ===== src/Net/Session/Output.antt =====
-- What a session sends: the bytes that it accepted, in order, up to its close.
use lite_im.Prelude.{ℕ, Bool, not, ◌||◌, List, [], ◌∷◌, ◌++◌, if_elim}
use lite_im.Status.{is_ok}
use lite_im.Protocol.Bytes.{Bytes, bytes}
use lite_im.Protocol.Packet.{Packet}
use lite_im.Protocol.FrameDecoder.{Fed, feed}
use lite_im.Net.Session.{
  Session, new_session, is_started, Reaction, sends, closes, Io, returned, interrupted, again,
  failed, give, deliver, take_in, read_loop, handle_read, Event, starts, readable, writable,
  channel_fails, runs_task, step, run,
}
use lite_im.Net.Session.Keeps.{
  close-Keeps, start-Keeps, send_packet-Keeps, react-Keeps, run_first-Keeps,
}
use lite_im.Net.Session.Sound.{IsSound, IsSound-Keeps, close_in_loop-IsSound, new_session-IsSound}
use lite_im.Net.Session.Writing.{handle_write-IsSound}

module _ (message_callback : Session → Packet → List Reaction) where
  deliver-IsSound :
      (ps : List Packet) (s : Session) → IsSound s → IsSound (deliver message_callback ps s).0
  unfolding deliver
  deliver-IsSound [] s h = h
  deliver-IsSound (p ∷ ps) s h =
      let Q : Session × Bool → Type 0 = λ r. IsSound r.0 in
      let given : Session = record s { delivered = s.delivered ++ (p ∷ []) } in
      let kept = react-Keeps IsSound IsSound-Keeps (message_callback given p) given h in
      if_elim Q s.closed (λ _. h)
        (λ _.
          if_elim Q (give message_callback p s).1 (λ _. kept)
            (λ _. deliver-IsSound ps (give message_callback p s).0 kept))

  take_in-IsSound :
      (s : Session) (fed : Fed) → IsSound s → IsSound (take_in message_callback s fed).0
  take_in-IsSound s fed h =
      let Q : Session × Bool → Type 0 = λ r. IsSound r.0 in
      if_elim Q (not (is_ok fed.status))
        (λ _. close_in_loop-IsSound (record s { decoder = fed.decoder }) h)
        (λ _. deliver-IsSound fed.output (record s { decoder = fed.decoder }) h)

  read_loop-IsSound :
      (rs : List (Io Bytes)) (s : Session) → IsSound s → IsSound (read_loop message_callback rs s)
  unfolding read_loop
  read_loop-IsSound [] s h = h
  read_loop-IsSound (returned [] ∷ rs) s h =
      if_elim IsSound (not s.has_fd) (λ _. h) (λ _. close_in_loop-IsSound s h)
  read_loop-IsSound (returned (b ∷ bs) ∷ rs) s h =
      if_elim IsSound (not s.has_fd) (λ _. h)
        (λ _.
          let s' : Session = record s { received = s.received ++ (b ∷ bs) } in
          let fed = feed s.decoder (bytes (b ∷ bs)) in
          let step = take_in message_callback s' fed in
          if_elim IsSound step.1 (λ _. read_loop-IsSound rs step.0 (take_in-IsSound s' fed h))
            (λ _. take_in-IsSound s' fed h))
  read_loop-IsSound (interrupted ∷ rs) s h = read_loop-IsSound rs s h
  read_loop-IsSound (again ∷ rs) s h = h
  read_loop-IsSound (failed ∷ rs) s h =
      if_elim IsSound (not s.has_fd) (λ _. h) (λ _. close_in_loop-IsSound s h)

  handle_read-IsSound :
      (rs : List (Io Bytes)) (s : Session) → IsSound s → IsSound (handle_read message_callback rs s)
  unfolding handle_read
  handle_read-IsSound rs s h =
      if_elim IsSound (not (is_started s.state) || s.closed || not s.has_fd) (λ _. h)
        (λ _. read_loop-IsSound rs s h)

step-IsSound :
    (callback : Session → Packet → List Reaction) (s : Session) (e : Event)
    → IsSound s
    → IsSound (step callback s e)
unfolding step
step-IsSound callback s (starts in_loop) h = start-Keeps IsSound IsSound-Keeps in_loop s h
step-IsSound callback s (closes in_loop) h = close-Keeps IsSound IsSound-Keeps in_loop s h
step-IsSound callback s (sends in_loop p) h = send_packet-Keeps IsSound IsSound-Keeps in_loop s p h
step-IsSound callback s (readable rs) h = handle_read-IsSound callback rs s h
step-IsSound callback s (writable rs) h = handle_write-IsSound rs s h
step-IsSound callback s channel_fails h =
    if_elim IsSound s.channel_registered (λ _. close_in_loop-IsSound s h) (λ _. h)
step-IsSound callback s runs_task h = run_first-Keeps IsSound IsSound-Keeps s.tasks s h

run-IsSound_from :
    (callback : Session → Packet → List Reaction) (s : Session) (es : List Event)
    → IsSound s
    → IsSound (run callback s es)
unfolding run
run-IsSound_from callback s [] h = h
run-IsSound_from callback s (e ∷ es) h =
    run-IsSound_from callback (step callback s e) es (step-IsSound callback s e h)

-- Whatever happens to a session, in any order, from any thread and with any message callback: the bytes that
-- it accepted are, in order, those that were written, those that are pending and those that a close threw
-- away; while it is open none are thrown away, it has its channel, and it wants to write exactly when bytes
-- are pending; no more are pending than the mark allows, and none once it is closed; the close callback was
-- called once if the session is closed and else never, and the descriptor is given back exactly then.
pub run-IsSound :
    (callback : Session → Packet → List Reaction) (mark : ℕ) (es : List Event)
    → IsSound (run callback (new_session mark) es)
run-IsSound callback mark es =
    run-IsSound_from callback (new_session mark) es (new_session-IsSound mark)
