-- ===== src/Net/Session/Input.antt =====
-- What a session receives: the packets that its message callback gets.
use mathlib.Core.List.{Sublistᴰ}
use lite_im.Prelude.{ℕ, refl, Bool, false, not, ◌&&◌, ◌||◌, List, [], ◌∷◌, All, ◌==◌, if_elim}
use lite_im.Status.{is_ok}
use lite_im.Protocol.Packet.{Packet}
use lite_im.Net.Session.{
  Session, new_session, is_started, Reaction, Io, returned, interrupted, again, failed, handle_read,
  rest_writing, taken, write_loop, handle_write, Event, starts, closes, sends, readable, writable,
  channel_fails, runs_task, step, run,
}
use lite_im.Net.Buffer.{retrieve, readable_bytes}
use lite_im.Net.Session.Keeps.{close-Keeps, start-Keeps, send_packet-Keeps, run_first-Keeps}
use lite_im.Net.Session.Conserved.{IsConserved, close_in_loop-IsConserved, IsConserved-Keeps}
use lite_im.Net.Session.Reading.{AreRead, read_loop-IsConserved}

-- The loop of `handleWrite` leaves alone what was received.
rest_writing-IsConserved : (s : Session) → IsConserved s → IsConserved (rest_writing s)
rest_writing-IsConserved s h =
    if_elim IsConserved (readable_bytes s.output_buffer == 0 && s.has_channel && s.writing)
      {x = record s { writing = false }} {y = s} (λ _. h) (λ _. h)

taken-IsConserved :
    (s : Session) (n : ℕ) → IsConserved s → IsConserved (taken s n (retrieve s.output_buffer n)).0
taken-IsConserved s n h =
    let Q : Session × Bool → Type 0 = λ r. IsConserved r.0 in
    if_elim Q (is_ok (retrieve s.output_buffer n).1) (λ _. h) (λ _. close_in_loop-IsConserved s h)

write_loop-IsConserved :
    (rs : List (Io ℕ)) (s : Session) → IsConserved s → IsConserved (write_loop rs s)
unfolding write_loop
write_loop-IsConserved [] s h = rest_writing-IsConserved s h
write_loop-IsConserved (returned n ∷ rs) s h =
    let step = taken s n (retrieve s.output_buffer n) in
    if_elim IsConserved (readable_bytes s.output_buffer == 0 || n == 0)
      (λ _. rest_writing-IsConserved s h)
      (λ _.
        if_elim IsConserved step.1 (λ _. write_loop-IsConserved rs step.0 (taken-IsConserved s n h))
          (λ _. taken-IsConserved s n h))
write_loop-IsConserved (interrupted ∷ rs) s h =
    if_elim IsConserved (readable_bytes s.output_buffer == 0) (λ _. rest_writing-IsConserved s h)
      (λ _. write_loop-IsConserved rs s h)
write_loop-IsConserved (again ∷ rs) s h = rest_writing-IsConserved s h
write_loop-IsConserved (failed ∷ rs) s h =
    if_elim IsConserved (readable_bytes s.output_buffer == 0) (λ _. rest_writing-IsConserved s h)
      (λ _. close_in_loop-IsConserved s h)

handle_write-IsConserved :
    (rs : List (Io ℕ)) (s : Session) → IsConserved s → IsConserved (handle_write rs s)
unfolding handle_write
handle_write-IsConserved rs s h =
    if_elim IsConserved (not (is_started s.state) || s.closed || not s.has_fd) (λ _. h)
      (λ _. write_loop-IsConserved rs s h)

module _ (message_callback : Session → Packet → List Reaction) where
  -- An event whose reads give bytes.
  abbrev pub IsByteEvent : Event → Type 0
  IsByteEvent (readable rs) = All (AreRead message_callback) rs
  IsByteEvent (starts in_loop) = Unit {0}
  IsByteEvent (closes in_loop) = Unit {0}
  IsByteEvent (sends in_loop p) = Unit {0}
  IsByteEvent (writable rs) = Unit {0}
  IsByteEvent channel_fails = Unit {0}
  IsByteEvent runs_task = Unit {0}

  step-IsConserved :
      (s : Session) (e : Event)
      → IsByteEvent e
      → IsConserved s
      → IsConserved (step message_callback s e)
  unfolding step handle_read
  step-IsConserved s (starts in_loop) b h = start-Keeps IsConserved IsConserved-Keeps in_loop s h
  step-IsConserved s (closes in_loop) b h = close-Keeps IsConserved IsConserved-Keeps in_loop s h
  step-IsConserved s (sends in_loop p) b h =
      send_packet-Keeps IsConserved IsConserved-Keeps in_loop s p h
  step-IsConserved s (readable rs) b h =
      if_elim IsConserved (not (is_started s.state) || s.closed || not s.has_fd) (λ _. h)
        (λ _. read_loop-IsConserved message_callback rs s b h)
  step-IsConserved s (writable rs) b h = handle_write-IsConserved rs s h
  step-IsConserved s channel_fails b h =
      if_elim IsConserved s.channel_registered (λ _. close_in_loop-IsConserved s h) (λ _. h)
  step-IsConserved s runs_task b h = run_first-Keeps IsConserved IsConserved-Keeps s.tasks s h

  run-IsConserved_from :
      (s : Session) (es : List Event)
      → All IsByteEvent es
      → IsConserved s
      → IsConserved (run message_callback s es)
  unfolding run
  run-IsConserved_from s [] b h = h
  run-IsConserved_from s (e ∷ es) b h =
      run-IsConserved_from (step message_callback s e) es b.1 (step-IsConserved s e b.0 h)

  -- Whatever happens to a session, in any order, and whatever its message callback does, which may throw: what
  -- was received are the frames, in order, of well-formed packets, and then bytes that are not decoded; the
  -- packets that the callback got are among these packets, in this order and none twice, and as long as no
  -- callback has thrown they are the first of them. While the session is open, the bytes not decoded are those
  -- that the decoder still holds, and as long as no callback has thrown the callback got every packet.
  pub run-IsConserved :
      (mark : ℕ) (es : List Event)
      → All IsByteEvent es
      → IsConserved (run message_callback (new_session mark) es)
  run-IsConserved mark es b = run-IsConserved_from (new_session mark) es b (record {
    decoded = [];
    undecoded = [];
    conserved = refl;
    framed = tt;
    in_order = Sublistᴰ.slnil;
    from_start = λ _. ([], refl);
    open_fd = λ _. refl;
    while_open = λ _. record {
      passed = [];
      conserved = refl;
      no_error = refl;
      framed = tt;
      framed_pending = tt;
      are_bytes = tt;
      in_order = Sublistᴰ.slnil;
      none_lost = λ _. refl;
    };
  })
