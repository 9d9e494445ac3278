-- ===== src/Net/Session/Sound.antt =====
-- What holds of a session between two events, and that closing, starting and sending keep it.
use lite_im.Prelude.{
  ℕ, ◌+◌, ◌≤◌, ◌≡◌, refl, ap, sym, ◌∙◌, Bool, true, false, not, ◌||◌, [], ◌++◌, append-nil,
  append_assoc, length, length-append, ◌==◌, if◌then◌else◌, if_elim, arith,
}
use lite_im.Status.{Status}
use lite_im.Protocol.Bytes.{Bytes, bytes}
use lite_im.Net.Buffer.{Buffer, readable_bytes, peek, append, retrieve_all, new_buffer}
use lite_im.Net.Buffer.Queue
use lite_im.Net.Buffer.Queue.{length-peek, append-Holds}
use lite_im.Net.Session.{
  SessionState, Session, new_session, is_started, is_new, close_in_loop, start_in_loop,
  exceeds_mark, appended, send_encoded_in_loop,
}
use lite_im.Net.Session.Keeps.{Keeps}

pub record Sound (state : SessionState) (is_closed has_fd has_channel registered writing : Bool)
    (output : Buffer) (mark : ℕ) (accepted written : Bytes) (close_calls : ℕ) : Type 0 where
  pub valid : Queue.IsValid output
  pub lost : Bytes
  pub all_accepted : written ++ (peek output ++ lost) ≡ accepted
  pub nothing_lost : is_closed ≡ false → lost ≡ []
  pub nothing_pending : is_closed ≡ true → readable_bytes output ≡ 0
  pub bounded : readable_bytes output ≤ mark
  pub closed_once : close_calls ≡ (if is_closed then 1 else 0)
  pub fd_open : has_fd ≡ not is_closed
  pub has_its_channel : is_closed ≡ false → has_channel ≡ true
  pub wants_write : is_closed ≡ false → writing ≡ not (readable_bytes output == 0)
  pub open_if_started : is_started state ≡ true → is_closed ≡ false
  pub registered_lem : registered ≡ is_started state

abbrev pub IsSound : Session → Type 0
IsSound s =
    Sound s.state s.closed s.has_fd s.has_channel s.channel_registered s.writing s.output_buffer
      s.output_high_water_mark s.accepted s.written s.close_calls

pub new_session-IsSound : (mark : ℕ) → IsSound (new_session mark)
unfolding new_buffer
new_session-IsSound mark = record {
  valid = record { ordered = omega arith; inside = omega arith };
  lost = [];
  all_accepted = refl;
  nothing_lost = λ _. refl;
  nothing_pending = λ _. refl;
  bounded = omega arith;
  closed_once = refl;
  fd_open = refl;
  has_its_channel = λ _. refl;
  wants_write = λ _. refl;
  open_if_started = λ _. refl;
  registered_lem = refl;
}

-- It does not matter whether the session wants to write.
pub close_in_loop-IsSound_any :
    (s : Session) (w : Bool) → IsSound (record s { writing = w }) → IsSound (close_in_loop s)
unfolding close_in_loop retrieve_all
close_in_loop-IsSound_any s w h =
    if_elim IsSound s.closed
      (λ e. record {
        valid = h.valid;
        lost = h.lost;
        all_accepted = h.all_accepted;
        nothing_lost = h.nothing_lost;
        nothing_pending = h.nothing_pending;
        bounded = h.bounded;
        closed_once = h.closed_once;
        fd_open = h.fd_open;
        has_its_channel = h.has_its_channel;
        wants_write = λ q. cc;
        open_if_started = h.open_if_started;
        registered_lem = h.registered_lem;
      })
      (λ e. record {
        valid = record { ordered = omega arith; inside = omega arith };
        lost = peek s.output_buffer;
        all_accepted =
            ap (λ (bs : Bytes). s.written ++ bs)
              (sym (append-nil (peek s.output_buffer))
                ∙ ap (λ (bs : Bytes). peek s.output_buffer ++ bs) (sym (h.nothing_lost e)))
            ∙ h.all_accepted;
        nothing_lost = λ q. cc;
        nothing_pending = λ _. omega arith;
        bounded = omega arith;
        closed_once = let k = h.closed_once in ground (arith, k, e);
        fd_open = refl;
        has_its_channel = λ q. cc;
        wants_write = λ q. cc;
        open_if_started = λ q. cc;
        registered_lem = refl;
      })

pub close_in_loop-IsSound : (s : Session) → IsSound s → IsSound (close_in_loop s)
close_in_loop-IsSound s h = close_in_loop-IsSound_any s s.writing h

start_in_loop-IsSound : (s : Session) → IsSound s → IsSound (start_in_loop s)
unfolding start_in_loop
start_in_loop-IsSound s h =
    if_elim IsSound (not (is_new s.state) || s.closed) (λ _. h)
      (λ e. record {
        valid = h.valid;
        lost = h.lost;
        all_accepted = h.all_accepted;
        nothing_lost = h.nothing_lost;
        nothing_pending = h.nothing_pending;
        bounded = h.bounded;
        closed_once = h.closed_once;
        fd_open = h.fd_open;
        has_its_channel = h.has_its_channel;
        wants_write = h.wants_write;
        open_if_started = λ _. ground (arith, e);
        registered_lem = refl;
      })

-- An `append` below the mark.
appended-IsSound :
    (s : Session) (encoded : Bytes)
    → (length encoded == 0) ≡ false
    → s.closed ≡ false
    → exceeds_mark s encoded ≡ false
    → IsSound s
    → IsSound (appended s encoded (append s.output_buffer (bytes encoded))).0
appended-IsSound s encoded some_bytes open_ fits h =
    let (put, done) = append-Holds s.output_buffer encoded h.valid in
    let size = length-peek s.output_buffer h.valid in
    let size' = length-peek (append s.output_buffer (bytes encoded)).0 put.valid in
    let longer =
      ap (λ (bs : Bytes). length bs) put.content_lem
      ∙ length-append (peek s.output_buffer) encoded in
    let grown : readable_bytes (append s.output_buffer (bytes encoded)).0
        ≡ readable_bytes s.output_buffer + length encoded =
      omega (arith, size, size', longer) in
    let channel = h.has_its_channel open_ in
    rw (done) (record {
      valid = put.valid;
      lost = [];
      all_accepted =
          ap (λ (bs : Bytes). s.written ++ bs)
            (append-nil (peek (append s.output_buffer (bytes encoded)).0) ∙ put.content_lem)
          ∙ sym (append_assoc s.written (peek s.output_buffer) encoded)
          ∙ ap (λ (bs : Bytes). bs ++ encoded)
              (ap (λ (bs : Bytes). s.written ++ bs)
                  (sym (append-nil (peek s.output_buffer))
                    ∙ ap (λ (bs : Bytes). peek s.output_buffer ++ bs) (sym (h.nothing_lost open_)))
                ∙ h.all_accepted);
      nothing_lost = λ _. refl;
      nothing_pending = λ q. cc;
      bounded = ground (arith, fits, grown);
      closed_once = h.closed_once;
      fd_open = h.fd_open;
      has_its_channel = h.has_its_channel;
      wants_write = λ _. ground (arith, channel, grown, some_bytes);
      open_if_started = h.open_if_started;
      registered_lem = h.registered_lem;
    })

send_encoded_in_loop-IsSound :
    (s : Session) (encoded : Bytes) → IsSound s → IsSound (send_encoded_in_loop s encoded).0
unfolding send_encoded_in_loop
send_encoded_in_loop-IsSound s encoded h =
    let P : Session × Status → Type 0 = λ r. IsSound r.0 in
    if_elim P (not (is_started s.state) || s.closed || length encoded == 0) (λ _. h)
      (λ e.
        if_elim P (exceeds_mark s encoded) (λ _. close_in_loop-IsSound s h)
          (λ fits. appended-IsSound s encoded (ground (arith, e)) (ground (arith, e)) fits h))

reset_channel-IsSound :
    (s : Session) → s.closed ≡ true → IsSound s → IsSound (record s { has_channel = false })
reset_channel-IsSound s e h = record {
  valid = h.valid;
  lost = h.lost;
  all_accepted = h.all_accepted;
  nothing_lost = h.nothing_lost;
  nothing_pending = h.nothing_pending;
  bounded = h.bounded;
  closed_once = h.closed_once;
  fd_open = h.fd_open;
  has_its_channel = λ q. cc;
  wants_write = h.wants_write;
  open_if_started = h.open_if_started;
  registered_lem = h.registered_lem;
}

pub IsSound-Keeps : Keeps IsSound
IsSound-Keeps = record {
  at_close = close_in_loop-IsSound;
  at_start = start_in_loop-IsSound;
  at_send = send_encoded_in_loop-IsSound;
  at_queue = λ s ts h. h;
  at_reset = reset_channel-IsSound;
}
