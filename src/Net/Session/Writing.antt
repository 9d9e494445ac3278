-- ===== src/Net/Session/Writing.antt =====
-- The loop of `handleWrite`.
use lite_im.Prelude.{
  ℕ, ◌≡◌, refl, ap, sym, ◌∙◌, true, false, not, ◌&&◌, ◌||◌, List, [], ◌∷◌, ◌++◌, append_assoc, take,
  drop, take-append-drop, ◌==◌, if_elim, Bool-cases, inl, inr, arith,
}
use lite_im.Status.{is_ok}
use lite_im.Protocol.Bytes.{Bytes}
use lite_im.Net.Buffer.{readable_bytes, peek, retrieve}
use lite_im.Net.Buffer.Refinement.{retrieve_ok}
use lite_im.Net.Session.{
  Session, is_started, Io, returned, interrupted, again, failed, rest_writing, taken, write_loop,
  handle_write,
}
use lite_im.Net.Session.Sound.{IsSound, close_in_loop-IsSound_any}

-- Within the loop of `handleWrite`: the wish to write is given up at its end only.
abbrev calm : Session → Session
calm s = record s { writing = not (readable_bytes s.output_buffer == 0) }

record Loops (s : Session) : Type 0 where
  pub sound : IsSound (calm s)
  pub wants : s.closed ≡ false → s.writing ≡ false → readable_bytes s.output_buffer ≡ 0

IsSound-Loops : (s : Session) → IsSound s → Loops s
IsSound-Loops s h = record {
  sound = record {
    valid = h.valid;
    lost = h.lost;
    all_accepted = h.all_accepted;
    nothing_lost = h.nothing_lost;
    nothing_pending = h.nothing_pending;
    bounded = h.bounded;
    closed_once = h.closed_once;
    fd_open = h.fd_open;
    has_its_channel = h.has_its_channel;
    wants_write = λ _. refl;
    open_if_started = h.open_if_started;
    registered_lem = h.registered_lem;
  };
  wants = λ e q. let k = h.wants_write e in ground (arith, k, q);
}

rest_writing-IsSound : (s : Session) → Loops s → IsSound (rest_writing s)
rest_writing-IsSound s l =
    let h = l.sound in
    if_elim IsSound (readable_bytes s.output_buffer == 0 && s.has_channel && s.writing)
      (λ e. record {
        valid = h.valid;
        lost = h.lost;
        all_accepted = h.all_accepted;
        nothing_lost = h.nothing_lost;
        nothing_pending = h.nothing_pending;
        bounded = h.bounded;
        closed_once = h.closed_once;
        fd_open = h.fd_open;
        has_its_channel = h.has_its_channel;
        wants_write = λ _. ground (arith, e);
        open_if_started = h.open_if_started;
        registered_lem = h.registered_lem;
      })
      (λ e. record {
        valid = h.valid;
        lost = h.lost;
        all_accepted = h.all_accepted;
        nothing_lost = h.nothing_lost;
        nothing_pending = h.nothing_pending;
        bounded = h.bounded;
        closed_once = h.closed_once;
        fd_open = h.fd_open;
        has_its_channel = h.has_its_channel;
        wants_write =
            λ q. let c = h.has_its_channel q in let w = l.wants q in ground (arith, e, c, w);
        open_if_started = h.open_if_started;
        registered_lem = h.registered_lem;
      })

-- The bytes that were written leave the buffer in front.
taken-Loops :
    (s : Session) (n : ℕ)
    → Loops s
    → (readable_bytes s.output_buffer == 0) ≡ false
    → s.closed ≡ false
    → (taken s n (retrieve s.output_buffer n)).1 ≡ true
    → Loops (taken s n (retrieve s.output_buffer n)).0
      × ((taken s n (retrieve s.output_buffer n)).0.closed ≡ false)
taken-Loops s n l more open_ e = elim (Bool-cases (is_ok (retrieve s.output_buffer n).1)) [
  | inl done ↦
      let h = l.sound in
      let (valid, content, size) = retrieve_ok s.output_buffer n h.valid done in
      rw (done) (
        record {
          sound = record {
            valid = valid;
            lost = h.lost;
            all_accepted =
                append_assoc s.written (take n (peek s.output_buffer))
                  (peek (retrieve s.output_buffer n).0 ++ h.lost)
                ∙ ap (λ (bs : Bytes). s.written ++ bs)
                    (ap (λ (bs : Bytes). take n (peek s.output_buffer) ++ (bs ++ h.lost)) content
                      ∙ sym (
                          append_assoc (take n (peek s.output_buffer))
                            (drop n (peek s.output_buffer)) h.lost)
                      ∙ ap (λ (bs : Bytes). bs ++ h.lost)
                          (take-append-drop n (peek s.output_buffer)))
                ∙ h.all_accepted;
            nothing_lost = h.nothing_lost;
            nothing_pending = λ q. cc;
            bounded = omega (arith, h.bounded, size);
            closed_once = h.closed_once;
            fd_open = h.fd_open;
            has_its_channel = h.has_its_channel;
            wants_write = λ _. refl;
            open_if_started = h.open_if_started;
            registered_lem = h.registered_lem;
          };
          wants = λ q k. let w = l.wants q k in absurd (ground (arith, w, more));
        },
        open_,
      )
  | inr refused ↦ absurd (let k : false ≡ true = rw (refused) at e in cc)
]

-- A `retrieve` that is refused closes the session.
taken-IsSound :
    (s : Session) (n : ℕ)
    → Loops s
    → (taken s n (retrieve s.output_buffer n)).1 ≡ false
    → IsSound (taken s n (retrieve s.output_buffer n)).0
taken-IsSound s n l e = elim (Bool-cases (is_ok (retrieve s.output_buffer n).1)) [
  | inl done ↦ absurd (let k : true ≡ false = rw (done) at e in cc)
  | inr refused ↦
      rw (refused) (close_in_loop-IsSound_any s (not (readable_bytes s.output_buffer == 0)) l.sound)
]

write_loop-IsSound :
    (rs : List (Io ℕ)) (s : Session) → s.closed ≡ false → Loops s → IsSound (write_loop rs s)
unfolding write_loop
write_loop-IsSound [] s o l = rest_writing-IsSound s l
write_loop-IsSound (returned n ∷ rs) s o l =
    let step = taken s n (retrieve s.output_buffer n) in
    if_elim IsSound (readable_bytes s.output_buffer == 0 || n == 0) (λ _. rest_writing-IsSound s l)
      (λ e.
        if_elim IsSound step.1
          (λ on.
            let (l', o') = taken-Loops s n l (ground (arith, e)) o on in
            write_loop-IsSound rs step.0 o' l')
          (λ off. taken-IsSound s n l off))
write_loop-IsSound (interrupted ∷ rs) s o l =
    if_elim IsSound (readable_bytes s.output_buffer == 0) (λ _. rest_writing-IsSound s l)
      (λ _. write_loop-IsSound rs s o l)
write_loop-IsSound (again ∷ rs) s o l = rest_writing-IsSound s l
write_loop-IsSound (failed ∷ rs) s o l =
    if_elim IsSound (readable_bytes s.output_buffer == 0) (λ _. rest_writing-IsSound s l)
      (λ _. close_in_loop-IsSound_any s (not (readable_bytes s.output_buffer == 0)) l.sound)

pub handle_write-IsSound :
    (rs : List (Io ℕ)) (s : Session) → IsSound s → IsSound (handle_write rs s)
unfolding handle_write
handle_write-IsSound rs s h =
    if_elim IsSound (not (is_started s.state) || s.closed || not s.has_fd) (λ _. h)
      (λ e. write_loop-IsSound rs s (ground (arith, e)) (IsSound-Loops s h))
