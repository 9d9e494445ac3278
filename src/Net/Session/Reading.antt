-- ===== src/Net/Session/Reading.antt =====
-- The loop of `handleRead`.
use mathlib.Core.List.{Sublistᴰ}
use mathlib.Core.List.Sublistᴰ
use lite_im.Prelude.{
  ◌≡◌, refl, ap, sym, ◌∙◌, Bool, true, false, not, List, [], ◌∷◌, ◌++◌, append-nil, append_assoc,
  All, All-append, if_elim, arith,
}
use lite_im.Status.{is_ok}
use lite_im.Protocol.Bytes.{Bytes, bytes, AreBytes}
use lite_im.Protocol.Packet.{Packet}
use lite_im.Protocol.FrameDecoder.{feed}
use lite_im.Protocol.FrameDecoder.Streams.{feed-IsSettled}
use lite_im.Protocol.Packet.RoundTrip.{frame_bytes}
use lite_im.Protocol.FrameDecoder.Conservation.{IsFramed, stream, feed_conserves}
use lite_im.Net.Session.{
  Session, close_in_loop, Reaction, Io, returned, interrupted, again, failed, give, deliver,
  take_in, read_loop,
}
use lite_im.Net.Session.Keeps.{Keeps, react-Keeps}
use lite_im.Net.Session.Conserved.{
  IsPending, IsConserved, close_in_loop-IsConserved, appended-keeps, started-keeps,
}

-- Between two packets of one `feed`.
abbrev IsReading : List Packet → Session → Type 0
IsReading ps s = IsPending ps s × (s.has_fd ≡ true → s.closed ≡ false)

close_in_loop-IsReading :
    (ps : List Packet) (s : Session) → IsReading ps s → IsReading ps (close_in_loop s)
unfolding close_in_loop
close_in_loop-IsReading ps s h = if_elim (IsReading ps) s.closed (λ _. h) (λ _. (h.0, λ q. cc))

IsReading-Keeps : (ps : List Packet) → Keeps (IsReading ps)
IsReading-Keeps ps = record {
  at_close = close_in_loop-IsReading ps;
  at_start = started-keeps (IsReading ps) (λ s h. h);
  at_send = appended-keeps (IsReading ps) (close_in_loop-IsReading ps) (λ s b w a h. h);
  at_queue = λ s ts h. h;
  at_reset = λ s e h. h;
}

stream-append : (ps qs : List Packet) → stream (ps ++ qs) ≡ stream ps ++ stream qs
stream-append [] qs = refl
stream-append (p ∷ ps) qs =
    ap (λ (bs : Bytes). frame_bytes p ++ bs) (stream-append ps qs)
    ∙ sym (append_assoc (frame_bytes p) (stream ps) (stream qs))

Sublist-append :
    {A : Type 0} {xs ys : List A} (zs : List A) → Sublistᴰ xs ys → Sublistᴰ (xs ++ zs) (ys ++ zs)
Sublist-append zs Sublistᴰ.slnil = Sublistᴰ.refl zs
Sublist-append zs (Sublistᴰ.cons s) = Sublistᴰ.cons (Sublist-append zs s)
Sublist-append zs (Sublistᴰ.cons-cons e s) = Sublistᴰ.cons-cons e (Sublist-append zs s)

Sublist-before :
    {A : Type 0} {xs ys : List A} (zs : List A) → Sublistᴰ xs ys → Sublistᴰ xs (ys ++ zs)
Sublist-before zs Sublistᴰ.slnil = Sublistᴰ.nil-sublist zs
Sublist-before zs (Sublistᴰ.cons s) = Sublistᴰ.cons (Sublist-before zs s)
Sublist-before zs (Sublistᴰ.cons-cons e s) = Sublistᴰ.cons-cons e (Sublist-before zs s)

-- Where the session stops among the packets of one `feed`.
IsReading-IsConserved :
    (ps : List Packet) (s : Session) → IsReading ps s → s.closed ≡ true → IsConserved s
IsReading-IsConserved ps s (h, f) c = record {
  decoded = h.passed ++ ps;
  undecoded = s.decoder.buffer;
  conserved =
      ap (λ (bs : Bytes). bs ++ s.decoder.buffer) (stream-append h.passed ps)
      ∙ append_assoc (stream h.passed) (stream ps) s.decoder.buffer
      ∙ h.conserved;
  framed = All-append IsFramed h.passed ps h.framed h.framed_pending;
  in_order = Sublist-before ps h.in_order;
  from_start = λ t. (ps, ap (λ (qs : List Packet). qs ++ ps) (h.none_lost t));
  open_fd = f;
  while_open = λ q. cc;
}

read_all-IsConserved : (s : Session) → IsReading [] s → IsConserved s
read_all-IsConserved s (h, f) = record {
  decoded = h.passed;
  undecoded = s.decoder.buffer;
  conserved = h.conserved;
  framed = h.framed;
  in_order = h.in_order;
  from_start = λ t. ([], append-nil s.delivered ∙ h.none_lost t);
  open_fd = f;
  while_open = λ _. h;
}

-- The callback throws, and the packets that are left are lost.
thrown-IsReading :
    (ps : List Packet) (s : Session) → IsReading ps s → IsReading [] (record s { thrown = true })
thrown-IsReading ps s (h, f) = (
  record {
    passed = h.passed ++ ps;
    conserved =
        ap (λ (bs : Bytes). bs ++ s.decoder.buffer) (stream-append h.passed ps)
        ∙ append_assoc (stream h.passed) (stream ps) s.decoder.buffer
        ∙ h.conserved;
    no_error = h.no_error;
    framed = All-append IsFramed h.passed ps h.framed h.framed_pending;
    framed_pending = tt;
    are_bytes = h.are_bytes;
    in_order = Sublist-before ps h.in_order;
    none_lost = λ q. cc;
  },
  f,
)

-- A session that is open and closes now, with bytes that do not decode.
close_open-IsConserved :
    (s : Session) (decoded : List Packet) (undecoded : Bytes)
    → s.closed ≡ false
    → stream decoded ++ undecoded ≡ s.received
    → All IsFramed decoded
    → Sublistᴰ s.delivered decoded
    → (s.thrown ≡ false → s.delivered ≡ decoded)
    → IsConserved (close_in_loop s)
unfolding close_in_loop
close_open-IsConserved s decoded undecoded o c f i n =
    if_elim IsConserved s.closed (λ e. cc)
      (λ _. record {
        decoded = decoded;
        undecoded = undecoded;
        conserved = c;
        framed = f;
        in_order = i;
        from_start = λ t. ([], append-nil s.delivered ∙ n t);
        open_fd = λ q. cc;
        while_open = λ q. cc;
      })

-- One packet more is delivered.
delivered-IsReading :
    (p : Packet) (ps : List Packet) (s : Session)
    → IsReading (p ∷ ps) s
    → IsReading ps (record s { delivered = s.delivered ++ (p ∷ []) })
delivered-IsReading p ps s (h, f) = (
  record {
    passed = h.passed ++ (p ∷ []);
    conserved =
        ap (λ (bs : Bytes). bs ++ (stream ps ++ s.decoder.buffer))
          (stream-append h.passed (p ∷ [])
            ∙ ap (λ (bs : Bytes). stream h.passed ++ bs) (append-nil (frame_bytes p)))
        ∙ append_assoc (stream h.passed) (frame_bytes p) (stream ps ++ s.decoder.buffer)
        ∙ ap (λ (bs : Bytes). stream h.passed ++ bs)
            (sym (append_assoc (frame_bytes p) (stream ps) s.decoder.buffer))
        ∙ h.conserved;
    no_error = h.no_error;
    framed = All-append IsFramed h.passed (p ∷ []) h.framed (h.framed_pending.0, tt);
    framed_pending = h.framed_pending.1;
    are_bytes = h.are_bytes;
    in_order = Sublist-append (p ∷ []) h.in_order;
    none_lost = λ t. ap (λ (qs : List Packet). qs ++ (p ∷ [])) (h.none_lost t);
  },
  f,
)

All-suffix : (xs ys : Bytes) → AreBytes (xs ++ ys) → AreBytes ys
All-suffix [] ys a = a
All-suffix (x ∷ xs) ys a = All-suffix xs ys a.1

-- The bytes of a read join those that the decoder had.
fed-IsReading :
    (s : Session) (xs : Bytes)
    → IsPending [] s
    → AreBytes xs
    → is_ok (feed s.decoder (bytes xs)).status ≡ true
    → (s.has_fd ≡ true → s.closed ≡ false)
    → IsReading
        (feed s.decoder (bytes xs)).output
        (record s { received = s.received ++ xs; decoder = (feed s.decoder (bytes xs)).decoder })
fed-IsReading s xs h b e f =
    let buffered = All-suffix (stream h.passed) s.decoder.buffer (rw h.conserved h.are_bytes) in
    let (framed, all) =
      feed_conserves s.decoder xs h.no_error (All-append _ s.decoder.buffer xs buffered b) in
    (
      record {
        passed = h.passed;
        conserved =
            ap (λ (bs : Bytes). stream h.passed ++ bs) all
            ∙ sym (append_assoc (stream h.passed) s.decoder.buffer xs)
            ∙ ap (λ (bs : Bytes). bs ++ xs) h.conserved;
        no_error = (feed-IsSettled s.decoder xs h.no_error e).0.no_error;
        framed = h.framed;
        framed_pending = framed;
        are_bytes = All-append _ s.received xs h.are_bytes b;
        in_order = h.in_order;
        none_lost = h.none_lost;
      },
      f,
    )

module _ (message_callback : Session → Packet → List Reaction) where
  deliver-IsConserved :
      (ps : List Packet) (s : Session)
      → IsReading ps s
      → IsConserved (deliver message_callback ps s).0
  unfolding deliver
  deliver-IsConserved [] s h = read_all-IsConserved s h
  deliver-IsConserved (p ∷ ps) s h =
      let Q : Session × Bool → Type 0 = λ r. IsConserved r.0 in
      let given : Session = record s { delivered = s.delivered ++ (p ∷ []) } in
      let after = give message_callback p s in
      let kept =
        react-Keeps (IsReading ps) (IsReading-Keeps ps) (message_callback given p) given
          (delivered-IsReading p ps s h) in
      if_elim Q s.closed (λ c. IsReading-IsConserved (p ∷ ps) s h c)
        (λ _.
          if_elim Q after.1
            (λ _.
              read_all-IsConserved (record after.0 { thrown = true })
                (thrown-IsReading ps after.0 kept))
            (λ _. deliver-IsConserved ps after.0 kept))

  take_in-IsConserved :
      (s : Session) (xs : Bytes)
      → IsConserved s
      → s.closed ≡ false
      → AreBytes xs
      → IsConserved
          (take_in message_callback
            (record s { received = s.received ++ xs })
            (feed s.decoder (bytes xs))).0
  take_in-IsConserved s xs h o b =
      let Q : Session × Bool → Type 0 = λ r. IsConserved r.0 in
      let fed = feed s.decoder (bytes xs) in
      let now = h.while_open o in
      if_elim Q (not (is_ok fed.status))
        (λ _.
          close_open-IsConserved (record s { received = s.received ++ xs; decoder = fed.decoder })
            now.passed (s.decoder.buffer ++ xs) o
            (sym (append_assoc (stream now.passed) s.decoder.buffer xs)
              ∙ ap (λ (bs : Bytes). bs ++ xs) now.conserved)
            now.framed now.in_order now.none_lost)
        (λ e.
          deliver-IsConserved fed.output
            (record s { received = s.received ++ xs; decoder = fed.decoder })
            (fed-IsReading s xs now b (ground (arith, e)) h.open_fd))

  -- Bytes from `read`.
  abbrev pub AreRead : Io Bytes → Type 0
  AreRead (returned bs) = AreBytes bs
  AreRead interrupted = Unit {0}
  AreRead again = Unit {0}
  AreRead failed = Unit {0}

  pub read_loop-IsConserved :
      (rs : List (Io Bytes)) (s : Session)
      → All AreRead rs
      → IsConserved s
      → IsConserved (read_loop message_callback rs s)
  unfolding read_loop
  read_loop-IsConserved [] s a h = h
  read_loop-IsConserved (returned [] ∷ rs) s a h =
      if_elim IsConserved (not s.has_fd) (λ _. h) (λ _. close_in_loop-IsConserved s h)
  read_loop-IsConserved (returned (b ∷ bs) ∷ rs) s a h =
      if_elim IsConserved (not s.has_fd) (λ _. h)
        (λ e.
          let s' : Session = record s { received = s.received ++ (b ∷ bs) } in
          let step = take_in message_callback s' (feed s.decoder (bytes (b ∷ bs))) in
          let taken = take_in-IsConserved s (b ∷ bs) h (h.open_fd (ground (arith, e))) a.0 in
          if_elim IsConserved step.1 (λ _. read_loop-IsConserved rs step.0 a.1 taken) (λ _. taken))
  read_loop-IsConserved (interrupted ∷ rs) s a h = read_loop-IsConserved rs s a.1 h
  read_loop-IsConserved (again ∷ rs) s a h = h
  read_loop-IsConserved (failed ∷ rs) s a h =
      if_elim IsConserved (not s.has_fd) (λ _. h) (λ _. close_in_loop-IsConserved s h)
