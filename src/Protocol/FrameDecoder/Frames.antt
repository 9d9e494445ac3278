-- ===== src/Protocol/FrameDecoder/Frames.antt =====
-- Frames in a byte stream, without buffers and indices: what the decoder is to compute.
use lite_im.Prelude.{
  ℕ, zero, suc, ◌+◌, ◌≤◌, ◌≡◌, refl, ap, ◌∙◌, ◌⊎◌, inl, inr, List, [], ◌∷◌, ◌++◌, arith, length,
  length-append, length-drop, take, drop, take-append, drop-append, ltb, if◌then◌else◌,
}
use lite_im.Status.{Status, success, Result, ok, err}
use lite_im.Protocol.Bytes.{Bytes, bytes}
use lite_im.Protocol.Packet.{PacketHeader, Packet, parse_header}

-- The front of a stream: no whole frame yet, a header that is refused, or a packet and what follows.
pub data Front : Type 0 where
  need_more : Front
  bad_header : Status → Front
  frame : Packet → Bytes → Front

unfoldable pub frame_or_wait : Bytes → PacketHeader → Front
frame_or_wait bs h =
    if ltb (length bs) (20 + h.body_len)
    then need_more
    else frame (record { header = h; body = take h.body_len (drop 20 bs) })
        (drop (20 + h.body_len) bs)

unfoldable pub of_parsed : Bytes → Result PacketHeader → Front
of_parsed bs (err s) = bad_header s
of_parsed bs (ok h) = frame_or_wait bs h

unfoldable pub next_frame : Bytes → Front
next_frame bs =
    if ltb (length bs) 20 then need_more else of_parsed bs (parse_header (bytes (take 20 bs)))

-- All the frames at the front of a stream, what is left behind them, and the status.
pub record Decoded : Type 0 where
  pub packets : List Packet
  pub rest : Bytes
  pub status : Status

abbrev pub prepend : List Packet → Decoded → Decoded
prepend ps d = record d { packets = ps ++ d.packets }

decode_front : Front → Bytes → (Bytes → Decoded) → Decoded
decode_front need_more bs next = record { packets = []; rest = bs; status = success }
decode_front (bad_header s) bs next = record { packets = []; rest = bs; status = s }
decode_front (frame p rest) bs next = prepend (p ∷ []) (next rest)

decode_loop : ℕ → Bytes → Decoded
unfolding decode_front
decode_loop zero bs = record { packets = []; rest = bs; status = success }
decode_loop (suc fuel) bs = decode_front (next_frame bs) bs (decode_loop fuel)

unfoldable pub decode : Bytes → Decoded
unfolding decode_loop
decode bs = decode_loop (length bs) bs

pub Front-cases :
    (f : Front)
    → (f ≡ need_more)
      ⊎ ((s : Status) × (f ≡ bad_header s))
      ⊎ ((p : Packet) × (rest : Bytes) × (f ≡ frame p rest))
Front-cases need_more = inl refl
Front-cases (bad_header s) = inr (inl (s, refl))
Front-cases (frame p rest) = inr (inr (p, rest, refl))

-- What the front of a stream says about its bytes.
pub record IsFrame (bs : Bytes) (p : Packet) (rest : Bytes) : Type 0 where
  pub parsed : parse_header (bytes (take 20 bs)) ≡ ok p.header
  pub whole : 20 + p.header.body_len ≤ length bs
  pub body_lem : p.body ≡ take p.header.body_len (drop 20 bs)
  pub rest_lem : rest ≡ drop (20 + p.header.body_len) bs

pub record IsBad (bs : Bytes) (s : Status) : Type 0 where
  pub long : 20 ≤ length bs
  pub refused : parse_header (bytes (take 20 bs)) ≡ err s

pub frame-IsFrame :
    (bs : Bytes) (p : Packet) (rest : Bytes) → next_frame bs ≡ frame p rest → IsFrame bs p rest
unfolding next_frame of_parsed frame_or_wait
frame-IsFrame bs p rest e = ground arith

pub IsFrame-frame :
    (bs : Bytes) (p : Packet) (rest : Bytes) → IsFrame bs p rest → next_frame bs ≡ frame p rest
unfolding next_frame of_parsed frame_or_wait
IsFrame-frame bs p rest v = ground arith

pub bad_header-IsBad : (bs : Bytes) (s : Status) → next_frame bs ≡ bad_header s → IsBad bs s
unfolding next_frame of_parsed frame_or_wait
bad_header-IsBad bs s e = ground arith

pub IsBad-bad_header : (bs : Bytes) (s : Status) → IsBad bs s → next_frame bs ≡ bad_header s
unfolding next_frame of_parsed frame_or_wait
IsBad-bad_header bs s v = ground arith

-- More bytes behind a frame or a refused header change neither.
pub next_frame-append_frame :
    (bs more : Bytes) (p : Packet) (rest : Bytes)
    → next_frame bs ≡ frame p rest
    → next_frame (bs ++ more) ≡ frame p (rest ++ more)
next_frame-append_frame bs more p rest e =
    let v = frame-IsFrame bs p rest e in
    let n : ℕ = p.header.body_len in
    let long : 20 ≤ length bs = omega (arith, v.whole) in
    let inside : n ≤ length (drop 20 bs) = omega (arith, v.whole, length-drop 20 bs) in
    IsFrame-frame (bs ++ more) p (rest ++ more) (record {
      parsed = rw (take-append 20 bs more long) v.parsed;
      whole = omega (arith, v.whole, length-append bs more);
      body_lem =
          rw (drop-append 20 bs more long, take-append n (drop 20 bs) more inside) v.body_lem;
      rest_lem =
          rw (drop-append (20 + n) bs more v.whole) (ap (λ (xs : Bytes). xs ++ more) v.rest_lem);
    })

pub next_frame-append_bad :
    (bs more : Bytes) (s : Status)
    → next_frame bs ≡ bad_header s
    → next_frame (bs ++ more) ≡ bad_header s
next_frame-append_bad bs more s e =
    let v = bad_header-IsBad bs s e in
    IsBad-bad_header (bs ++ more) s (record {
      long = omega (arith, v.long, length-append bs more);
      refused = rw (take-append 20 bs more v.long) v.refused;
    })

-- A frame takes the bytes of a header at least.
pub frame_shrinks :
    (bs : Bytes) (p : Packet) (rest : Bytes)
    → next_frame bs ≡ frame p rest
    → length rest + 20 ≤ length bs
frame_shrinks bs p rest e =
    let v = frame-IsFrame bs p rest e in
    let n : ℕ = p.header.body_len in
    omega (arith, v.whole, ap length v.rest_lem, length-drop (20 + n) bs)

decode_loop_fuel :
    (f g : ℕ) (bs : Bytes) → length bs ≤ f → length bs ≤ g → decode_loop f bs ≡ decode_loop g bs
unfolding decode_loop
decode_loop_fuel zero zero bs p q = refl
decode_loop_fuel zero (suc g) [] p q = unfold next_frame in refl
decode_loop_fuel zero (suc g) (b ∷ bs) p q = absurd (omega arith)
decode_loop_fuel (suc f) zero [] p q = unfold next_frame in refl
decode_loop_fuel (suc f) zero (b ∷ bs) p q = absurd (omega arith)
decode_loop_fuel (suc f) (suc g) bs p q = elim (Front-cases (next_frame bs)) [
  | inl e ↦ rw e
  | inr (inl (s, e)) ↦ rw e
  | inr (inr (pk, rest, e)) ↦ rw e (
      ap (prepend (pk ∷ [])) (
        decode_loop_fuel f g rest (omega (arith, frame_shrinks bs pk rest e))
          (omega (arith, frame_shrinks bs pk rest e))))
]

-- `decode` by the front of the stream.
decode_lem : (bs : Bytes) → decode bs ≡ decode_front (next_frame bs) bs decode
unfolding decode
decode_lem [] = unfold next_frame in refl
decode_lem (b ∷ bs) = elim (Front-cases (next_frame (b ∷ bs))) [
  | inl e ↦ rw e
  | inr (inl (s, e)) ↦ rw e
  | inr (inr (p, rest, e)) ↦ rw e (
      ap (prepend (p ∷ [])) (
        decode_loop_fuel (length bs) (length rest) rest
          (omega (arith, frame_shrinks (b ∷ bs) p rest e)) (omega arith)))
]

pub decode_wait :
    (bs : Bytes)
    → next_frame bs ≡ need_more
    → decode bs ≡ record { packets = []; rest = bs; status = success }
unfolding decode_front
decode_wait bs e = decode_lem bs ∙ rw e

pub decode_bad :
    (bs : Bytes) (s : Status)
    → next_frame bs ≡ bad_header s
    → decode bs ≡ record { packets = []; rest = bs; status = s }
unfolding decode_front
decode_bad bs s e = decode_lem bs ∙ rw e

pub decode_frame :
    (bs : Bytes) (p : Packet) (rest : Bytes)
    → next_frame bs ≡ frame p rest
    → decode bs ≡ prepend (p ∷ []) (decode rest)
unfolding decode_front
decode_frame bs p rest e = decode_lem bs ∙ rw e
