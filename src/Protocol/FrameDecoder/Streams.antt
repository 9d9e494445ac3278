-- ===== src/Protocol/FrameDecoder/Streams.antt =====
-- Feeding a stream in pieces, as `Session` does with what each `read` returns.
use lite_im.Prelude.{
  ℕ, zero, suc, ◌+◌, ◌≤◌, ◌<◌, ◌≡◌, refl, ◌∙◌, inl, inr, true, false, List, [], ◌∷◌, ◌++◌, arith,
  length, take, if◌then◌else◌, Bool-cases,
}
use lite_im.Status.{Status, success, is_ok, ok, err, Result-cases}
use lite_im.Protocol.Bytes.{Bytes, bytes}
use lite_im.Protocol.Packet.{
  PacketHeader, Packet, parse_header, validate_header, read_header, packet_header_size,
  max_packet_body_length,
}
use lite_im.Protocol.Packet.Header.{IsValid-validate_header}
use lite_im.Protocol.FrameDecoder.{FrameDecoder, feed, new_decoder, buffered_bytes}
use lite_im.Protocol.FrameDecoder.Frames.{
  need_more, bad_header, next_frame, of_parsed, frame_or_wait, Front-cases, Decoded, decode,
  prepend, decode_wait, decode_bad, decode_frame, frame_shrinks, bad_header-IsBad,
  next_frame-append_frame, next_frame-append_bad,
}
use lite_im.Protocol.FrameDecoder.Refinement.{fed, feed-decode}

parse_header-error : (bs : Bytes) (s : Status) → parse_header (bytes bs) ≡ err s → is_ok s ≡ false
unfolding parse_header
parse_header-error bs s e = ground arith

bad_header-error : (bs : Bytes) (s : Status) → next_frame bs ≡ bad_header s → is_ok s ≡ false
bad_header-error bs s e = parse_header-error (take 20 bs) s (bad_header-IsBad bs s e).refused

-- What `decode` leaves: an incomplete frame, or a stream that starts with a refused header.
pub data Leaves (d : Decoded) : Type 0 where
  waits : next_frame d.rest ≡ need_more → d.status ≡ success → Leaves d
  fails : next_frame d.rest ≡ bad_header d.status → is_ok d.status ≡ false → Leaves d

Leaves-prepend : (ps : List Packet) (d : Decoded) → Leaves d → Leaves (prepend ps d)
Leaves-prepend ps d (waits e s) = waits e s
Leaves-prepend ps d (fails e s) = fails e s

decode-Leaves_below : (n : ℕ) (bs : Bytes) → length bs < n → Leaves (decode bs)
decode-Leaves_below zero bs h = absurd (omega arith)
decode-Leaves_below (suc n) bs h = elim (Front-cases (next_frame bs)) [
  | inl e ↦ rw (decode_wait bs e) (waits e refl)
  | inr (inl (s, e)) ↦ rw (decode_bad bs s e) (fails e (bad_header-error bs s e))
  | inr (inr (p, rest, e)) ↦ rw (decode_frame bs p rest e) (
      Leaves-prepend (p ∷ []) (decode rest)
        (decode-Leaves_below n rest (omega (arith, frame_shrinks bs p rest e))))
]

pub decode-Leaves : (bs : Bytes) → Leaves (decode bs)
decode-Leaves bs = decode-Leaves_below (suc (length bs)) bs (omega arith)

-- `decode` of a stream with more behind it.
abbrev pub continued : Decoded → Bytes → Decoded
continued d ys =
    if is_ok d.status
    then prepend d.packets (decode (d.rest ++ ys))
    else record d { rest = d.rest ++ ys }

continued-prepend :
    (p : Packet) (d : Decoded) (ys : Bytes)
    → prepend (p ∷ []) (continued d ys) ≡ continued (prepend (p ∷ []) d) ys
continued-prepend p d ys = elim (Bool-cases (is_ok d.status)) [ inl e ↦ rw e | inr e ↦ rw e ]

decode-append_below :
    (n : ℕ) (xs ys : Bytes) → length xs < n → decode (xs ++ ys) ≡ continued (decode xs) ys
decode-append_below zero xs ys h = absurd (omega arith)
decode-append_below (suc n) xs ys h = elim (Front-cases (next_frame xs)) [
  | inl e ↦ rw (decode_wait xs e)
  | inr (inl (s, e)) ↦
      rw (decode_bad xs s e, bad_header-error xs s e)
        (decode_bad (xs ++ ys) s (next_frame-append_bad xs ys s e))
  | inr (inr (p, rest, e)) ↦
      decode_frame (xs ++ ys) p (rest ++ ys) (next_frame-append_frame xs ys p rest e)
      ∙ rw
          (
            decode_frame xs p rest e,
            decode-append_below n rest ys (omega (arith, frame_shrinks xs p rest e)),
          )
          (continued-prepend p (decode rest) ys)
]

pub decode-append : (xs ys : Bytes) → decode (xs ++ ys) ≡ continued (decode xs) ys
decode-append xs ys = decode-append_below (suc (length xs)) xs ys (omega arith)

-- A decoder between two calls: no error, and no whole frame and no refused header in its buffer.
pub record IsSettled (d : FrameDecoder) : Type 0 where
  pub no_error : d.in_error ≡ false
  pub waiting : next_frame d.buffer ≡ need_more

pub new_decoder-IsSettled : IsSettled new_decoder
new_decoder-IsSettled = record { no_error = refl; waiting = unfold next_frame in refl }

pub fed-IsSettled : (d : Decoded) → Leaves d → is_ok d.status ≡ true → IsSettled (fed d).decoder
unfolding fed
fed-IsSettled d (waits w s) e = record { no_error = rw e; waiting = w }
fed-IsSettled d (fails f s) e = cc

feed-IsSettled_decoder :
    (d : FrameDecoder) (xs : Bytes)
    → d.in_error ≡ false
    → is_ok (feed d (bytes xs)).status ≡ true
    → IsSettled (feed d (bytes xs)).decoder
feed-IsSettled_decoder d xs e s =
    let same = feed-decode d xs e in
    rw same (fed-IsSettled _ (decode-Leaves (d.buffer ++ xs)) (unfold fed in (rw same at s)))

parsed_bounded :
    (bs : Bytes) (h : PacketHeader)
    → parse_header (bytes bs) ≡ ok h
    → h.body_len ≤ max_packet_body_length
unfolding parse_header
parsed_bounded bs h e = elim (Bool-cases (is_ok (validate_header (read_header bs)))) [
  | inl good ↦
      let same : read_header bs ≡ h = ground arith in
      rw (← same) (IsValid-validate_header (read_header bs) good).body_bounded
  | inr bad ↦ absurd (ground arith)
]

waiting_bounded :
    (bs : Bytes)
    → next_frame bs ≡ need_more
    → length bs < packet_header_size + max_packet_body_length
unfolding next_frame of_parsed frame_or_wait
waiting_bounded bs e = elim (Result-cases (parse_header (bytes (take 20 bs)))) [
  | inl (h, p) ↦ ground (arith, parsed_bounded (take 20 bs) h p)
  | inr (s, p) ↦ ground arith
]

-- A `feed` that succeeds leaves the decoder settled, whatever was in it before, and fewer bytes in
-- its buffer than the largest frame has.
pub feed-IsSettled :
    (d : FrameDecoder) (xs : Bytes)
    → d.in_error ≡ false
    → is_ok (feed d (bytes xs)).status ≡ true
    → IsSettled (feed d (bytes xs)).decoder
      × (buffered_bytes (feed d (bytes xs)).decoder < packet_header_size + max_packet_body_length)
unfolding buffered_bytes
feed-IsSettled d xs e s =
    let v = feed-IsSettled_decoder d xs e s in (v, waiting_bounded _ v.waiting)
