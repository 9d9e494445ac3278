-- ===== src/Protocol/FrameDecoder/Conservation.antt =====
-- The bytes that go into a decoder are the frames that come out and what it keeps; and the frames of
-- encoded packets come out again.
use mathlib.Core.List.{flatten}
use lite_im.Prelude.{
  ℕ, zero, suc, ◌+◌, ◌<◌, ◌≡◌, refl, ap, ap₂, sym, ◌∙◌, inl, inr, false, List, [], ◌∷◌, ◌++◌, map,
  append_assoc, append-nil, arith, length, length-append, length-take, length-drop, take, take_all,
  drop, take-append-drop, drop-drop, All, take-append_all, drop-append_all,
}
use lite_im.Status.{success}
use lite_im.Protocol.Bytes.{Bytes, bytes, AreBytes}
use lite_im.Protocol.Packet.{PacketHeader, Packet}
use lite_im.Protocol.Packet.Header.{
  FitsWords, IsValid, header_bytes, length-header_bytes, take-header_bytes, drop-header_bytes,
}
use lite_im.Protocol.Packet.RoundTrip.{
  IsEncodable, framed, frame_bytes, framed-IsValid, framed-FitsWords, parse_header-frame,
  parse_header_sound,
}
use lite_im.Protocol.FrameDecoder.{FrameDecoder, Fed, feed, new_decoder}
use lite_im.Protocol.FrameDecoder.Frames.{
  next_frame, frame, Front-cases, frame-IsFrame, IsFrame-frame, frame_shrinks, Decoded, decode,
  prepend, decode_wait, decode_bad, decode_frame,
}
use lite_im.Protocol.FrameDecoder.Refinement.{fed, feed-decode}
use lite_im.Protocol.FrameDecoder.Streams.{new_decoder-IsSettled}
use lite_im.Protocol.FrameDecoder.Chunks.{SameOutcome, feed_chunks, feed_chunks-flatten}

-- A packet as a decoder returns it.
pub record IsFramed (p : Packet) : Type 0 where
  pub valid : IsValid p.header
  pub fits : FitsWords p.header
  pub counted : length p.body ≡ p.header.body_len

abbrev pub stream : List Packet → Bytes
stream [] = []
stream (p ∷ ps) = frame_bytes p ++ stream ps

AreBytes-take : (n : ℕ) (bs : Bytes) → AreBytes bs → AreBytes (take n bs)
AreBytes-take zero bs h = tt
AreBytes-take (suc n) [] h = tt
AreBytes-take (suc n) (b ∷ bs) h = (h.0, AreBytes-take n bs h.1)

AreBytes-drop : (n : ℕ) (bs : Bytes) → AreBytes bs → AreBytes (drop n bs)
AreBytes-drop zero bs h = h
AreBytes-drop (suc n) [] h = tt
AreBytes-drop (suc n) (b ∷ bs) h = AreBytes-drop n bs h.1

framed_self : (p : Packet) → length p.body ≡ p.header.body_len → framed p ≡ p
framed_self p e = λ i. record p { header = record (p.header) { body_len = e i } }

-- A stream cut into the header, the body and the rest.
three_parts : (n : ℕ) (bs : Bytes) → (take 20 bs ++ take n (drop 20 bs)) ++ drop (20 + n) bs ≡ bs
three_parts n bs =
    append_assoc (take 20 bs) (take n (drop 20 bs)) (drop (20 + n) bs)
    ∙ ap (◌++◌ (take 20 bs)) (
        ap (◌++◌ (take n (drop 20 bs))) (sym (drop-drop n 20 bs)) ∙ take-append-drop n (drop 20 bs))
    ∙ take-append-drop 20 bs

-- A frame at the front is laid out in the bytes in front of the rest.
frame_layout :
    (bs : Bytes) (p : Packet) (rest : Bytes)
    → AreBytes bs
    → next_frame bs ≡ frame p rest
    → IsFramed p × (frame_bytes p ++ rest ≡ bs)
frame_layout bs p rest b e =
    let v = frame-IsFrame bs p rest e in
    let n : ℕ = p.header.body_len in
    let (valid, fits, layout, _) =
      parse_header_sound (take 20 bs) p.header (AreBytes-take 20 _ (AreBytes-take 20 bs b))
        v.parsed in
    let header : header_bytes p.header ≡ take 20 bs =
      layout ∙ take_all 20 (take 20 bs) (omega (arith, length-take 20 bs)) in
    let counted : length p.body ≡ n =
      omega (arith, ap length v.body_lem, length-take n (drop 20 bs), length-drop 20 bs, v.whole) in
    let parts : frame_bytes p ≡ take 20 bs ++ take n (drop 20 bs) =
      ap₂ ◌++◌ (ap (λ (q : Packet). header_bytes q.header) (framed_self p counted) ∙ header)
        v.body_lem in
    (
      record { valid = valid; fits = fits; counted = counted },
      ap₂ ◌++◌ parts v.rest_lem ∙ three_parts n bs,
    )

behind_frame :
    (h : PacketHeader) (body rest : Bytes)
    → rest ≡ drop (20 + length body) (header_bytes h ++ (body ++ rest))
behind_frame h body rest =
    sym (drop-append_all body rest)
    ∙ ap (drop (length body)) (sym (drop-header_bytes h (body ++ rest)))
    ∙ drop-drop (length body) 20 (header_bytes h ++ (body ++ rest))

next_frame-frame_bytes :
    (p : Packet) (rest : Bytes)
    → IsEncodable p
    → FitsWords p.header
    → next_frame (frame_bytes p ++ rest) ≡ frame (framed p) rest
next_frame-frame_bytes p rest v f =
    let h : PacketHeader = (framed p).header in
    let alone = parse_header-frame h [] (framed-IsValid p v) (framed-FitsWords p v f) in
    IsFrame-frame (frame_bytes p ++ rest) (framed p) rest (
      rw (append_assoc (header_bytes h) p.body rest) (record {
        parsed =
            rw (take-header_bytes h (p.body ++ rest)) (rw (append-nil (header_bytes h)) at alone);
        whole = omega (
          arith,
          length-append (header_bytes h) (p.body ++ rest),
          length-append p.body rest,
          length-header_bytes h,
        );
        body_lem = rw (drop-header_bytes h (p.body ++ rest)) (sym (take-append_all p.body rest));
        rest_lem = behind_frame h p.body rest;
      }))

-- What `decode` takes out of a stream and what it leaves, put together again, are the stream.
record Conserves (bs : Bytes) (d : Decoded) : Type 0 where
  pub framed_packets : All IsFramed d.packets
  pub all_bytes : stream d.packets ++ d.rest ≡ bs

decode-Conserves_below :
    (n : ℕ) (bs : Bytes) → length bs < n → AreBytes bs → Conserves bs (decode bs)
decode-Conserves_below zero bs h b = absurd (omega arith)
decode-Conserves_below (suc n) bs h b = elim (Front-cases (next_frame bs)) [
  | inl e ↦ rw (decode_wait bs e) (record { framed_packets = tt; all_bytes = refl })
  | inr (inl (s, e)) ↦ rw (decode_bad bs s e) (record { framed_packets = tt; all_bytes = refl })
  | inr (inr (p, rest, e)) ↦
      let (whole, layout) = frame_layout bs p rest b e in
      let below =
        decode-Conserves_below n rest (omega (arith, frame_shrinks bs p rest e))
          (rest_bytes bs p rest b e) in
      rw (decode_frame bs p rest e) (record {
        framed_packets = (whole, below.framed_packets);
        all_bytes =
            append_assoc (frame_bytes p) (stream (decode rest).packets) (decode rest).rest
            ∙ ap (◌++◌ (frame_bytes p)) below.all_bytes
            ∙ layout;
      })
]
  where
    rest_bytes :
        (bs : Bytes) (p : Packet) (rest : Bytes)
        → AreBytes bs
        → next_frame bs ≡ frame p rest
        → AreBytes rest
    rest_bytes bs p rest b e =
        let v = frame-IsFrame bs p rest e in
        rw v.rest_lem (AreBytes-drop (20 + p.header.body_len) bs b)

-- Whatever bytes arrive, the packets that `feed` returns are well formed, and their frames, followed by
-- the bytes still buffered, are exactly the bytes buffered before and the new ones.
pub feed_conserves :
    (d : FrameDecoder) (xs : Bytes)
    → d.in_error ≡ false
    → AreBytes (d.buffer ++ xs)
    → All IsFramed (feed d (bytes xs)).output
      × (stream (feed d (bytes xs)).output ++ (feed d (bytes xs)).decoder.buffer ≡ d.buffer ++ xs)
unfolding fed
feed_conserves d xs e b =
    let c =
      decode-Conserves_below (suc (length (d.buffer ++ xs))) (d.buffer ++ xs) (omega arith) b in
    rw (feed-decode d xs e) (c.framed_packets, c.all_bytes)

abbrev IsSendable : Packet → Type 0
IsSendable p = IsEncodable p × FitsWords p.header

decode-stream :
    (ps : List Packet)
    → All IsSendable ps
    → decode (stream ps) ≡ record { packets = map framed ps; rest = []; status = success }
decode-stream [] v = decode_wait [] (unfold next_frame in refl)
decode-stream (p ∷ ps) v =
    decode_frame _ (framed p) (stream ps) (next_frame-frame_bytes p (stream ps) v.0.0 v.0.1)
    ∙ ap (prepend (framed p ∷ [])) (decode-stream ps v.1)

-- The frames of any packets, however the network cuts their bytes into chunks, come out of a fresh
-- decoder as these packets in their order, with no error and nothing left in the buffer.
pub feed_chunks-stream :
    (ps : List Packet) (cs : List Bytes)
    → All IsSendable ps
    → flatten cs ≡ stream ps
    → feed_chunks new_decoder cs
      ≡ record { decoder = new_decoder; output = map framed ps; status = success }
unfolding fed
feed_chunks-stream ps cs v e =
    let done : Fed = record { decoder = new_decoder; output = map framed ps; status = success } in
    let whole : feed new_decoder (bytes (flatten cs)) ≡ done =
      feed-decode new_decoder (flatten cs) refl ∙ ap fed (ap decode e ∙ decode-stream ps v) in
    let same : SameOutcome (feed_chunks new_decoder cs) done =
      rw whole at (feed_chunks-flatten new_decoder cs new_decoder-IsSettled) in
    λ i. record {
      decoder = same.same_decoder refl i;
      output = same.same_output i;
      status = same.same_status i;
    }
