-- ===== src/Protocol/FrameDecoder/Refinement.antt =====
-- `feed` computes `decode` of the buffered bytes followed by the new ones.
use lite_im.Prelude.{
  ℕ, zero, suc, ◌+◌, ◌-◌, ◌≤◌, ◌<◌, ◌≡◌, refl, sym, ◌∙◌, ◌⊎◌, inl, inr, true, false, not, List, [],
  ◌∷◌, ◌++◌, append_assoc, append-nil, arith, length, length-drop, drop, drop-drop, drop_all, ◌==◌,
  if◌then◌else◌,
}
use lite_im.Status.{Status, success, is_ok}
use lite_im.Protocol.Bytes.{Bytes, Span, bytes, null}
use lite_im.Protocol.Packet.{Packet}
use lite_im.Protocol.FrameDecoder.{FrameDecoder, LoopEnd, Fed, compact_consumed, feed_loop, feed}
use lite_im.Protocol.FrameDecoder.Frames.{
  need_more, bad_header, frame, next_frame, of_parsed, frame_or_wait, Front-cases, Decoded, decode,
  prepend, decode_wait, decode_bad, decode_frame, frame-IsFrame, bad_header-IsBad,
}

compact_consumed_lem : (n : ℕ) (buffer : Bytes) → compact_consumed n buffer ≡ drop n buffer
unfolding compact_consumed
compact_consumed_lem zero buffer = refl
compact_consumed_lem (suc n) buffer = ground (arith, drop_all (suc n) buffer)

module _ (fuel : ℕ) (buffer : Bytes) (i : ℕ) (out : List Packet) (here : i ≤ length buffer) where
  loop_waits :
      next_frame (drop i buffer) ≡ need_more
      → feed_loop (suc fuel) buffer i out
        ≡ record { read_index = i; output = out; status = success }
  unfolding feed_loop next_frame of_parsed frame_or_wait
  loop_waits e = ground (arith, length-drop i buffer)

  loop_fails :
      (s : Status)
      → next_frame (drop i buffer) ≡ bad_header s
      → feed_loop (suc fuel) buffer i out ≡ record { read_index = i; output = out; status = s }
  unfolding feed_loop
  loop_fails s e =
      let v = bad_header-IsBad (drop i buffer) s e in ground (arith, length-drop i buffer, v)

  loop_goes_on :
      (p : Packet) (rest : Bytes)
      → next_frame (drop i buffer) ≡ frame p rest
      → feed_loop (suc fuel) buffer i out
        ≡ feed_loop fuel buffer (i + (20 + p.header.body_len)) (out ++ (p ∷ []))
  unfolding feed_loop
  loop_goes_on p rest e =
      let v = frame-IsFrame (drop i buffer) p rest e in
      ground (arith, length-drop i buffer, drop-drop 20 i buffer, v)

-- What the loop has done from index `i` on, against `decode` of the bytes from there.
pub record Agrees (buffer : Bytes) (out : List Packet) (e : LoopEnd) (d : Decoded) : Type 0 where
  pub same_packets : e.output ≡ out ++ d.packets
  pub same_status : e.status ≡ d.status
  pub same_rest : drop e.read_index buffer ≡ d.rest

Agrees-prepend :
    {buffer : Bytes} {out : List Packet} (p : Packet) {e : LoopEnd} {d : Decoded}
    → Agrees buffer (out ++ (p ∷ [])) e d
    → Agrees buffer out e (prepend (p ∷ []) d)
Agrees-prepend {out = out} p {d = d} a = record {
  same_packets = a.same_packets ∙ append_assoc out (p ∷ []) d.packets;
  same_status = a.same_status;
  same_rest = a.same_rest;
}

feed_loop-Agrees :
    (fuel : ℕ) (buffer : Bytes) (i : ℕ) (out : List Packet)
    → i ≤ length buffer
    → length buffer - i < fuel
    → Agrees buffer out (feed_loop fuel buffer i out) (decode (drop i buffer))
feed_loop-Agrees zero buffer i out h m = absurd (omega arith)
feed_loop-Agrees (suc fuel) buffer i out h m = elim (Front-cases (next_frame (drop i buffer))) [
  | inl e ↦
      rw (loop_waits fuel buffer i out h e, decode_wait _ e)
        (record { same_packets = sym (append-nil out); same_status = refl; same_rest = refl })
  | inr (inl (s, e)) ↦
      rw (loop_fails fuel buffer i out h s e, decode_bad _ s e)
        (record { same_packets = sym (append-nil out); same_status = refl; same_rest = refl })
  | inr (inr (p, rest, e)) ↦
      let v = frame-IsFrame (drop i buffer) p rest e in
      let j : ℕ = i + (20 + p.header.body_len) in
      let behind : rest ≡ drop j buffer =
        v.rest_lem ∙ drop-drop (20 + p.header.body_len) i buffer in
      rw (loop_goes_on fuel buffer i out h p rest e, decode_frame _ p rest e, behind)
        (Agrees-prepend p (
          feed_loop-Agrees fuel buffer j (out ++ (p ∷ []))
            (omega (arith, v.whole, length-drop i buffer))
            (omega (arith, v.whole, length-drop i buffer))))
]

-- An empty input is not appended, which is the same.
joined :
    (buffer xs : Bytes) → (if not (length xs == 0) then buffer ++ xs else buffer) ≡ buffer ++ xs
joined buffer [] = sym (append-nil buffer)
joined buffer (x ∷ xs) = ground arith

-- The outcome of `feed`, in terms of `decode`.
unfoldable pub fed : Decoded → Fed
fed d = record {
  decoder = record { buffer = d.rest; in_error = not (is_ok d.status) };
  output = d.packets;
  status = d.status;
}

-- A decoder that is not in its error state takes the frames from the front of what it had buffered
-- and what it is given, keeps the rest, and enters the error state exactly when a header is refused.
pub feed-decode :
    (d : FrameDecoder) (xs : Bytes)
    → d.in_error ≡ false
    → feed d (bytes xs) ≡ fed (decode (d.buffer ++ xs))
unfolding feed fed
feed-decode d xs e =
    let bs : Bytes = d.buffer ++ xs in
    let a = feed_loop-Agrees (suc (length bs)) bs 0 [] (omega arith) (omega arith) in
    rw (e, joined d.buffer xs)
      λ i. record {
        decoder = record {
          buffer = (compact_consumed_lem _ bs ∙ a.same_rest) i;
          in_error = not (is_ok (a.same_status i));
        };
        output = a.same_packets i;
        status = a.same_status i;
      }

-- In the error state, and on a null input of some length, `feed` changes nothing and returns no
-- packet.
pub feed_refuses :
    (d : FrameDecoder) (input : Span)
    → (d.in_error ≡ true) ⊎ ((n : ℕ) × (input ≡ null (suc n)))
    → ((feed d input).decoder ≡ d)
      × ((feed d input).output ≡ [])
      × (is_ok (feed d input).status ≡ false)
unfolding feed
feed_refuses d (bytes xs) h = ground arith
feed_refuses d (null n) h = ground arith
