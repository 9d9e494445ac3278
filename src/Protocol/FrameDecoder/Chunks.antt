-- ===== src/Protocol/FrameDecoder/Chunks.antt =====
-- Feeding a stream in pieces, as a socket hands it over, against feeding it at once.
use mathlib.Core.List.{flatten}
use lite_im.Prelude.{
  ◌≡◌, refl, ap, sym, ◌∙◌, inl, inr, true, false, List, [], ◌∷◌, ◌++◌, append_assoc, append-nil,
  if◌then◌else◌, Bool-cases,
}
use lite_im.Status.{success, is_ok}
use lite_im.Protocol.Bytes.{Bytes, bytes}
use lite_im.Protocol.FrameDecoder.{FrameDecoder, Fed, feed}
use lite_im.Protocol.FrameDecoder.Frames.{Decoded, decode, decode_wait}
use lite_im.Protocol.FrameDecoder.Refinement.{fed, feed-decode}
use lite_im.Protocol.FrameDecoder.Streams.{
  IsSettled, continued, decode-append, fed-IsSettled, decode-Leaves,
}

-- Each chunk of a stream in turn, up to the first error; the packets of all calls are kept, those that
-- the failing call returned too.
unfoldable pub feed_chunks : FrameDecoder → List Bytes → Fed
feed_chunks d [] = record { decoder = d; output = []; status = success }
feed_chunks d (c ∷ cs) =
    let first = feed d (bytes c) in
    let others = feed_chunks first.decoder cs in
    if is_ok first.status
    then record {
      decoder = others.decoder;
      output = first.output ++ others.output;
      status = others.status;
    }
    else first

-- Two outcomes that a caller cannot tell apart: the same packets, status and error flag, and, where
-- the status is ok, the same decoder.
pub record SameOutcome (a b : Fed) : Type 0 where
  pub same_output : a.output ≡ b.output
  pub same_status : a.status ≡ b.status
  pub same_flag : a.decoder.in_error ≡ b.decoder.in_error
  pub same_decoder : is_ok b.status ≡ true → a.decoder ≡ b.decoder

feed_nothing :
    (d : FrameDecoder)
    → IsSettled d
    → feed d (bytes []) ≡ record { decoder = d; output = []; status = success }
feed_nothing d s =
    feed-decode d [] s.no_error
    ∙ rw (append-nil d.buffer, decode_wait d.buffer s.waiting)
        (unfold fed in
          (λ i. record {
            decoder = record { buffer = d.buffer; in_error = sym s.no_error i };
            output = [];
            status = success;
          }))

-- Both sides of the theorem after a first chunk whose outcome is `fed first`.
module _ (first : Decoded) (flat : Bytes) (cs : List Bytes) where
  abbrev parts : Fed → Fed
  parts others =
      if is_ok first.status
      then record {
        decoder = others.decoder;
        output = first.packets ++ others.output;
        status = others.status;
      }
      else fed first

  parts_same_ok :
      is_ok first.status ≡ true
      → (others : Fed) → SameOutcome others (fed (decode (first.rest ++ flat)))
      → SameOutcome (parts others) (fed (continued first flat))
  unfolding fed
  parts_same_ok e others v = rw e (record {
    same_output = ap (◌++◌ first.packets) v.same_output;
    same_status = v.same_status;
    same_flag = v.same_flag;
    same_decoder = v.same_decoder;
  })

  parts_same_bad :
      is_ok first.status ≡ false
      → (others : Fed) → SameOutcome (parts others) (fed (continued first flat))
  unfolding fed
  parts_same_bad e others =
      rw e (record {
        same_output = refl;
        same_status = refl;
        same_flag = rw e;
        same_decoder = λ o. cc;
      })

feed_whole :
    (d : FrameDecoder) (c flat : Bytes)
    → d.in_error ≡ false
    → feed d (bytes (c ++ flat)) ≡ fed (continued (decode (d.buffer ++ c)) flat)
feed_whole d c flat e =
    feed-decode d (c ++ flat) e
    ∙ ap fed (ap decode (sym (append_assoc d.buffer c flat)) ∙ decode-append (d.buffer ++ c) flat)

-- How the stream is cut does not matter: from a settled decoder, feeding it chunk by chunk has the
-- outcome of feeding it whole.
pub feed_chunks-flatten :
    (d : FrameDecoder) (cs : List Bytes)
    → IsSettled d
    → SameOutcome (feed_chunks d cs) (feed d (bytes (flatten cs)))
unfolding feed_chunks flatten fed
feed_chunks-flatten d [] s =
    rw (feed_nothing d s) (record {
      same_output = refl;
      same_status = refl;
      same_flag = refl;
      same_decoder = λ e. refl;
    })
feed_chunks-flatten d (c ∷ cs) s = elim (Bool-cases (is_ok (decode (d.buffer ++ c)).status)) [
  | inl e ↦
      let first = decode (d.buffer ++ c) in
      let next = (fed first).decoder in
      let settled : IsSettled next = fed-IsSettled first (decode-Leaves (d.buffer ++ c)) e in
      rw (feed-decode d c s.no_error, feed_whole d c (flatten cs) s.no_error)
        (parts_same_ok first (flatten cs) cs e (feed_chunks next cs) (
          rw (feed-decode next (flatten cs) settled.no_error) at
            (feed_chunks-flatten next cs settled)))
  | inr e ↦
      let first = decode (d.buffer ++ c) in
      rw (feed-decode d c s.no_error, feed_whole d c (flatten cs) s.no_error)
        (parts_same_bad first (flatten cs) cs e (feed_chunks (fed first).decoder cs))
]
