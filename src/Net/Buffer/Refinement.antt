-- ===== src/Net/Buffer/Refinement.antt =====
-- Every operation of a buffer against the same operation of a queue of bytes.
use lite_im.Prelude.{
  ℕ, ◌+◌, ◌≤◌, ◌≡◌, refl, ap, ap₂, sym, inl, inr, ◌∙◌, List, [], ◌∷◌, ◌++◌, arith, length, true,
  length-drop, take, drop, drop_all, drop-drop, drop-take, ltb, ◌==◌, if◌then◌else◌, Bool-cases,
}
use lite_im.Status.{Status, success, error, is_ok, invalid_argument}
use lite_im.Protocol.Bytes.{Bytes, Span, null, bytes}
use lite_im.Net.Buffer.{Buffer, new_buffer, readable_bytes, peek, append, retrieve, retrieve_all}
use lite_im.Net.Buffer.Queue.{IsValid, length-peek, append-Holds}

pub data BufferOp : Type 0 where
  appends : Span → BufferOp
  retrieves : ℕ → BufferOp
  retrieves_all : BufferOp

abbrev pub step : Buffer → BufferOp → Buffer × Status
step b (appends input) = append b input
step b (retrieves n) = retrieve b n
step b retrieves_all = (retrieve_all b, success)

-- The specification.
unfoldable pub queue_step : Bytes → BufferOp → Bytes × Status
queue_step q (appends (null n)) =
    if n == 0 then (q, success) else (q, error invalid_argument "buffer append input is null")
queue_step q (appends (bytes xs)) = (q ++ xs, success)
queue_step q (retrieves n) =
    if ltb (length q) n
    then (q, error invalid_argument "buffer retrieve exceeds readable bytes")
    else (drop n q, success)
queue_step q retrieves_all = ([], success)

record Refines (b : Buffer × Status) (q : Bytes × Status) : Type 0 where
  pub valid : IsValid b.0
  pub content : peek b.0 ≡ q.0
  pub status : b.1 ≡ q.1

drop-peek :
    (b : Buffer) (n : ℕ)
    → n ≤ readable_bytes b
    → peek (record b { read_index = b.read_index + n }) ≡ drop n (peek b)
drop-peek b n h =
    sym (drop-take (b.read_index + n) b.write_index b.storage)
    ∙ sym (drop-drop n b.read_index (take b.write_index b.storage))
    ∙ ap (drop n) (drop-take b.read_index b.write_index b.storage)

retrieve-Refines :
    (b : Buffer) (n : ℕ) → IsValid b → Refines (retrieve b n) (queue_step (peek b) (retrieves n))
unfolding retrieve queue_step retrieve_all
retrieve-Refines b n v = elim (Bool-cases (ltb (readable_bytes b) n)) [
  | inl short ↦ rw (length-peek b v, short) (record { valid = v; content = refl; status = refl })
  | inr enough ↦ elim (Bool-cases (n == readable_bytes b)) [
    | inl all ↦
        rw (length-peek b v, enough, all)
          (record {
            valid = record { ordered = omega arith; inside = omega arith };
            content = sym (drop_all n (peek b) (ground (arith, length-peek b v)));
            status = refl;
          })
    | inr some ↦
        let n_le : n ≤ readable_bytes b = ground arith in
        rw (length-peek b v, enough, some)
          (record {
            valid = record { ordered = omega (arith, n_le, v.ordered); inside = v.inside };
            content = drop-peek b n n_le;
            status = refl;
          })
  ]
]

-- A `retrieve` that succeeds takes the bytes in front.
pub retrieve_ok :
    (b : Buffer) (n : ℕ)
    → IsValid b
    → is_ok (retrieve b n).1 ≡ true
    → IsValid (retrieve b n).0
      × (peek (retrieve b n).0 ≡ drop n (peek b))
      × (readable_bytes (retrieve b n).0 + n ≡ readable_bytes b)
unfolding queue_step
retrieve_ok b n v e =
    let r = retrieve-Refines b n v in
    let done : is_ok (queue_step (peek b) (retrieves n)).1 ≡ true = ap is_ok (sym r.status) ∙ e in
    let size = length-peek b v in
    let size' = length-peek (retrieve b n).0 r.valid in
    let content : peek (retrieve b n).0 ≡ drop n (peek b) = ground (arith, r.content, done) in
    let fits : n ≤ length (peek b) = ground (arith, done) in
    (
      r.valid,
      content,
      omega (
        arith,
        fits,
        size,
        size',
        ap (λ (xs : Bytes). length xs) content,
        length-drop n (peek b),
      ),
    )

append_null-Refines :
    (b : Buffer) (n : ℕ)
    → IsValid b
    → Refines (append b (null n)) (queue_step (peek b) (appends (null n)))
unfolding append queue_step
append_null-Refines b n v = elim (Bool-cases (n == 0)) [
  | inl e ↦ rw e (record { valid = v; content = refl; status = refl })
  | inr e ↦ rw e (record { valid = v; content = refl; status = refl })
]

step-Refines :
    (b : Buffer) (op : BufferOp) → IsValid b → Refines (step b op) (queue_step (peek b) op)
unfolding queue_step
step-Refines b (appends (null n)) v = append_null-Refines b n v
step-Refines b (appends (bytes xs)) v =
    let (h, s) = append-Holds b xs v in
    record { valid = h.valid; content = h.content_lem; status = s }
step-Refines b (retrieves n) v = retrieve-Refines b n v
step-Refines b retrieves_all v =
    unfold retrieve_all in
    (record {
      valid = record { ordered = omega arith; inside = omega arith };
      content = refl;
      status = refl;
    })

-- A history of operations: the buffer after it, and the status of each.
unfoldable pub run : Buffer → List BufferOp → Buffer × List Status
run b [] = (b, [])
run b (op ∷ ops) = let (b', s) = step b op in let (b'', ss) = run b' ops in (b'', s ∷ ss)

unfoldable pub queue_run : Bytes → List BufferOp → Bytes × List Status
queue_run q [] = (q, [])
queue_run q (op ∷ ops) =
    let (q', s) = queue_step q op in let (q'', ss) = queue_run q' ops in (q'', s ∷ ss)

run-Refines_from :
    (b : Buffer) (ops : List BufferOp)
    → IsValid b
    → IsValid (run b ops).0
      × (peek (run b ops).0 ≡ (queue_run (peek b) ops).0)
      × ((run b ops).1 ≡ (queue_run (peek b) ops).1)
unfolding run queue_run
run-Refines_from b [] v = (v, refl, refl)
run-Refines_from b (op ∷ ops) v =
    let r = step-Refines b op v in
    let (valid, content, statuses) = run-Refines_from (step b op).0 ops r.valid in
    (
      valid,
      content ∙ ap (λ (q : Bytes). (queue_run q ops).0) r.content,
      ap₂ ◌∷◌ r.status (statuses ∙ ap (λ (q : Bytes). (queue_run q ops).1) r.content),
    )

-- Whatever sequence of appends and retrieves a new buffer goes through, moves and growth of its storage
-- included, its readable bytes and the status of every call are those of a queue of bytes, and its
-- indices stay in order and within the storage.
pub run-queue_run :
    (initial_size : ℕ) (ops : List BufferOp)
    → IsValid (run (new_buffer initial_size) ops).0
      × (peek (run (new_buffer initial_size) ops).0 ≡ (queue_run [] ops).0)
      × ((run (new_buffer initial_size) ops).1 ≡ (queue_run [] ops).1)
unfolding new_buffer
run-queue_run n ops =
    run-Refines_from (new_buffer n) ops (record { ordered = omega arith; inside = omega arith })
