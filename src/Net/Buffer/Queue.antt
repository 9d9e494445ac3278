-- ===== src/Net/Buffer/Queue.antt =====
-- A buffer is a queue of bytes: appended behind, retrieved in front.
use lite_im.Prelude.{
  ℕ, zero, ◌+◌, ◌-◌, ◌≤◌, ◌≡◌, refl, ap, sym, ◌∙◌, inl, inr, false, [], ◌∷◌, ◌++◌, append_assoc,
  append-nil, arith, length, length-append, length-take, length-drop, take, drop, take-append,
  drop-append, take-append_eq, drop-take, length-replicate, take-append-drop, replicate, leb, ◌==◌,
  Bool-cases,
}
use lite_im.Status.{success}
use lite_im.Protocol.Bytes.{Bytes, bytes}
use lite_im.Net.Buffer.{
  Buffer, readable_bytes, writable_bytes, peek, move_to_front, resize, ensure_writable_bytes,
  write_at, append,
}

-- The indices in order, within the storage.
pub record IsValid (b : Buffer) : Type 0 where
  pub ordered : b.read_index ≤ b.write_index
  pub inside : b.write_index ≤ length b.storage

pub length-peek : (b : Buffer) → IsValid b → length (peek b) ≡ readable_bytes b
length-peek b v = omega (
  arith,
  v.ordered,
  v.inside,
  length-take (readable_bytes b) (drop b.read_index b.storage),
  length-drop b.read_index b.storage,
)

-- A buffer whose content is known, and how much room there is behind it.
pub record Holds (b : Buffer) (content : Bytes) (room : ℕ) : Type 0 where
  pub valid : IsValid b
  pub content_lem : peek b ≡ content
  pub roomy : b.write_index + room ≤ length b.storage

move_to_front-Holds :
    (b : Buffer) (len : ℕ)
    → IsValid b
    → len ≤ b.read_index + writable_bytes b
    → Holds (move_to_front b) (peek b) len
unfolding move_to_front
move_to_front-Holds b len v h =
    let n = length-peek b v in
    let size = length-append (peek b) (drop (readable_bytes b) b.storage) in
    let tail = length-drop (readable_bytes b) b.storage in
    record {
      valid = record {
        ordered = omega arith;
        inside = omega (arith, n, size, v.inside, v.ordered);
      };
      content_lem = take-append_eq _ (peek b) _ (omega (arith, n));
      roomy = omega (arith, n, size, tail, v.inside, v.ordered);
    }

-- What `memcpy` writes behind the content.
write_at_content :
    (storage : Bytes) (r w : ℕ) (xs : Bytes)
    → r ≤ w
    → w + length xs ≤ length storage
    → take (w + length xs - r) (drop r (write_at storage w xs))
      ≡ take (w - r) (drop r storage) ++ xs
unfolding write_at
write_at_content storage r w xs h k =
    let front : Bytes = take w storage in
    let back : Bytes = drop (w + length xs) storage in
    let size : length front ≡ w = omega (arith, length-take w storage) in
    sym (drop-take r (w + length xs) (front ++ (xs ++ back)))
    ∙ ap (drop r) (
        ap (take (w + length xs)) (sym (append_assoc front xs back))
        ∙ take-append_eq (w + length xs) (front ++ xs) back (omega (arith, length-append front xs)))
    ∙ drop-append r front xs (omega arith)
    ∙ ap (λ (ys : Bytes). ys ++ xs) (drop-take r w storage)

length-write_at :
    (storage : Bytes) (w : ℕ) (xs : Bytes)
    → w + length xs ≤ length storage
    → length (write_at storage w xs) ≡ length storage
unfolding write_at
length-write_at storage w xs h =
    let back : Bytes = drop (w + length xs) storage in
    omega (
      arith,
      length-append (take w storage) (xs ++ back),
      length-append xs back,
      length-take w storage,
      length-drop (w + length xs) storage,
    )

-- The content is in the storage below the write index.
peek-storage :
    (b : Buffer) (storage : Bytes)
    → take b.write_index storage ≡ take b.write_index b.storage
    → peek (record b { storage = storage }) ≡ peek b
peek-storage b storage e =
    sym (drop-take b.read_index b.write_index storage)
    ∙ ap (drop b.read_index) e
    ∙ drop-take b.read_index b.write_index b.storage

length-resize : (n : ℕ) (bs : Bytes) → length (resize n bs) ≡ n
unfolding resize
length-resize n bs = ground (
  arith,
  length-take n bs,
  length-append bs (replicate (n - length bs) 0),
  length-replicate (n - length bs) (zero),
)

take-resize : (k n : ℕ) (bs : Bytes) → k ≤ n → k ≤ length bs → take k (resize n bs) ≡ take k bs
unfolding resize
take-resize k n bs h l = elim (Bool-cases (leb n (length bs))) [
  | inl fits ↦
      let size : k ≤ length (take n bs) = omega (arith, length-take n bs) in
      rw fits
        (sym (take-append k (take n bs) (drop n bs) size) ∙ ap (take k) (take-append-drop n bs))
  | inr grows ↦ rw grows (take-append k bs _ l)
]

-- Growing the storage leaves the content.
resize-Holds :
    (b : Buffer) (len : ℕ)
    → IsValid b
    → Holds (record b { storage = resize (b.write_index + len) b.storage }) (peek b) len
resize-Holds b len v =
    let size = length-resize (b.write_index + len) b.storage in
    record {
      valid = record { ordered = v.ordered; inside = omega (arith, size) };
      content_lem = peek-storage b _ (take-resize b.write_index _ b.storage (omega arith) v.inside);
      roomy = omega (arith, size);
    }

Holds-content : {b : Buffer} {xs ys : Bytes} {n : ℕ} → xs ≡ ys → Holds b xs n → Holds b ys n
Holds-content e h = record { valid = h.valid; content_lem = h.content_lem ∙ e; roomy = h.roomy }

ensure_writable_bytes-Holds :
    (b : Buffer) (len : ℕ) → IsValid b → Holds (ensure_writable_bytes b len) (peek b) len
unfolding ensure_writable_bytes
ensure_writable_bytes-Holds b len v = elim (Bool-cases (leb len (writable_bytes b))) [
  | inl fits ↦ rw fits (record { valid = v; content_lem = refl; roomy = ground (arith, v.inside) })
  | inr full ↦ elim (Bool-cases (leb len (b.read_index + writable_bytes b))) [
    | inl moves ↦ rw (full, moves) (move_to_front-Holds b len v (ground arith))
    | inr grows ↦ elim (Bool-cases (b.read_index == 0)) [
      | inl start ↦ rw (full, grows, start) (resize-Holds b len v)
      | inr late ↦
          let moved = move_to_front-Holds b 0 v (omega arith) in
          rw (full, grows, late)
            (Holds-content moved.content_lem (resize-Holds (move_to_front b) len moved.valid))
    ]
  ]
]

-- An append puts the bytes behind the content, and a null input of some length is refused.
pub append-Holds :
    (b : Buffer) (xs : Bytes)
    → IsValid b
    → Holds (append b (bytes xs)).0 (peek b ++ xs) 0 × ((append b (bytes xs)).1 ≡ success)
unfolding append
append-Holds b [] v = (
  record { valid = v; content_lem = sym (append-nil (peek b)); roomy = omega (arith, v.inside) },
  refl,
)
append-Holds b (x ∷ xs) v =
    let ys : Bytes = x ∷ xs in
    let more : (length ys == 0) ≡ false = ground arith in
    let roomy : Buffer = ensure_writable_bytes b (length ys) in
    let h = ensure_writable_bytes-Holds b (length ys) v in
    let size = length-write_at roomy.storage roomy.write_index ys h.roomy in
    rw more (
      record {
        valid = record {
          ordered = omega (arith, h.valid.ordered);
          inside = omega (arith, size, h.roomy);
        };
        content_lem =
            write_at_content roomy.storage roomy.read_index roomy.write_index ys h.valid.ordered
              h.roomy
            ∙ ap (λ (zs : Bytes). zs ++ ys) h.content_lem;
        roomy = omega (arith, size, h.roomy);
      },
      refl,
    )
