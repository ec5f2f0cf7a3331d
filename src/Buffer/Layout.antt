-- ===== src/Buffer/Layout.antt =====
-- include/Buffer.hpp: the indices of a `Buffer` stay in order and inside the vector, so that no
-- `size_t` operation wraps and no copy leaves the vector.
use tcp_server.Base.{
  ℕ, ◌+◌, ◌-◌, ◌≤◌, ◌<◌, ◌≡◌, refl, ap, ◌∙◌, List, ◌++◌, ltb, length, take, drop, replicate,
  copy_to, length-append, length-take, length-replicate, length-copy_to, add_size, size_mod,
  add_size_exact, sub_size_exact, arith, ltb→lt, ltb→le, Bool-cases, inl, inr,
}
use tcp_server.Buffer.{
  Buffer, cheap_prepend, new_buffer, readable_bytes, writable_bytes, prependable_bytes, peek,
  retrieve, resize, compact, make_space, ensure_writable_bytes, write_bytes, append,
}
use tcp_server.Buffer.Window.{window, length-window, window_copy, window_grow, window_empty}

pub record IsValid (b : Buffer) : Type 0 where
  pub front : cheap_prepend ≤ b.reader_index
  pub order : b.reader_index ≤ b.writer_index
  pub inside : b.writer_index ≤ length b.bytes
  pub small : length b.bytes < size_mod

-- The bytes that are still to be read.
abbrev pub contents : Buffer → List ℕ
contents b = window b.bytes b.reader_index b.writer_index

-- `n` more bytes keep every index below 2 ^ 64.
abbrev pub Fits : Buffer → ℕ → Type 0
Fits b n = length b.bytes + n + cheap_prepend < size_mod

pub readable_bytes_exact :
    (b : Buffer) → IsValid b → readable_bytes b ≡ b.writer_index - b.reader_index
unfolding readable_bytes
readable_bytes_exact b v = sub_size_exact b.writer_index b.reader_index v.order (omega arith)

pub writable_bytes_exact :
    (b : Buffer) → IsValid b → writable_bytes b ≡ length b.bytes - b.writer_index
unfolding writable_bytes
writable_bytes_exact b v = sub_size_exact (length b.bytes) b.writer_index v.inside v.small

pub length-contents : (b : Buffer) → IsValid b → length (contents b) ≡ readable_bytes b
length-contents b v = omega (
  arith,
  length-window b.bytes b.reader_index b.writer_index v.order v.inside,
  readable_bytes_exact b v,
)

pub peek_all : (b : Buffer) → IsValid b → peek b (readable_bytes b) ≡ contents b
unfolding peek
peek_all b v = ap (λ (t : ℕ). take t (drop b.reader_index b.bytes)) (readable_bytes_exact b v)

pub new_buffer-IsValid : (n : ℕ) → IsValid (new_buffer n)
unfolding new_buffer
new_buffer-IsValid n = omega arith

pub retrieve-IsValid : (b : Buffer) (n : ℕ) → IsValid b → IsValid (retrieve b n)
unfolding retrieve
retrieve-IsValid b n v = ground (arith, readable_bytes_exact b v, add_size_exact b.reader_index n)

-- What `ensureWritableBytes` leaves: the same contents, and room for `n` bytes behind them.
pub record Ensured (b : Buffer) (n : ℕ) (b' : Buffer) : Type 0 where
  pub valid : IsValid b'
  pub same : contents b' ≡ contents b
  pub room : b'.writer_index + n ≤ length b'.bytes
  pub bounded : length b'.bytes ≤ length b.bytes + n

pub length-resize : (xs : List ℕ) (n : ℕ) → length xs ≤ n → length (resize xs n) ≡ n
length-resize xs n h = omega (
  arith,
  length-append (take n xs) (replicate (n - length xs) 0),
  length-take n xs,
  length-replicate {A = ℕ} (n - length xs) 0,
)

module _ (b : Buffer) (n : ℕ) (v : IsValid b) (f : Fits b n) where
  grow-Ensured :
      length b.bytes ≤ b.writer_index + n
      → Ensured b n (record b { bytes = resize b.bytes (add_size b.writer_index n) })
  grow-Ensured h =
      let end = add_size b.writer_index n in
      let exact : end ≡ b.writer_index + n = add_size_exact b.writer_index n (omega arith) in
      let size : length (resize b.bytes end) ≡ end = length-resize b.bytes end (omega arith) in
      record {
        valid = omega arith;
        same =
            window_grow b.bytes (replicate (end - length b.bytes) 0) b.reader_index b.writer_index
              end v.order v.inside (omega arith);
        room = omega arith;
        bounded = omega arith;
      }

  compact_lem : compact b ≡ record b {
    bytes = copy_to b.bytes cheap_prepend (contents b);
    reader_index = cheap_prepend;
    writer_index = cheap_prepend + length (contents b);
  }
  unfolding compact
  compact_lem =
      let exact =
        add_size_exact cheap_prepend (length (contents b))
          (omega (arith, length-window b.bytes b.reader_index b.writer_index v.order v.inside)) in
      rw (peek_all b v, ← length-contents b v, exact)

  compact-Ensured :
      n + cheap_prepend ≤ length b.bytes - b.writer_index + b.reader_index → Ensured b n (compact b)
  compact-Ensured h =
      let size = length-window b.bytes b.reader_index b.writer_index v.order v.inside in
      let whole = length-copy_to b.bytes cheap_prepend (contents b) (omega arith) in
      rw compact_lem (record {
        valid = omega arith;
        same =
            window_copy b.bytes cheap_prepend cheap_prepend (contents b) (omega arith) (omega arith)
            ∙ ap (λ (t : List ℕ). t ++ contents b)
                (window_empty b.bytes cheap_prepend cheap_prepend (omega arith));
        room = omega arith;
        bounded = omega arith;
      })

  make_space-Ensured : writable_bytes b < n → Ensured b n (make_space b n)
  unfolding make_space prependable_bytes
  make_space-Ensured h =
      let room = writable_bytes_exact b v in
      let have = add_size_exact (writable_bytes b) b.reader_index (omega arith) in
      let need = add_size_exact n cheap_prepend (omega arith) in
      elim (Bool-cases
        (ltb (add_size (writable_bytes b) b.reader_index) (add_size n cheap_prepend))) [
          | inl short ↦ rw short (grow-Ensured (omega arith))
          | inr enough ↦ rw enough (compact-Ensured (omega (arith, ltb→le _ _ enough)))
        ]

  pub ensure_writable_bytes-Ensured : Ensured b n (ensure_writable_bytes b n)
  unfolding ensure_writable_bytes
  ensure_writable_bytes-Ensured = elim (Bool-cases (ltb (writable_bytes b) n)) [
    | inl short ↦ rw short (make_space-Ensured (ltb→lt _ _ short))
    | inr enough ↦ rw enough (record {
      valid = v;
      same = refl;
      room = omega (arith, ltb→le _ _ enough, writable_bytes_exact b v);
      bounded = omega arith;
    })
  ]

-- What a write of `src` behind `writerIndex_` leaves, where there is room for it.
pub write_bytes-IsValid :
    (b : Buffer) (src : List ℕ)
    → IsValid b
    → b.writer_index + length src ≤ length b.bytes
    → IsValid (write_bytes b src) × (contents (write_bytes b src) ≡ contents b ++ src)
unfolding write_bytes
write_bytes-IsValid b src v h =
    let exact = add_size_exact b.writer_index (length src) (omega arith) in
    let whole = length-copy_to b.bytes b.writer_index src (omega arith) in
    rw exact (omega arith, window_copy b.bytes b.reader_index b.writer_index src v.order h)

length-write_bytes :
    (b : Buffer) (src : List ℕ) → IsValid b → length (write_bytes b src).bytes ≡ length b.bytes
unfolding write_bytes
length-write_bytes b src v = length-copy_to b.bytes b.writer_index src v.inside

-- On a valid buffer, an `append` that fits in memory keeps the indices in order inside the vector,
-- which grows by `len` at most; its copy stays inside the vector.
pub append-IsValid :
    (b : Buffer) (src : List ℕ)
    → IsValid b
    → Fits b (length src)
    → let e = ensure_writable_bytes b (length src) in
      IsValid (append b src)
      × (e.writer_index + length src ≤ length e.bytes)
      × (length (append b src).bytes ≤ length b.bytes + length src)
unfolding append
append-IsValid b src v f =
    let e = ensure_writable_bytes-Ensured b (length src) v f in
    let wrote = write_bytes-IsValid (ensure_writable_bytes b (length src)) src e.valid e.room in
    (
      wrote.0,
      e.room,
      omega (arith, length-write_bytes (ensure_writable_bytes b (length src)) src e.valid),
    )
