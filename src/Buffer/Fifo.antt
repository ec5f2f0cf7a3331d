-- ===== src/Buffer/Fifo.antt =====
-- include/Buffer.hpp and src/Buffer.cpp: a valid `Buffer` is a queue of bytes.
use tcp_server.Base.{
  ℕ, ◌+◌, ◌-◌, ◌≤◌, ◌<◌, ◌≡◌, refl, ap, sym, ◌∙◌, List, [], ◌++◌, ltb, leb, length, take, drop,
  drop_all, add_size_exact, arith, ltb→lt, ltb→le, Bool-cases, inl, inr, append_assoc,
  take-append-drop, length-take, length-drop, copy_to, length-copy_to, take-take,
}
use tcp_server.Buffer.{
  Buffer, cheap_prepend, extra_size, readable_bytes, writable_bytes, peek, retrieve_all, retrieve,
  retrieve_as_string, retrieve_all_as_string, ensure_writable_bytes, append, Io, count, got,
  read_capacity, read_got, read_fd, write_fd,
}
use tcp_server.Buffer.Window.{window, window_empty, window-drop, window_copy}
use tcp_server.Buffer.Layout.{
  IsValid, contents, Fits, readable_bytes_exact, writable_bytes_exact, length-contents, peek_all,
  ensure_writable_bytes-Ensured, write_bytes-IsValid, append-IsValid, retrieve-IsValid,
}

-- `append` adds the bytes behind those that are still to be read, whether the vector has room, is
-- compacted or grows.
pub contents-append :
    (b : Buffer) (src : List ℕ)
    → IsValid b
    → Fits b (length src)
    → contents (append b src) ≡ contents b ++ src
unfolding append
contents-append b src v f =
    let e = ensure_writable_bytes-Ensured b (length src) v f in
    (write_bytes-IsValid (ensure_writable_bytes b (length src)) src e.valid e.room).1
    ∙ ap (λ (t : List ℕ). t ++ src) e.same

pub contents-retrieve :
    (b : Buffer) (n : ℕ) → IsValid b → contents (retrieve b n) ≡ drop n (contents b)
unfolding retrieve retrieve_all
contents-retrieve b n v =
    let size = readable_bytes_exact b v in
    elim (Bool-cases (ltb n (readable_bytes b))) [
      | inl less ↦
          let h = ltb→lt n (readable_bytes b) less in
          rw (less, add_size_exact b.reader_index n (omega arith))
            (window-drop b.bytes b.reader_index b.writer_index n (omega arith))
      | inr all ↦
          let h = ltb→le n (readable_bytes b) all in
          rw all (
            window_empty b.bytes cheap_prepend cheap_prepend (omega arith)
            ∙ sym (drop_all n (contents b) (omega (arith, length-contents b v))))
    ]

-- `retrieveAsString` hands over the oldest bytes and leaves the rest, when it is asked for no more
-- than there are.
pub retrieve_as_string_lem :
    (b : Buffer) (n : ℕ)
    → IsValid b
    → n ≤ readable_bytes b
    → ((retrieve_as_string b n).0 ≡ take n (contents b))
      × (contents (retrieve_as_string b n).1 ≡ drop n (contents b))
unfolding retrieve_as_string peek
retrieve_as_string_lem b n v h = (
  sym (
      take-take n (b.writer_index - b.reader_index) (drop b.reader_index b.bytes)
        (omega (arith, readable_bytes_exact b v))),
  contents-retrieve b n v,
)

-- On a valid buffer, `retrieveAllAsString` hands over all that was in it, and leaves it empty and
-- valid.
pub retrieve_all_as_string_lem :
    (b : Buffer)
    → IsValid b
    → ((retrieve_all_as_string b).0 ≡ contents b)
      × (contents (retrieve_all_as_string b).1 ≡ [])
      × IsValid (retrieve_all_as_string b).1
unfolding retrieve_all_as_string retrieve_as_string
retrieve_all_as_string_lem b v = (
  peek_all b v,
  contents-retrieve b (readable_bytes b) v
      ∙ drop_all (readable_bytes b) (contents b) (omega (arith, length-contents b v)),
  retrieve-IsValid b (readable_bytes b) v,
)

-- The vector after the kernel has filled it up to its end.
fill : Buffer → List ℕ → Buffer
fill b xs = record b {
  bytes = copy_to b.bytes b.writer_index (take (writable_bytes b) xs);
  writer_index = length b.bytes;
}

fill_lem :
    (b : Buffer) (xs : List ℕ)
    → IsValid b
    → writable_bytes b ≤ length xs
    → IsValid (fill b xs)
      × (contents (fill b xs) ≡ contents b ++ take (writable_bytes b) xs)
      × (length (fill b xs).bytes ≡ length b.bytes)
unfolding fill
fill_lem b xs v h =
    let room = writable_bytes_exact b v in
    let part = length-take (writable_bytes b) xs in
    let whole = length-copy_to b.bytes b.writer_index (take (writable_bytes b) xs) (omega arith) in
    let end : b.writer_index + length (take (writable_bytes b) xs) ≡ length b.bytes = omega arith in
    (
      omega arith,
      ap (window (copy_to b.bytes b.writer_index (take (writable_bytes b) xs)) b.reader_index)
            (sym end)
          ∙ window_copy b.bytes b.reader_index b.writer_index (take (writable_bytes b) xs) v.order
              (omega arith),
      whole,
    )

-- On a valid buffer, a `readFd` whose bytes fit in memory returns the number of bytes that arrived
-- and adds exactly them, in order, also where they run over the end of the vector; the indices stay
-- valid.
pub read_fd_lem :
    (b : Buffer) (xs : List ℕ)
    → IsValid b
    → Fits b (length xs)
    → ((read_fd b (got xs)).0 ≡ count (length xs))
      × (contents (read_fd b (got xs)).1 ≡ contents b ++ xs)
      × IsValid (read_fd b (got xs)).1
unfolding read_fd read_got fill
read_fd_lem b xs v f =
    let room = writable_bytes_exact b v in
    let w = writable_bytes b in
    elim (Bool-cases (leb (length xs) (writable_bytes b))) [
      | inl whole ↦
          let h : length xs ≤ writable_bytes b = ground arith in
          let r = write_bytes-IsValid b xs v (omega arith) in rw whole (refl, r.1, r.0)
      | inr split ↦
          let h : writable_bytes b < length xs = ground arith in
          let l = fill_lem b xs v (omega arith) in
          let rest = length-drop (writable_bytes b) xs in
          let g : Fits (fill b xs) (length (drop (writable_bytes b) xs)) = omega arith in
          rw split (
            refl,
            contents-append (fill b xs) (drop (writable_bytes b) xs) l.0 g
                ∙ ap (λ (t : List ℕ). t ++ drop (writable_bytes b) xs) l.1
                ∙ append_assoc (contents b) (take (writable_bytes b) xs)
                    (drop (writable_bytes b) xs)
                ∙ ap (◌++◌ (contents b)) (take-append-drop (writable_bytes b) xs),
            (append-IsValid (fill b xs) (drop (writable_bytes b) xs) l.0 g).0,
          )
    ]

-- `readv` can fill what it is offered: the vector's free space, and the extra buffer behind it
-- where that space is smaller than the extra buffer. One call can take at least 64 KB.
pub read_capacity_lem : (b : Buffer) → extra_size ≤ read_capacity b
unfolding read_capacity
read_capacity_lem b = ground arith

-- `writeFd` offers the kernel exactly the unread bytes.
pub write_fd_lem :
    (b : Buffer) (kernel : List ℕ → Io) → IsValid b → write_fd b kernel ≡ kernel (contents b)
unfolding write_fd
write_fd_lem b kernel v = ap kernel (peek_all b v)
