-- ===== src/Buffer.antt =====
-- include/Buffer.hpp and src/Buffer.cpp: the byte buffer of a connection. A byte is only moved,
-- never computed with, so it is any number; `buffer_` is the list of its bytes.
pub mod Window
pub mod Layout
pub mod Fifo
pub mod Queue
pub mod Tests
use tcp_server.Base.{
  ℕ, ◌+◌, List, ◌++◌, ◌-◌, if◌then◌else◌, ltb, leb, length, take, drop, replicate, copy_to,
  add_size, sub_size,
}

abbrev pub cheap_prepend : ℕ
cheap_prepend = 8

abbrev pub init_size : ℕ
init_size = 1024

-- sizeof(extrabuf)
abbrev pub extra_size : ℕ
extra_size = 65536

pub record Buffer : Type 0 where
  pub bytes : List ℕ
  pub reader_index : ℕ
  pub writer_index : ℕ

-- The constructor takes an initial size and does not use it.
unfoldable pub new_buffer : ℕ → Buffer
new_buffer initial_size = record {
  bytes = replicate (cheap_prepend + init_size) 0;
  reader_index = cheap_prepend;
  writer_index = cheap_prepend;
}

unfoldable pub readable_bytes : Buffer → ℕ
readable_bytes b = sub_size b.writer_index b.reader_index

unfoldable pub writable_bytes : Buffer → ℕ
writable_bytes b = sub_size (length b.bytes) b.writer_index

pub prependable_bytes : Buffer → ℕ
prependable_bytes b = b.reader_index

-- The `len` bytes from `peek()` on.
pub peek : Buffer → ℕ → List ℕ
peek b len = take len (drop b.reader_index b.bytes)

pub retrieve_all : Buffer → Buffer
retrieve_all b = record b { reader_index = cheap_prepend; writer_index = cheap_prepend }

pub retrieve : Buffer → ℕ → Buffer
unfolding retrieve_all
retrieve b len =
    if ltb len (readable_bytes b)
    then record b { reader_index = add_size b.reader_index len }
    else retrieve_all b

pub retrieve_as_string : Buffer → ℕ → List ℕ × Buffer
retrieve_as_string b len = (peek b len, retrieve b len)

pub retrieve_all_as_string : Buffer → List ℕ × Buffer
retrieve_all_as_string b = retrieve_as_string b (readable_bytes b)

-- `std::vector::resize`: new elements are zero.
abbrev pub resize : List ℕ → ℕ → List ℕ
resize xs n = take n xs ++ replicate (n - length xs) 0

-- The bytes `[begin() + readerIndex_, begin() + writerIndex_)` go to `begin() + CHEAP_PREPEND`.
compact : Buffer → Buffer
compact b = record b {
  bytes = copy_to b.bytes cheap_prepend (peek b (readable_bytes b));
  reader_index = cheap_prepend;
  writer_index = add_size cheap_prepend (readable_bytes b);
}

make_space : Buffer → ℕ → Buffer
make_space b len =
    if ltb (add_size (writable_bytes b) (prependable_bytes b)) (add_size len cheap_prepend)
    then record b { bytes = resize b.bytes (add_size b.writer_index len) }
    else compact b

pub ensure_writable_bytes : Buffer → ℕ → Buffer
ensure_writable_bytes b len = if ltb (writable_bytes b) len then make_space b len else b

-- `begin_write` is where `append` copies to, whatever the vector's size.
pub write_bytes : Buffer → List ℕ → Buffer
write_bytes b src = record b {
  bytes = copy_to b.bytes b.writer_index src;
  writer_index = add_size b.writer_index (length src);
}

pub append : Buffer → List ℕ → Buffer
append b src = write_bytes (ensure_writable_bytes b (length src)) src

-- What `readv`, `write` or `sendfile` gives: a count, or -1 with `errno`.
pub data Io : Type 0 where
  count : ℕ → Io
  fail : ℕ → Io

-- What the kernel does on `readv`: it delivers bytes, or fails with `errno`.
pub data Arrival : Type 0 where
  got : List ℕ → Arrival
  broken : ℕ → Arrival

-- The room that the `iovec`s of `readFd` offer.
pub read_capacity : Buffer → ℕ
read_capacity b =
    if ltb (writable_bytes b) extra_size then writable_bytes b + extra_size else writable_bytes b

-- What does not fit behind `writerIndex_` went to `extrabuf`, and is appended.
pub read_got : Buffer → List ℕ → Buffer
read_got b xs =
    if leb (length xs) (writable_bytes b)
    then write_bytes b xs
    else append
        (record b {
          bytes = copy_to b.bytes b.writer_index (take (writable_bytes b) xs);
          writer_index = length b.bytes;
        })
        (drop (writable_bytes b) xs)

unfoldable pub read_fd : Buffer → Arrival → Io × Buffer
read_fd b (got xs) = (count (length xs), read_got b xs)
read_fd b (broken errno) = (fail errno, b)

-- The kernel is offered the readable bytes, and answers how many it took.
pub write_fd : Buffer → (List ℕ → Io) → Io
write_fd b kernel = kernel (peek b (readable_bytes b))
