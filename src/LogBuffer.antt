-- ===== src/LogBuffer.antt =====
-- log_system/logs_code/AsyncBuffer.hpp: the buffer between the threads that log and the thread that
-- writes the log out. `size_t` and `int` keep their wrap-around.
pub mod Growth
pub mod Tests
use tcp_server.Base.{
  ℕ, ◌+◌, ◌-◌, ◌*◌, ◌%◌, ◌^◌, Bool, Option, none, some, List, ltb, leb, ◌==◌, if◌then◌else◌, length,
  replicate, copy_to, size_mod, add_size, sub_size,
}
use tcp_server.Buffer.{resize}

-- What `Util::JsonData` read from the configuration.
pub record Config : Type 0 where
  pub buffer_size : ℕ
  pub threadhold : ℕ
  pub linear_growth : ℕ

pub record LogBuffer : Type 0 where
  pub bytes : List ℕ
  pub write_pos : ℕ
  pub read_pos : ℕ

unfoldable pub new_log_buffer : Config → LogBuffer
new_log_buffer cfg = record { bytes = replicate cfg.buffer_size 0; write_pos = 0; read_pos = 0 }

unfoldable pub writeable_size : LogBuffer → ℕ
writeable_size b = sub_size (length b.bytes) b.write_pos

unfoldable pub readable_size : LogBuffer → ℕ
readable_size b = sub_size b.write_pos b.read_pos

unfoldable pub is_empty : LogBuffer → Bool
is_empty b = b.write_pos == b.read_pos

-- `int buffer_size = buffer_.size();`, where it is used, is a `size_t` again: the low 32 bits with
-- their sign.
unfoldable pub through_int : ℕ → ℕ
through_int n = if ltb (n % 2 ^ 32) (2 ^ 31) then n % 2 ^ 32 else n % 2 ^ 32 + (size_mod - 2 ^ 32)

-- The size that the vector gets when it grows.
unfoldable pub grown_size : Config → ℕ → ℕ
grown_size cfg size =
    if ltb size cfg.threadhold
    then add_size ((2 * size) % size_mod) (through_int size)
    else add_size cfg.linear_growth (through_int size)

unfoldable pub to_be_enough : Config → LogBuffer → ℕ → LogBuffer
to_be_enough cfg b len =
    if leb (writeable_size b) len
    then record b { bytes = resize b.bytes (grown_size cfg (length b.bytes)) }
    else b

-- The copy of `Push`; `none` is a copy that runs over the end of the vector.
unfoldable pub copy_in : LogBuffer → List ℕ → Option LogBuffer
copy_in b src =
    if leb (b.write_pos + length src) (length b.bytes)
    then some (record b {
      bytes = copy_to b.bytes b.write_pos src;
      write_pos = add_size b.write_pos (length src);
    })
    else none

unfoldable pub push : Config → LogBuffer → List ℕ → Option LogBuffer
push cfg b src = copy_in (to_be_enough cfg b (length src)) src

-- `swap` gives both buffers their new contents.
unfoldable pub swap : LogBuffer → LogBuffer → LogBuffer × LogBuffer
swap a b = (b, a)

unfoldable pub move_read_pos : LogBuffer → ℕ → LogBuffer
move_read_pos b len = record b { read_pos = add_size b.read_pos len }

-- `MoveWirtePos`
unfoldable pub move_write_pos : LogBuffer → ℕ → LogBuffer
move_write_pos b len = record b { write_pos = add_size b.write_pos len }

unfoldable pub reset : LogBuffer → LogBuffer
reset b = record b { write_pos = 0; read_pos = 0 }
