-- ===== src/LogFlush.antt =====
-- log_system/logs_code/LogFlush.hpp: the sink that begins a new file when the last one is full.
-- `fwrite` writes all that it is given or reports an error, which the code only prints; the model
-- has the first case.
pub mod Rolling
pub mod Sinks
pub mod Filenames
mod Tests
use tcp_server.Base.{
  ℕ, Bool, true, false, not, ◌||◌, Option, none, some, List, [], ◌∷◌, ◌++◌, leb, if◌then◌else◌,
  length, add_size,
}

-- A file that was written, by the number in its name.
pub record LogFile : Type 0 where
  pub number : ℕ
  pub bytes : List ℕ

-- `files` lists the files that were begun, the newest first; `opened` says whether `fs_` is not null.
pub record RollFileFlush : Type 0 where
  pub cnt : ℕ
  pub cur_size : ℕ
  pub max_size : ℕ
  pub opened : Bool
  pub files : List LogFile

unfoldable pub new_roll_file_flush : ℕ → RollFileFlush
new_roll_file_flush max_size = record {
  cnt = 0;
  cur_size = 0;
  max_size = max_size;
  opened = false;
  files = [];
}

-- The part of `InitLogFile` that begins a file; `fopen_works` says whether `fopen` gave one.
unfoldable pub next_file : Bool → RollFileFlush → RollFileFlush
next_file fopen_works r = record r {
  cnt = add_size r.cnt 1;
  cur_size = 0;
  opened = fopen_works;
  files =
      if fopen_works then record { number = add_size r.cnt 1; bytes = [] } ∷ r.files else r.files;
}

unfoldable pub init_log_file : Bool → RollFileFlush → RollFileFlush
init_log_file fopen_works r =
    if not r.opened || leb r.max_size r.cur_size then next_file fopen_works r else r

-- `fwrite` to the newest file.
abbrev pub write_last : List ℕ → List LogFile → List LogFile
write_last src [] = []
write_last src (f ∷ fs) = record f { bytes = f.bytes ++ src } ∷ fs

-- The rest of `Flush`; `none` is the call of `fwrite` with a null pointer.
unfoldable pub write_out : List ℕ → RollFileFlush → Option RollFileFlush
write_out src i =
    if i.opened
    then some
        (record i { files = write_last src i.files; cur_size = add_size i.cur_size (length src) })
    else none

-- `Flush`
unfoldable pub flush : Bool → RollFileFlush → List ℕ → Option RollFileFlush
flush fopen_works r src = write_out src (init_log_file fopen_works r)

-- One flush after another, for as long as files can be opened.
unfoldable pub flush_all : RollFileFlush → List (List ℕ) → Option RollFileFlush
flush_all r [] = some r
flush_all r (src ∷ rest) = elim (flush true r src) [ none ↦ none | some t ↦ flush_all t rest ]
