-- ===== src/LogFlush/Sinks.antt =====
-- log_system/logs_code/LogFlush.hpp: the sinks of a logger and their flushes. `fopen_works` says
-- whether `fopen` gives a file where one is begun.
use tcp_server.LogFlush.{RollFileFlush, flush}
use tcp_server.LogFlush.Rolling.{logged, IsValid, flush_lem}
use tcp_server.Base.{
  ℕ, ◌+◌, ◌≤◌, ◌<◌, ◌≡◌, refl, sym, ap, subst, ◌∙◌, ◌≢◌, ◌⊎◌, inl, inr, Bool, true, false, Option,
  none, some, List, [], ◌++◌, arith, ◌==◌, if◌then◌else◌, Bool-cases, if_true, if_false, length,
  size_mod,
}

-- `bytes` is what was written to the stream, `in_kernel` how much of it went on to the kernel and
-- `on_disk` how much from there to the disk. `opened` says whether `fs_` is not null.
pub record FileFlush : Type 0 where
  pub opened : Bool
  pub bytes : List ℕ
  pub in_kernel : ℕ
  pub on_disk : ℕ

-- The constructor, after it has asked for the file's directory.
unfoldable pub new_file_flush : Bool → FileFlush
new_file_flush fopen_works = record { opened = fopen_works; bytes = []; in_kernel = 0; on_disk = 0 }

-- `fflush`
unfoldable pub to_kernel : FileFlush → FileFlush
to_kernel f = record f { in_kernel = length f.bytes }

-- `fsync`
unfoldable pub to_disk : FileFlush → FileFlush
to_disk f = record f { on_disk = f.in_kernel }

-- What follows the write, by the configuration's `flush_log`.
unfoldable pub push_on : ℕ → FileFlush → FileFlush
push_on flush_log f =
    if flush_log == 1 then to_kernel f else if flush_log == 2 then to_disk (to_kernel f) else f

-- `FileFlush::Flush`; `none` is the call of `fwrite` with a null pointer.
unfoldable pub file_flush_flush : ℕ → FileFlush → List ℕ → Option FileFlush
file_flush_flush flush_log f src =
    if f.opened then some (push_on flush_log (record f { bytes = f.bytes ++ src })) else none

-- A `LogFlush`, by its class. For the standard output it is what was written.
pub data LogSink : Type 0 where
  stdout_flush : List ℕ → LogSink
  file_flush : FileFlush → LogSink
  roll_file_flush : RollFileFlush → LogSink

abbrev pub sink_map : {A : Type 0} → (A → LogSink) → Option A → Option LogSink
sink_map make none = none
sink_map make (some a) = some (make a)

-- The virtual `Flush`.
unfoldable pub sink_flush : ℕ → Bool → LogSink → List ℕ → Option LogSink
sink_flush flush_log fopen_works (stdout_flush out) src = some (stdout_flush (out ++ src))
sink_flush flush_log fopen_works (file_flush f) src =
    sink_map file_flush (file_flush_flush flush_log f src)
sink_flush flush_log fopen_works (roll_file_flush r) src =
    sink_map roll_file_flush (flush fopen_works r src)

-- All that a sink was given.
abbrev pub sunk : LogSink → List ℕ
sunk (stdout_flush out) = out
sunk (file_flush f) = f.bytes
sunk (roll_file_flush r) = logged r.files

-- A file that could be opened, and whose bytes have gone as far as the configuration wants.
pub record FileIsValid (flush_log : ℕ) (f : FileFlush) : Type 0 where
  pub opened : f.opened ≡ true
  pub kernel : flush_log ≡ 1 ⊎ flush_log ≡ 2 → f.in_kernel ≡ length f.bytes
  pub disk : flush_log ≡ 2 → f.on_disk ≡ length f.bytes

-- What holds of a sink between two flushes of at most `most` bytes each.
abbrev pub SinkIsValid : ℕ → ℕ → LogSink → Type 0
SinkIsValid flush_log most (stdout_flush out) = Unit {0}
SinkIsValid flush_log most (file_flush f) = FileIsValid flush_log f
SinkIsValid flush_log most (roll_file_flush r) = IsValid most r

-- The sink can still begin a file.
abbrev pub HasRoom : LogSink → Type 0
HasRoom (stdout_flush out) = Unit {0}
HasRoom (file_flush f) = Unit {0}
HasRoom (roll_file_flush r) = r.cnt + 1 < size_mod

pub new_file_flush-IsValid : (flush_log : ℕ) → FileIsValid flush_log (new_file_flush true)
unfolding new_file_flush
new_file_flush-IsValid flush_log = record { opened = refl; kernel = λ e. refl; disk = λ e. refl }

-- What a flush of a file gives.
pub file_flush_lem :
    (flush_log : ℕ) (f : FileFlush) (src : List ℕ)
    → FileIsValid flush_log f
    → (g : FileFlush) × (file_flush_flush flush_log f src ≡ some g)
      × FileIsValid flush_log g
      × (g.bytes ≡ f.bytes ++ src)
unfolding file_flush_flush push_on to_disk to_kernel
file_flush_lem flush_log f src v =
    let (valid, same) = by_mode (Bool-cases (flush_log == 1)) (Bool-cases (flush_log == 2)) in
    (push_on flush_log _, if_true f.opened _ none v.opened, valid, same)
  where
    after : FileFlush
    after = record f { bytes = f.bytes ++ src }

    by_mode :
        (flush_log == 1) ≡ true ⊎ (flush_log == 1) ≡ false
        → (flush_log == 2) ≡ true ⊎ (flush_log == 2) ≡ false
        → FileIsValid flush_log (push_on flush_log after)
          × ((push_on flush_log after).bytes ≡ f.bytes ++ src)
    by_mode (inl one) b =
        let mode : push_on flush_log after ≡ to_kernel after = if_true (flush_log == 1) _ _ one in
        let not_two : flush_log ≢ 2 = λ e. ground (arith, one, e) in
        subst (λ g. FileIsValid flush_log g × (g.bytes ≡ f.bytes ++ src)) (sym mode)
          (record { opened = v.opened; kernel = λ e. refl; disk = λ e. absurd (not_two e) }, refl)
    by_mode (inr a) (inl two) =
        let mode : push_on flush_log after ≡ to_disk (to_kernel after) =
          if_false (flush_log == 1) _ _ a ∙ if_true (flush_log == 2) _ _ two in
        subst (λ g. FileIsValid flush_log g × (g.bytes ≡ f.bytes ++ src)) (sym mode)
          (record { opened = v.opened; kernel = λ e. refl; disk = λ e. refl }, refl)
    by_mode (inr a) (inr b) =
        let mode : push_on flush_log after ≡ after =
          if_false (flush_log == 1) _ _ a ∙ if_false (flush_log == 2) _ _ b in
        let neither : ¬ (flush_log ≡ 1 ⊎ flush_log ≡ 2) =
          λ e. elim e [ inl x ↦ ground (arith, a, x) | inr x ↦ ground (arith, b, x) ] in
        subst (λ g. FileIsValid flush_log g × (g.bytes ≡ f.bytes ++ src)) (sym mode)
          (
            record {
              opened = v.opened;
              kernel = λ e. absurd (neither e);
              disk = λ e. absurd (neither (inr e));
            },
            refl,
          )

-- A flush of a valid sink cannot fail while files can be opened. The sink stays valid, and has what
-- it had and the new bytes behind it.
pub sink_flush_lem :
    (flush_log most : ℕ) (k : LogSink) (src : List ℕ)
    → SinkIsValid flush_log most k
    → HasRoom k
    → length src ≤ most
    → (j : LogSink) × (sink_flush flush_log true k src ≡ some j)
      × SinkIsValid flush_log most j
      × (sunk j ≡ sunk k ++ src)
unfolding sink_flush
sink_flush_lem flush_log most (stdout_flush out) src v r h =
    (stdout_flush (out ++ src), refl, tt, refl)
sink_flush_lem flush_log most (file_flush f) src v r h =
    let (g, done, valid, same) = file_flush_lem flush_log f src v in
    (file_flush g, ap (sink_map file_flush) done, valid, same)
sink_flush_lem flush_log most (roll_file_flush r) src v room h =
    let (t, f) = flush_lem most r src v room h in
    (roll_file_flush t, ap (sink_map roll_file_flush) f.done, f.valid, f.more)
