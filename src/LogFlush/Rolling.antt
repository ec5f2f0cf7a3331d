-- ===== src/LogFlush/Rolling.antt =====
-- log_system/logs_code/LogFlush.hpp: rolling loses nothing, keeps the files small, and gives each
-- file a number of its own.
use tcp_server.LogFlush.{
  LogFile, RollFileFlush, new_roll_file_flush, next_file, init_log_file, write_last, write_out,
  flush, flush_all,
}
use tcp_server.Base.{
  ℕ, zero, suc, ◌+◌, ◌≤◌, ◌<◌, ◌≡◌, refl, sym, ap, subst, ◌∙◌, inl, inr, true, not, ◌||◌, none,
  some, List, [], ◌∷◌, ◌++◌, append-nil, append_assoc, arith, leb, Bool-cases, if_true, if_false,
  length, length-append, size_mod, add_size, add_size_exact,
}

-- The bytes of all files, in the order in which they were written.
abbrev pub logged : List LogFile → List ℕ
logged [] = []
logged (f ∷ fs) = logged fs ++ f.bytes

-- The size of the newest file.
abbrev pub last_size : List LogFile → ℕ
last_size [] = 0
last_size (f ∷ fs) = length f.bytes

-- The numbers of the files go up by one from 1 to `n`, and no file is longer than `bound`.
abbrev pub Numbered : ℕ → ℕ → List LogFile → Type 0
Numbered bound n [] = n ≡ 0
Numbered bound zero (f ∷ fs) = ⊥
Numbered bound (suc n) (f ∷ fs) =
    (f.number ≡ suc n) × (length f.bytes ≤ bound) × Numbered bound n fs

-- No piece is longer than `most`.
abbrev pub NoLonger : ℕ → List (List ℕ) → Type 0
NoLonger most [] = Unit {0}
NoLonger most (src ∷ rest) = (length src ≤ most) × NoLonger most rest

-- The pieces one after another.
abbrev pub concat : List (List ℕ) → List ℕ
concat [] = []
concat (src ∷ rest) = src ++ concat rest

-- What holds between two flushes of at most `most` bytes.
pub record IsValid (most : ℕ) (r : RollFileFlush) : Type 0 where
  pub size : r.cur_size ≡ last_size r.files
  pub numbered : Numbered (r.max_size + most) r.cnt r.files
  pub some_file : r.opened ≡ true → 0 < r.cnt
  pub small : r.max_size + most < size_mod

pub new_roll_file_flush-IsValid :
    (most max_size : ℕ) → max_size + most < size_mod → IsValid most (new_roll_file_flush max_size)
unfolding new_roll_file_flush
new_roll_file_flush-IsValid most max_size h = record {
  size = refl;
  numbered = refl;
  some_file = λ e. cc e;
  small = h;
}

-- What a flush leaves.
pub record Flushed (most : ℕ) (r : RollFileFlush) (src : List ℕ) (t : RollFileFlush) : Type 0 where
  pub done : flush true r src ≡ some t
  pub valid : IsValid most t
  pub more : logged t.files ≡ logged r.files ++ src
  pub max_size : t.max_size ≡ r.max_size
  pub cnt : t.cnt ≤ r.cnt + 1

logged-write_last :
    (src : List ℕ) (fs : List LogFile)
    → 0 < length fs
    → logged (write_last src fs) ≡ logged fs ++ src
logged-write_last src [] h = ground arith
logged-write_last src (f ∷ fs) h = sym (append_assoc (logged fs) f.bytes src)

last_size-write_last :
    (src : List ℕ) (fs : List LogFile)
    → 0 < length fs
    → last_size (write_last src fs) ≡ last_size fs + length src
last_size-write_last src [] h = ground arith
last_size-write_last src (f ∷ fs) h = length-append f.bytes src

Numbered-write_last :
    (bound n : ℕ) (src : List ℕ) (fs : List LogFile)
    → last_size fs + length src ≤ bound
    → Numbered bound n fs
    → Numbered bound n (write_last src fs)
Numbered-write_last bound n src [] h v = v
Numbered-write_last bound (suc n) src (f ∷ fs) h v =
    (v.0, omega (arith, length-append f.bytes src), v.2)
Numbered-write_last bound zero src (f ∷ fs) h v = elim v [ ]

some_files : (bound n : ℕ) (fs : List LogFile) → Numbered bound n fs → 0 < n → 0 < length fs
some_files bound n [] v h = omega arith
some_files bound zero (f ∷ fs) v h = elim v [ ]
some_files bound (suc n) (f ∷ fs) v h = omega arith

Numbered-cons :
    (bound n m : ℕ) (fs : List LogFile)
    → m ≡ suc n
    → Numbered bound n fs
    → Numbered bound m (record { number = m; bytes = [] } ∷ fs)
Numbered-cons bound n m fs e v =
    subst (λ k. Numbered bound k (record { number = k; bytes = [] } ∷ fs)) (sym e)
      (refl, omega arith, v)

-- The newest file takes the bytes.
written :
    (most : ℕ) (i : RollFileFlush) (src : List ℕ)
    → IsValid most i
    → i.opened ≡ true
    → i.cur_size ≤ i.max_size
    → length src ≤ most
    → let t : RollFileFlush = record i {
      files = write_last src i.files;
      cur_size = add_size i.cur_size (length src);
    } in
      (write_out src i ≡ some t) × IsValid most t × (logged t.files ≡ logged i.files ++ src)
unfolding write_out
written most i src v o b h =
    let here = some_files (i.max_size + most) i.cnt i.files v.numbered (v.some_file o) in
    (
      if_true i.opened _ none o,
      record {
        size =
            add_size_exact i.cur_size (length src) (omega (arith, v.small))
            ∙ ap (λ n. n + length src) v.size
            ∙ sym (last_size-write_last src i.files here);
        numbered =
            Numbered-write_last (i.max_size + most) i.cnt src i.files (omega (arith, v.size))
              v.numbered;
        some_file = v.some_file;
        small = v.small;
      },
      logged-write_last src i.files here,
    )

begun :
    (most : ℕ) (r : RollFileFlush)
    → IsValid most r
    → r.cnt + 1 < size_mod
    → IsValid most (next_file true r) × (logged (next_file true r).files ≡ logged r.files)
unfolding next_file
begun most r v h =
    let up : add_size r.cnt 1 ≡ suc r.cnt = add_size_exact r.cnt 1 h ∙ omega arith in
    (
      record {
        size = refl;
        numbered = Numbered-cons (r.max_size + most) r.cnt (add_size r.cnt 1) r.files up v.numbered;
        some_file = λ e. omega (arith, up);
        small = v.small;
      },
      append-nil (logged r.files),
    )

-- A flush of at most `most` bytes adds them behind all that was logged, whether it begins a new file
-- or not, and leaves every file with at most `most` bytes more than the limit.
pub flush_lem :
    (most : ℕ) (r : RollFileFlush) (src : List ℕ)
    → IsValid most r
    → r.cnt + 1 < size_mod
    → length src ≤ most
    → (t : RollFileFlush) × Flushed most r src t
unfolding flush init_log_file next_file
flush_lem most r src v c h = elim (Bool-cases (not r.opened || leb r.max_size r.cur_size)) [
  | inl full ↦
      let i = next_file true r in
      let (u, same) = begun most r v c in
      let (d, w, more) = written most i src u refl (omega arith) h in
      (
        _,
        record {
          done = ap (write_out src) (if_true _ i r full) ∙ d;
          valid = w;
          more = more ∙ ap (λ z. z ++ src) same;
          max_size = refl;
          cnt = omega (arith, add_size_exact r.cnt 1 c);
        },
      )
  | inr room ↦
      let opened : r.opened ≡ true = ground arith in
      let below : r.cur_size ≤ r.max_size = ground arith in
      let (d, w, more) = written most r src v opened below h in
      (
        _,
        record {
          done = ap (write_out src) (if_false _ (next_file true r) r room) ∙ d;
          valid = w;
          more = more;
          max_size = refl;
          cnt = omega arith;
        },
      )
]

-- However often a valid sink is flushed, with at most `most` bytes each time and with files that
-- can be opened, as long as their number fits in a `size_t`: all that was flushed is in the files
-- in order, the files are numbered from 1 on without a gap, and none is longer than the limit by
-- more than `most`.
pub flush_all_lem :
    (most : ℕ) (r : RollFileFlush) (xs : List (List ℕ))
    → IsValid most r
    → r.cnt + length xs < size_mod
    → NoLonger most xs
    → (t : RollFileFlush) × (flush_all r xs ≡ some t)
      × (logged t.files ≡ logged r.files ++ concat xs)
      × Numbered (r.max_size + most) t.cnt t.files
unfolding flush_all
flush_all_lem most r [] v c h = (r, refl, sym (append-nil (logged r.files)), v.numbered)
flush_all_lem most r (src ∷ rest) v c h =
    let (t, f) = flush_lem most r src v (omega arith) h.0 in
    let (u, done, more, numbered) = flush_all_lem most t rest f.valid (omega (arith, f.cnt)) h.1 in
    (
      u,
      ap (λ o. elim o [ none ↦ none | some z ↦ flush_all z rest ]) f.done ∙ done,
      more ∙ ap (λ z. z ++ concat rest) f.more ∙ append_assoc (logged r.files) src (concat rest),
      subst (λ m. Numbered (m + most) u.cnt u.files) f.max_size numbered,
    )
