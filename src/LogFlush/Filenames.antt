-- ===== src/LogFlush/Filenames.antt =====
-- log_system/logs_code/LogFlush.hpp: the names of the rolled files.
use tcp_server.Base.{
  to_string, to_string_injective, Digits, to_string-Digits, ℕ, ◌+◌, ◌≡◌, refl, sym, ap, ◌∙◌, ◌≢◌,
  Option, none, some, List, [], ◌∷◌, ◌++◌, arith, ◌==◌, if◌then◌else◌, if_false, codes, length,
  take, length-append, take_prefix,
}

-- A local time, as `localtime_r` gives it.
pub record Time : Type 0 where
  pub tm_year : ℕ
  pub tm_mon : ℕ
  pub tm_mday : ℕ
  pub tm_hour : ℕ
  pub tm_min : ℕ
  pub tm_sec : ℕ

-- The part of the name before the number.
unfoldable pub stem : List ℕ → Time → List ℕ
stem basename t =
    basename
    ++ (codes "_"
        ++ (to_string (t.tm_year + 1900)
            ++ (to_string (t.tm_mon + 1)
                ++ (to_string t.tm_mday
                    ++ (to_string t.tm_hour ++ (to_string t.tm_min ++ to_string t.tm_sec))))))

-- `CreateFilename`, with the number that the file gets.
unfoldable pub create_filename : List ℕ → Time → ℕ → List ℕ
create_filename basename t cnt = stem basename t ++ (codes "-" ++ (to_string cnt ++ codes ".log"))

-- What follows the last dash.
abbrev by_rest : ℕ → List ℕ → Option (List ℕ) → Option (List ℕ)
by_rest c cs none = if c == b'-' then some cs else none
by_rest c cs (some r) = some r

abbrev after_dash : List ℕ → Option (List ℕ)
after_dash [] = none
after_dash (c ∷ cs) = by_rest c cs (after_dash cs)

abbrev NoDash : List ℕ → Type 0
NoDash [] = Unit {0}
NoDash (c ∷ cs) = (c ≢ b'-') × NoDash cs

NoDash-after_dash : (s : List ℕ) → NoDash s → after_dash s ≡ none
NoDash-after_dash [] h = refl
NoDash-after_dash (c ∷ cs) h =
    ap (by_rest c cs) (NoDash-after_dash cs h.1)
    ∙ if_false (c == b'-') (some cs) none (ground (arith, h.0))

after_dash_lem : (s t : List ℕ) → NoDash t → after_dash (s ++ (b'-' ∷ t)) ≡ some t
after_dash_lem [] t h = ap (by_rest b'-' t) (NoDash-after_dash t h)
after_dash_lem (c ∷ s) t h = ap (by_rest c (s ++ (b'-' ∷ t))) (after_dash_lem s t h)

Digits-NoDash : (s t : List ℕ) → Digits s → NoDash t → NoDash (s ++ t)
Digits-NoDash [] t h k = k
Digits-NoDash (c ∷ s) t h k = (omega (arith, h.0), Digits-NoDash s t h.2 k)

log-NoDash : NoDash (codes ".log")
log-NoDash = (omega arith, (omega arith, (omega arith, (omega arith, tt))))

-- The digits before a suffix of four.
before_log : (s t : List ℕ) → s ++ codes ".log" ≡ t ++ codes ".log" → s ≡ t
before_log s t e =
    let same : length s ≡ length t = omega (
      arith,
      length-append s (codes ".log"),
      length-append t (codes ".log"),
      ap (λ (z : List ℕ). length z) e,
    ) in
    sym (take_prefix (length s) s (codes ".log") refl)
    ∙ ap (take (length s)) e
    ∙ take_prefix (length s) t (codes ".log") same

-- Files of one sink with different numbers have different names, whatever the times at which they were
-- begun.
pub create_filename_differ :
    (basename : List ℕ) (s t : Time) (m n : ℕ)
    → m ≢ n
    → create_filename basename s m ≢ create_filename basename t n
unfolding create_filename
create_filename_differ basename s t m n d e =
    let last : (k : ℕ) → NoDash (to_string k ++ codes ".log") =
      λ k. Digits-NoDash (to_string k) (codes ".log") (to_string-Digits k) log-NoDash in
    let same : some (to_string m ++ codes ".log") ≡ some (to_string n ++ codes ".log") =
      sym (after_dash_lem (stem basename s) (to_string m ++ codes ".log") (last m))
      ∙ ap after_dash e
      ∙ after_dash_lem (stem basename t) (to_string n ++ codes ".log") (last n) in
    d (to_string_injective m n (before_log (to_string m) (to_string n) (cc same)))
