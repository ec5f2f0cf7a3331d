-- ===== src/Util/Paths.antt =====
-- log_system/logs_code/Util.hpp, LogFlush.hpp: the directory of a file name.
use tcp_server.Util.{
  slash, backslash, is_separator, FileSystem, Files, last_of, find_last_of, up_to, path, make_from,
  create_directory,
}
use tcp_server.Util.Search.{Plain, get_inside, get-take, in_tail}
use tcp_server.Util.Failing.{There}
use tcp_server.Util.Directories.{Made, create_directory_lem}
use tcp_server.LogBuffer.{through_int}
use tcp_server.Base.{
  ℕ, zero, suc, ◌+◌, ◌-◌, ◌^◌, ◌≤◌, ◌<◌, ◌≡◌, refl, sym, ap, subst, ◌∙◌, ◌≢◌, ◌⊎◌, inl, inr, true,
  false, Option, none, some, List, [], ◌∷◌, arith, ltb, ◌==◌, ltb→lt, Bool-cases, if_true, if_false,
  length, get_elem?, take, length-take, take-take, size_mod, add_size_exact,
}

-- Where the last slash is.
abbrev LastAt : List ℕ → Option ℕ → Type 0
LastAt s none = (i : ℕ) → get_elem? s i ≢ some slash
LastAt s (some pos) = (pos < length s) × ((i : ℕ) → get_elem? s i ≡ some slash → i ≤ pos)

last_of-LastAt :
    (c : ℕ) (cs : List ℕ) (r : Option ℕ)
    → c ≢ backslash
    → LastAt cs r
    → LastAt (c ∷ cs) (last_of (is_separator c) r)
last_of-LastAt c cs (some n) h l = (omega (arith, l.0), λ i e. place i e)
  where
    place : (i : ℕ) → get_elem? (c ∷ cs) i ≡ some slash → i ≤ n + 1
    place zero e = omega arith
    place (suc i) e = omega (arith, l.1 i e)
last_of-LastAt c cs none h l = elim (Bool-cases (is_separator c)) [
  | inl is ↦ subst (λ b. LastAt (c ∷ cs) (last_of b none)) (sym is) (omega arith, λ i e. place i e)
  | inr is_not ↦ subst (λ b. LastAt (c ∷ cs) (last_of b none)) (sym is_not) (λ i e. no i is_not e)
]
  where
    place : (i : ℕ) → get_elem? (c ∷ cs) i ≡ some slash → i ≤ 0
    place zero e = omega arith
    place (suc i) e = absurd (l i e)

    no : (i : ℕ) → is_separator c ≡ false → get_elem? (c ∷ cs) i ≢ some slash
    no i is_not e = let t = in_tail c cs i is_not e in l (i - 1) t.1

find_last_of-LastAt : (s : List ℕ) → Plain s → LastAt s (find_last_of s)
unfolding find_last_of
find_last_of-LastAt [] h = λ i e. cc e
find_last_of-LastAt (c ∷ cs) h =
    last_of-LastAt c cs (find_last_of cs) (λ e. h 0 (ap some e))
      (find_last_of-LastAt cs (λ i e. h (suc i) e))

take-Plain : (n : ℕ) (s : List ℕ) → Plain s → Plain (take n s)
take-Plain n s h i e =
    let small : i < n = omega (arith, get_inside (take n s) i backslash e, length-take n s) in
    h i (sym (get-take n i s small) ∙ e)

through_int_exact : (n : ℕ) → n < 2 ^ 31 → through_int n ≡ n
unfolding through_int
through_int_exact n h = ground arith

-- What `Path` gives.
path_lem :
    (s : List ℕ)
    → Plain s
    → length s < 2 ^ 31
    → (n : ℕ) × (path s ≡ take n s) × ((i : ℕ) → get_elem? s i ≡ some slash → i < n)
unfolding path
path_lem [] h k = (0, refl, λ i e. cc e)
path_lem (c ∷ cs) h k = by_last (find_last_of (c ∷ cs)) (find_last_of-LastAt (c ∷ cs) h)
  where
    by_last :
        (r : Option ℕ)
        → LastAt (c ∷ cs) r
        → (n : ℕ) × (up_to (c ∷ cs) r ≡ take n (c ∷ cs))
          × ((i : ℕ) → get_elem? (c ∷ cs) i ≡ some slash → i < n)
    by_last none l = (0, refl, λ i e. absurd (l i e))
    by_last (some pos) l =
        let same : through_int pos ≡ pos = through_int_exact pos (omega (arith, l.0)) in
        (
          pos + 1,
          rw same (
              if_false (pos == size_mod - 1) [] _ (ground arith)
              ∙ ap (λ n. take n (c ∷ cs)) (add_size_exact pos 1 (omega (arith, l.0)))),
          λ i e. omega (arith, l.1 i e),
        )

module _ (fs : FileSystem) where
  create_directory_empty :
      (p : List ℕ) (s : Files fs) → length p ≡ 0 → create_directory fs p s ≡ some s
  unfolding create_directory make_from
  create_directory_empty [] s h = elim (Bool-cases (fs.exists s.disk [])) [
    | inl e ↦ if_true (fs.exists s.disk []) _ _ e
    | inr e ↦ if_false (fs.exists s.disk []) _ _ e
  ]
  create_directory_empty (c ∷ cs) s h = absurd (omega arith)

  -- `CreateDirectory(Path(filename))`, for a name shorter than 2 GiB and without backslashes, ends
  -- whatever is there before and whichever calls of `mkdir` fail. After it, for every directory of the
  -- name, `stat` finds it or `mkdir` has failed for it, which the code does not notice.
  pub create_directory-path :
      (filename : List ℕ) (s : Files fs)
      → Plain filename
      → length filename < 2 ^ 31
      → (t : Files fs) × (create_directory fs (path filename) s ≡ some t) × Made fs filename t
  create_directory-path filename s h k =
      let (n, whole, last) = path_lem filename h k in
      by_length n whole last (Bool-cases (ltb 0 (length (path filename))))
    where
      by_length :
          (n : ℕ)
          → path filename ≡ take n filename
          → ((i : ℕ) → get_elem? filename i ≡ some slash → i < n)
          → (ltb 0 (length (path filename)) ≡ true) ⊎ (ltb 0 (length (path filename)) ≡ false)
          → (t : Files fs) × (create_directory fs (path filename) s ≡ some t) × Made fs filename t
      by_length n whole last (inl some_path) =
          let (t, runs, created) =
            create_directory_lem fs (path filename) s
              (subst (λ p. Plain p) (sym whole) (take-Plain n filename h)) (ltb→lt _ _ some_path) in
          (
            t,
            runs,
            λ i j e d.
                let small = last i e in
                let before : get_elem? (path filename) (i - 1) ≡ get_elem? filename (i - 1) =
                  ap (λ p. get_elem? p (i - 1)) whole
                  ∙ get-take n (i - 1) filename (omega (arith, small)) in
                let there : There fs t (take i (take n filename)) =
                  subst (λ p. There fs t (take i p)) whole
                    (created.made i j
                      (ap (λ p. get_elem? p i) whole ∙ get-take n i filename small ∙ e)
                      (λ x. d (sym before ∙ x))) in
                subst (λ p. There fs t p) (take-take i n filename (omega (arith, small))) there,
          )
      by_length n whole last (inr no_path) =
          let none_long : length (path filename) ≡ 0 = ground arith in
          let shorter : length (take n filename) ≡ 0 =
            ap (λ (p : List ℕ). length p) (sym whole) ∙ none_long in
          (
            s,
            create_directory_empty (path filename) s none_long,
            λ i j e d. absurd (
                omega (
                  arith,
                  last i e,
                  get_inside filename i slash e,
                  sym (length-take n filename),
                  shorter,
                )),
          )
