-- ===== src/Util/Search.antt =====
-- log_system/logs_code/Util.hpp: what the searches for a separator find, in a path without backslashes.
use tcp_server.Util.{slash, backslash, is_separator, after, first_in, find_first_of}
use tcp_server.Base.{
  ℕ, zero, suc, ◌+◌, ◌-◌, ◌≤◌, ◌<◌, ◌≡◌, refl, sym, ap, ◌∙◌, ◌≢◌, inl, inr, true, false, Option,
  none, some, List, [], ◌∷◌, ◌++◌, arith, Bool-cases, length, get_elem?, take, drop, length-drop,
}

-- No code of the path is a backslash.
abbrev pub Plain : List ℕ → Type 0
Plain s = (i : ℕ) → get_elem? s i ≢ some backslash

-- The first slash from `index` on.
abbrev pub FirstAt : List ℕ → ℕ → Option ℕ → Type 0
FirstAt s index none = (i : ℕ) → index ≤ i → get_elem? s i ≢ some slash
FirstAt s index (some pos) =
    (index ≤ pos)
    × (pos < length s)
    × (get_elem? s pos ≡ some slash)
    × ((i : ℕ) → index ≤ i → i < pos → get_elem? s i ≢ some slash)

pub at_same : (s : List ℕ) (i j : ℕ) → i ≡ j → get_elem? s i ≡ get_elem? s j
at_same s i j e = ap (get_elem? s) e

pub get-drop : (n i : ℕ) (s : List ℕ) → get_elem? (drop n s) i ≡ get_elem? s (n + i)
get-drop zero i s = at_same s i (0 + i) (omega arith)
get-drop (suc n) i [] = refl
get-drop (suc n) i (c ∷ cs) =
    get-drop n i cs ∙ at_same (c ∷ cs) (suc (n + i)) (suc n + i) (omega arith)

pub get_inside : (s : List ℕ) (i c : ℕ) → get_elem? s i ≡ some c → i < length s
get_inside [] i c e = cc e
get_inside (x ∷ s) zero c e = omega arith
get_inside (x ∷ s) (suc i) c e = omega (arith, get_inside s i c e)

pub get-take : (n i : ℕ) (s : List ℕ) → i < n → get_elem? (take n s) i ≡ get_elem? s i
get-take zero i s h = absurd (omega arith)
get-take (suc n) i [] h = refl
get-take (suc n) zero (c ∷ cs) h = refl
get-take (suc n) (suc i) (c ∷ cs) h = get-take n i cs (omega arith)

pub take_next :
    (n c : ℕ) (s : List ℕ) → get_elem? s n ≡ some c → take (suc n) s ≡ take n s ++ (c ∷ [])
take_next n c [] e = cc e
take_next zero c (x ∷ s) e = ap (λ (z : ℕ). z ∷ []) (cc e)
take_next (suc n) c (x ∷ s) e = ap (◌∷◌ x) (take_next n c s e)

slash_only : (c : ℕ) → is_separator c ≡ true → c ≢ backslash → c ≡ slash
slash_only c e n = ground (arith, n)

not_slash : (c : ℕ) → is_separator c ≡ false → c ≢ slash
not_slash c e = λ h. ground (arith, h)

pub in_tail :
    (c : ℕ) (cs : List ℕ) (i : ℕ)
    → is_separator c ≡ false
    → get_elem? (c ∷ cs) i ≡ some slash
    → (0 < i) × (get_elem? cs (i - 1) ≡ some slash)
in_tail c cs zero e h = absurd (not_slash c e (cc h))
in_tail c cs (suc i) e h = (omega arith, at_same cs (suc i - 1) i (omega arith) ∙ h)

first_in-FirstAt : (s : List ℕ) → Plain s → FirstAt s 0 (first_in s)
unfolding first_in
first_in-FirstAt [] p = λ i h e. cc e
first_in-FirstAt (c ∷ cs) p = elim (Bool-cases (is_separator c)) [
  | inl here ↦ rw here (
    omega arith,
    omega arith,
    ap some (slash_only c here (λ e. p 0 (ap some e))),
    λ i h k e. absurd (omega arith),
  )
  | inr other ↦ rw other (by_rest other (first_in cs) (first_in-FirstAt cs (λ i. p (suc i))))
]
  where
    by_rest :
        is_separator c ≡ false → (r : Option ℕ) → FirstAt cs 0 r → FirstAt (c ∷ cs) 0 (after 1 r)
    by_rest other none f = λ i h e. let t = in_tail c cs i other e in f (i - 1) (omega arith) t.1
    by_rest other (some n) f = (
      omega arith,
      omega (arith, f.1),
      at_same (c ∷ cs) (1 + n) (suc n) (omega arith) ∙ f.2,
      λ i h k e.
          let t = in_tail c cs i other e in f.3 (i - 1) (omega arith) (omega (arith, t.0)) t.1,
    )

pub find_first_of-FirstAt :
    (s : List ℕ) (index : ℕ) → Plain s → FirstAt s index (find_first_of s index)
unfolding find_first_of
find_first_of-FirstAt s index p =
    shifted (first_in (drop index s))
      (first_in-FirstAt (drop index s) (λ i e. p (index + i) (sym (get-drop index i s) ∙ e)))
  where
    shifted : (r : Option ℕ) → FirstAt (drop index s) 0 r → FirstAt s index (after index r)
    shifted none f = λ i h e.
        f (i - index) (omega arith)
          (get-drop index (i - index) s ∙ at_same s (index + (i - index)) i (omega arith) ∙ e)
    shifted (some n) f = (
      omega arith,
      omega (arith, length-drop index s, f.1),
      sym (get-drop index n s) ∙ f.2,
      λ i h k e.
          f.3 (i - index) (omega arith) (omega arith)
            (get-drop index (i - index) s ∙ at_same s (index + (i - index)) i (omega arith) ∙ e),
    )
