-- ===== src/Base/Lists.antt =====
-- Lists measured and cut by native numbers, under the library's names, and the block copy.
use Prim.Native.Nat.{ℕ, zero, suc, ◌+◌, ◌-◌, ◌≤◌, min}
use mathlib.Core.Path.{◌≡◌, refl, ap}
use mathlib.Core.List.{List, [], ◌∷◌, ◌++◌}
use mathlib.Core.Bool.{Bool}
use tcp_server.Base.Tests.{if◌then◌else◌}
use mathlib.Core.Option.{Option, none, some}
use native.Mathlib.Omega.{arith}

-- How many elements pass a test.
abbrev pub tally {ℓ} : {A : Type ℓ} → (A → Bool) → List A → ℕ
tally p [] = 0
tally p (x ∷ xs) = (if p x then 1 else 0) + tally p xs

pub tally-append {ℓ} :
    {A : Type ℓ} (p : A → Bool) (xs ys : List A) → tally p (xs ++ ys) ≡ tally p xs + tally p ys
tally-append p [] ys = omega arith
tally-append p (x ∷ xs) ys = omega (arith, tally-append p xs ys)

module _ {ℓ} {A : Type ℓ} where
  abbrev pub length : List A → ℕ
  length [] = 0
  length (x ∷ xs) = suc (length xs)

  abbrev pub get_elem? : List A → ℕ → Option A
  get_elem? [] i = none
  get_elem? (x ∷ xs) zero = some x
  get_elem? (x ∷ xs) (suc i) = get_elem? xs i

  abbrev pub get_or : List A → ℕ → A → A
  get_or [] i d = d
  get_or (x ∷ xs) zero d = x
  get_or (x ∷ xs) (suc i) d = get_or xs i d

  abbrev pub take : ℕ → List A → List A
  take zero xs = []
  take (suc n) [] = []
  take (suc n) (x ∷ xs) = x ∷ take n xs

  abbrev pub drop : ℕ → List A → List A
  drop zero xs = xs
  drop (suc n) [] = []
  drop (suc n) (x ∷ xs) = drop n xs

  abbrev pub replicate : ℕ → A → List A
  replicate zero a = []
  replicate (suc n) a = a ∷ replicate n a

  pub length-append : (xs ys : List A) → length (xs ++ ys) ≡ length xs + length ys
  length-append [] ys = omega arith
  length-append (x ∷ xs) ys = omega (arith, length-append xs ys)

  pub length-replicate : (n : ℕ) (a : A) → length (replicate n a) ≡ n
  length-replicate zero a = refl
  length-replicate (suc n) a = ap suc (length-replicate n a)

  pub length-take : (n : ℕ) (xs : List A) → length (take n xs) ≡ min n (length xs)
  length-take zero xs = omega arith
  length-take (suc n) [] = omega arith
  length-take (suc n) (x ∷ xs) = omega (arith, length-take n xs)

  pub length-drop : (n : ℕ) (xs : List A) → length (drop n xs) ≡ length xs - n
  length-drop zero xs = omega arith
  length-drop (suc n) [] = omega arith
  length-drop (suc n) (x ∷ xs) = omega (arith, length-drop n xs)

  pub take-append-drop : (n : ℕ) (xs : List A) → take n xs ++ drop n xs ≡ xs
  take-append-drop zero xs = refl
  take-append-drop (suc n) [] = refl
  take-append-drop (suc n) (x ∷ xs) = ap (◌∷◌ x) (take-append-drop n xs)

  pub take-zero_of : (n : ℕ) (xs : List A) → n ≡ 0 → take n xs ≡ []
  take-zero_of zero xs e = refl
  take-zero_of (suc n) xs e = absurd (omega arith)

  pub take_all : (n : ℕ) (xs : List A) → length xs ≤ n → take n xs ≡ xs
  take_all zero [] h = refl
  take_all zero (x ∷ xs) h = absurd (omega arith)
  take_all (suc n) [] h = refl
  take_all (suc n) (x ∷ xs) h = ap (◌∷◌ x) (take_all n xs (omega arith))

  pub drop_all : (n : ℕ) (xs : List A) → length xs ≤ n → drop n xs ≡ []
  drop_all zero [] h = refl
  drop_all zero (x ∷ xs) h = absurd (omega arith)
  drop_all (suc n) [] h = refl
  drop_all (suc n) (x ∷ xs) h = drop_all n xs (omega arith)

  pub take_append_le : (n : ℕ) (xs ys : List A) → n ≤ length xs → take n (xs ++ ys) ≡ take n xs
  take_append_le zero xs ys h = refl
  take_append_le (suc n) [] ys h = absurd (omega arith)
  take_append_le (suc n) (x ∷ xs) ys h = ap (◌∷◌ x) (take_append_le n xs ys (omega arith))

  pub drop_append_le :
      (n : ℕ) (xs ys : List A) → n ≤ length xs → drop n (xs ++ ys) ≡ drop n xs ++ ys
  drop_append_le zero xs ys h = refl
  drop_append_le (suc n) [] ys h = absurd (omega arith)
  drop_append_le (suc n) (x ∷ xs) ys h = drop_append_le n xs ys (omega arith)

  pub take_prefix : (n : ℕ) (xs ys : List A) → n ≡ length xs → take n (xs ++ ys) ≡ xs
  take_prefix zero [] ys h = refl
  take_prefix zero (x ∷ xs) ys h = absurd (omega arith)
  take_prefix (suc n) [] ys h = absurd (omega arith)
  take_prefix (suc n) (x ∷ xs) ys h = ap (◌∷◌ x) (take_prefix n xs ys (omega arith))

  pub drop_prefix : (n : ℕ) (xs ys : List A) → n ≡ length xs → drop n (xs ++ ys) ≡ ys
  drop_prefix zero [] ys h = refl
  drop_prefix zero (x ∷ xs) ys h = absurd (omega arith)
  drop_prefix (suc n) [] ys h = absurd (omega arith)
  drop_prefix (suc n) (x ∷ xs) ys h = drop_prefix n xs ys (omega arith)

  pub take-take : (n m : ℕ) (xs : List A) → n ≤ m → take n (take m xs) ≡ take n xs
  take-take zero m xs h = refl
  take-take (suc n) zero xs h = absurd (omega arith)
  take-take (suc n) (suc m) [] h = refl
  take-take (suc n) (suc m) (x ∷ xs) h = ap (◌∷◌ x) (take-take n m xs (omega arith))

  pub drop-drop : (n m k : ℕ) (xs : List A) → n + m ≡ k → drop m (drop n xs) ≡ drop k xs
  drop-drop zero m k xs e = ap (λ (t : ℕ). drop t xs) (omega arith)
  drop-drop (suc n) zero k [] e = drop_nil k
    where
      drop_nil : (j : ℕ) → ◌≡◌ {A = List A} [] (drop j [])
      drop_nil zero = refl
      drop_nil (suc j) = refl
  drop-drop (suc n) (suc m) zero [] e = refl
  drop-drop (suc n) (suc m) (suc k) [] e = refl
  drop-drop (suc n) m zero (x ∷ xs) e = absurd (omega arith)
  drop-drop (suc n) m (suc k) (x ∷ xs) e = drop-drop n m k xs (omega arith)

  pub drop-take : (n m k : ℕ) (xs : List A) → n + k ≡ m → drop n (take m xs) ≡ take k (drop n xs)
  drop-take zero m k xs e = ap (λ (t : ℕ). take t xs) (omega arith)
  drop-take (suc n) zero k xs e = absurd (omega arith)
  drop-take (suc n) (suc m) zero [] e = refl
  drop-take (suc n) (suc m) (suc k) [] e = refl
  drop-take (suc n) (suc m) k (x ∷ xs) e = drop-take n m k xs (omega arith)

  -- The elements from index `i` on are overwritten by `src`, as `std::copy` does; what would lie
  -- past the end is not written.
  abbrev pub copy_to : List A → ℕ → List A → List A
  copy_to dst i src = take i dst ++ (take (length dst - i) src ++ drop (i + length src) dst)

  pub length-copy_to :
      (dst : List A) (i : ℕ) (src : List A)
      → i ≤ length dst
      → length (copy_to dst i src) ≡ length dst
  length-copy_to dst i src h = omega (
    arith,
    length-append (take i dst) (take (length dst - i) src ++ drop (i + length src) dst),
    length-append (take (length dst - i) src) (drop (i + length src) dst),
    length-take i dst,
    length-take (length dst - i) src,
    length-drop (i + length src) dst,
  )

  -- Where the copy fits, it does no more and no less than replace those elements.
  pub copy_to_fits :
      (dst : List A) (i : ℕ) (src : List A)
      → i + length src ≤ length dst
      → copy_to dst i src ≡ take i dst ++ (src ++ drop (i + length src) dst)
  copy_to_fits dst i src h =
      ap (λ (t : List A). take i dst ++ (t ++ drop (i + length src) dst))
        (take_all (length dst - i) src (omega arith))
