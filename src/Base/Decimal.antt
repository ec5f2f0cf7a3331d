-- ===== src/Base/Decimal.antt =====
-- `std::to_string` of an unsigned number, as the codes of its digits, and that it can be read back.
use Prim.Native.Nat.{ℕ, zero, suc, ◌+◌, ◌-◌, ◌*◌, ◌/◌, ◌%◌, ◌^◌, ◌≤◌, ◌<◌}
use mathlib.Core.Path.{◌≡◌, refl, sym, ap, ◌∙◌}
use mathlib.Core.Bool.{true}
use mathlib.Core.Logic.{inl, inr}
use mathlib.Core.List.{List, [], ◌∷◌, ◌++◌}
use native.Mathlib.Omega.{arith}
use tcp_server.Base.Lists.{length, length-append}
use tcp_server.Base.Tests.{ltb, ltb→le, if◌then◌else◌, Bool-cases}

-- `fuel` is more than the number of digits.
digits : ℕ → ℕ → List ℕ
digits zero n = []
digits (suc fuel) n =
    let rest = digits fuel (n / 10) in
    if ltb n 10 then (48 + n) ∷ [] else rest ++ ((48 + n % 10) ∷ [])

unfoldable pub to_string : ℕ → List ℕ
unfolding digits
to_string n = digits (n + 1) n

-- Reading the digits from the left.
read_from : ℕ → List ℕ → ℕ
read_from acc [] = acc
read_from acc (d ∷ ds) = read_from (acc * 10 + (d - 48)) ds

read_from-append :
    (acc d : ℕ) (ds : List ℕ) → read_from acc (ds ++ (d ∷ [])) ≡ read_from acc ds * 10 + (d - 48)
unfolding read_from
read_from-append acc d [] = refl
read_from-append acc d (x ∷ ds) = read_from-append (acc * 10 + (x - 48)) d ds

read_from-one : (m : ℕ) → read_from 0 ((48 + m) ∷ []) ≡ m
unfolding read_from
read_from-one m = omega arith

read_from-digits : (fuel n : ℕ) → n < fuel → read_from 0 (digits fuel n) ≡ n
unfolding digits
read_from-digits zero n h = absurd (omega arith)
read_from-digits (suc fuel) n h = elim (Bool-cases (ltb n 10)) [
  | inl e ↦ rw e (read_from-one n)
  | inr e ↦
      let big = ltb→le n 10 e in
      rw e (
        read_from-append 0 (48 + n % 10) (digits fuel (n / 10))
        ∙ omega (arith, read_from-digits fuel (n / 10) (omega arith)))
]

-- Different numbers have different digits.
pub to_string_injective : (m n : ℕ) → to_string m ≡ to_string n → m ≡ n
unfolding to_string
to_string_injective m n e =
    sym (read_from-digits (m + 1) m (omega arith))
    ∙ ap (read_from 0) e
    ∙ read_from-digits (n + 1) n (omega arith)

-- Every code is that of a digit.
abbrev pub Digits : List ℕ → Type 0
Digits [] = Unit {0}
Digits (d ∷ ds) = (48 ≤ d) × (d < 58) × Digits ds

append-Digits : (xs ys : List ℕ) → Digits xs → Digits ys → Digits (xs ++ ys)
append-Digits [] ys h k = k
append-Digits (x ∷ xs) ys h k = (h.0, h.1, append-Digits xs ys h.2 k)

digits-Digits : (fuel n : ℕ) → Digits (digits fuel n)
unfolding digits
digits-Digits zero n = tt
digits-Digits (suc fuel) n = elim (Bool-cases (ltb n 10)) [
  | inl e ↦ rw e (omega arith, ground arith, tt)
  | inr e ↦ rw e (
      append-Digits (digits fuel (n / 10)) ((48 + n % 10) ∷ []) (digits-Digits fuel (n / 10))
        (omega arith, omega arith, tt))
]

pub to_string-Digits : (n : ℕ) → Digits (to_string n)
unfolding to_string
to_string-Digits n = digits-Digits (n + 1) n

length-digits_one : (fuel n : ℕ) → n < 10 → length (digits fuel n) ≤ 1
unfolding digits
length-digits_one zero n h = omega arith
length-digits_one (suc fuel) n h = let one : ltb n 10 ≡ true = ground arith in rw one (omega arith)

length-digits_more :
    (fuel n m : ℕ) → ((f : ℕ) → length (digits f (n / 10)) ≤ m) → length (digits fuel n) ≤ m + 1
unfolding digits
length-digits_more zero n m h = omega arith
length-digits_more (suc fuel) n m h = elim (Bool-cases (ltb n 10)) [
  | inl e ↦ rw e (omega arith)
  | inr e ↦ rw e (omega (arith, length-append (digits fuel (n / 10)) ((48 + n % 10) ∷ []), h fuel))
]

-- A 16-bit number has at most five digits.
pub length-to_string : (n : ℕ) → n < 2 ^ 16 → length (to_string n) ≤ 5
unfolding to_string
length-to_string n h = length-digits_more (n + 1) n 4 (λ f. length-digits_more f (n / 10) 3 (λ f.
    length-digits_more f (n / 10 / 10) 2 (λ f.
      length-digits_more f (n / 10 / 10 / 10) 1
        (λ f. length-digits_one f (n / 10 / 10 / 10 / 10) (omega arith)))))
