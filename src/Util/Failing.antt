-- ===== src/Util/Failing.antt =====
-- log_system/logs_code/Util.hpp: the calls of `mkdir` in `CreateDirectory`, whose results it does not look at.
use tcp_server.Util.{FileSystem, Files, call_mkdir}
use tcp_server.Base.{
  ℕ, ◌≡◌, refl, sym, ap, ◌∙◌, inl, inr, true, false, List, [], ◌∷◌, ◌++◌, if◌then◌else◌, Bool-cases,
  if_false, Bool, ◌||◌, same_text, same_text_refl,
}

-- Whether a path is in a list.
abbrev pub one_of : List ℕ → List (List ℕ) → Bool
one_of q [] = false
one_of q (p ∷ ps) = same_text p q || one_of q ps

pub or_left : (a b : Bool) → a ≡ true → (a || b) ≡ true
or_left true b e = refl
or_left false b e = cc e

or_right : (a b : Bool) → b ≡ true → (a || b) ≡ true
or_right true b e = refl
or_right false b e = e

one_of-append :
    (q p : List ℕ) (ps : List (List ℕ)) → one_of q ps ≡ true → one_of q (ps ++ (p ∷ [])) ≡ true
one_of-append q p [] e = cc e
one_of-append q p (x ∷ ps) e = elim (Bool-cases (same_text x q)) [
  | inl same ↦ or_left _ _ same
  | inr other ↦
      or_right _ _ (one_of-append q p ps (sym (ap (λ (b : Bool). b || one_of q ps) other) ∙ e))
]

one_of-if :
    (b : Bool) (q p : List ℕ) (ps : List (List ℕ))
    → one_of q ps ≡ true
    → one_of q (if b then ps else ps ++ (p ∷ [])) ≡ true
one_of-if true q p ps e = e
one_of-if false q p ps e = one_of-append q p ps e

one_of_last : (p : List ℕ) (ps : List (List ℕ)) → one_of p (ps ++ (p ∷ [])) ≡ true
one_of_last p [] = or_left _ _ (same_text_refl p)
one_of_last p (x ∷ ps) = or_right _ _ (one_of_last p ps)

module _ (fs : FileSystem) where
  -- `stat` finds the path, or `mkdir` has failed for it.
  abbrev pub There : Files fs → List ℕ → Type 0
  There s q = (fs.exists s.disk q || one_of q s.failed) ≡ true

  pub call-There : (p q : List ℕ) (s : Files fs) → There s q → There (call_mkdir fs p s) q
  unfolding call_mkdir
  call-There p q s h = elim (Bool-cases (fs.exists s.disk q)) [
    | inl e ↦ or_left _ _ (fs.mkdir_keeps p q s.disk e)
    | inr e ↦ or_right _ _ (
        one_of-if (fs.mkdir p s.disk).0 q p s.failed
          (sym (ap (λ (b : Bool). b || one_of q s.failed) e) ∙ h))
  ]

  pub made-There : (p : List ℕ) (s : Files fs) → There (call_mkdir fs p s) p
  unfolding call_mkdir
  made-There p s = elim (Bool-cases (fs.mkdir p s.disk).0) [
    | inl works ↦ or_left _ _ (fs.mkdir_makes p s.disk works)
    | inr fails ↦
        or_right _ _
          (ap (one_of p) (if_false (fs.mkdir p s.disk).0 s.failed _ fails) ∙ one_of_last p s.failed)
  ]
