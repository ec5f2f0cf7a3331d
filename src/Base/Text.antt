-- ===== src/Base/Text.antt =====
-- Texts as the lists of their codes.
use Prim.Native.Char.{code}
use Prim.Native.Nat.{ℕ}
use Prim.Native.String.{String}
use mathlib.Core.Bool.{Bool, true, false, ◌&&◌}
use mathlib.Core.List.{List, [], ◌∷◌}
use mathlib.Core.Path.{◌≡◌, refl, ap₂}
use native.Mathlib.Omega.{arith}
use tcp_server.Base.Tests.{◌==◌}

-- The codes of a text, which are its bytes if it is ASCII.
abbrev pub codes : String → List ℕ
codes String.[] = []
codes (String.◌∷◌ c s) = code c ∷ codes s

-- Whether two texts are equal.
abbrev pub same_text : List ℕ → List ℕ → Bool
same_text [] [] = true
same_text (a ∷ s) (b ∷ t) = a == b && same_text s t
same_text _ _ = false

pub same_text_refl : (s : List ℕ) → same_text s s ≡ true
same_text_refl [] = refl
same_text_refl (a ∷ s) = ground (arith, same_text_refl s)

both : (a b : Bool) → (a && b) ≡ true → (a ≡ true) × (b ≡ true)
both true b e = (refl, e)
both false b e = cc e

pub same_text_sound : (s t : List ℕ) → same_text s t ≡ true → s ≡ t
same_text_sound [] [] e = refl
same_text_sound [] (b ∷ t) e = cc e
same_text_sound (a ∷ s) [] e = cc e
same_text_sound (a ∷ s) (b ∷ t) e =
    let (x, y) = both (a == b) (same_text s t) e in
    let head : a ≡ b = ground (arith, x) in ap₂ ◌∷◌ head (same_text_sound s t y)
