-- ===== src/Buffer/Window.antt =====
-- The bytes of a vector between two indices, and what the block operations do to them.
use tcp_server.Base.{
  ℕ, ◌+◌, ◌-◌, ◌≤◌, ◌≡◌, refl, sym, ap, ◌∙◌, List, [], ◌++◌, append_assoc, length, take, drop,
  copy_to, length-append, length-take, length-drop, take_prefix, take_all, take_append_le,
  drop_append_le, drop-drop, drop-take, copy_to_fits, arith, take-zero_of,
}

abbrev pub window : List ℕ → ℕ → ℕ → List ℕ
window xs r w = take (w - r) (drop r xs)

pub length-window : (xs : List ℕ) (r w : ℕ) → r ≤ w → w ≤ length xs → length (window xs r w) ≡ w - r
length-window xs r w h k = omega (arith, length-take (w - r) (drop r xs), length-drop r xs)

pub window_empty : (xs : List ℕ) (r w : ℕ) → w ≤ r → window xs r w ≡ []
window_empty xs r w h = take-zero_of (w - r) (drop r xs) (omega arith)

-- Moving the start of a window drops what it passes.
pub window-drop :
    (xs : List ℕ) (r w n : ℕ) → r + n ≤ w → window xs (r + n) w ≡ drop n (window xs r w)
window-drop xs r w n h = sym (
    drop-take n (w - r) (w - (r + n)) (drop r xs) (omega arith)
    ∙ ap (take (w - (r + n))) (drop-drop r n (r + n) xs refl))

-- What is copied in just behind a window extends it.
pub window_copy :
    (xs : List ℕ) (r w : ℕ) (src : List ℕ)
    → r ≤ w
    → w + length src ≤ length xs
    → window (copy_to xs w src) r (w + length src) ≡ window xs r w ++ src
window_copy xs r w src h k =
    ap (λ (t : List ℕ). window t r (w + length src)) (copy_to_fits xs w src k)
    ∙ ap (take (w + length src - r)) (
        drop_append_le r (take w xs) (src ++ tail) (omega (arith, length-take w xs))
        ∙ ap (λ (t : List ℕ). t ++ (src ++ tail)) (drop-take r w (w - r) xs (omega arith))
        ∙ sym (append_assoc (window xs r w) src tail))
    ∙ take_prefix (w + length src - r) (window xs r w ++ src) tail
        (omega (arith, length-append (window xs r w) src, length-window xs r w h (omega arith)))
  where
    tail : List ℕ
    tail = drop (w + length src) xs

-- A vector that grows keeps its windows.
pub window_grow :
    (xs ys : List ℕ) (r w n : ℕ)
    → r ≤ w
    → w ≤ length xs
    → length xs ≤ n
    → window (take n xs ++ ys) r w ≡ window xs r w
window_grow xs ys r w n h k l =
    ap (λ (t : List ℕ). window (t ++ ys) r w) (take_all n xs l)
    ∙ ap (take (w - r)) (drop_append_le r xs ys (omega arith))
    ∙ take_append_le (w - r) (drop r xs) ys (omega (arith, length-drop r xs))
