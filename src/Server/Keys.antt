-- ===== src/Server/Keys.antt =====
-- src/TcpServer.cpp: the laws of the map from names to connections.
use tcp_server.Base.{
  ℕ, ◌+◌, ◌≡◌, refl, subst, ◌≢◌, ◌↔◌, true, none, some, List, [], ◌∷◌, arith, if◌then◌else◌,
  same_text, same_text_refl, same_text_sound, length,
}
use tcp_server.Server.{Conn, Map, find, assign, erase}

pub same_text_iff : (xs ys : List ℕ) → (same_text xs ys ≡ true) ↔ (xs ≡ ys)
same_text_iff xs ys = (
  same_text_sound xs ys,
  λ e. subst (λ (t : List ℕ). same_text xs t ≡ true) e (same_text_refl xs),
)

pub find-assign :
    (k j : List ℕ) (c : Conn) (m : Map)
    → find j (assign k c m) ≡ (if same_text k j then some c else find j m)
unfolding find assign
find-assign k j c [] = refl
find-assign k j c ((i, d) ∷ m) =
    ground (arith, same_text_iff k j, same_text_iff i k, same_text_iff i j, find-assign k j c m)

pub find-erase :
    (k j : List ℕ) (m : Map) → find j (erase k m) ≡ (if same_text k j then none else find j m)
unfolding find erase
find-erase k j [] = ground arith
find-erase k j ((i, d) ∷ m) =
    ground (arith, same_text_iff k j, same_text_iff i k, same_text_iff i j, find-erase k j m)

pub length-assign :
    (k : List ℕ) (c : Conn) (m : Map) → find k m ≡ none → length (assign k c m) ≡ length m + 1
unfolding find assign
length-assign k c [] h = omega arith
length-assign k c ((i, d) ∷ m) h = ground (arith, length-assign k c m)

pub find-assign_same : (k : List ℕ) (c : Conn) (m : Map) → find k (assign k c m) ≡ some c
find-assign_same k c m = ground (arith, find-assign k k c m, same_text_iff k k, same_text_refl k)

pub find-assign_other :
    (k j : List ℕ) (c : Conn) (m : Map) → k ≢ j → find j (assign k c m) ≡ find j m
find-assign_other k j c m n = ground (arith, find-assign k j c m, same_text_iff k j)

pub find-erase-none : (k j : List ℕ) (m : Map) → find j m ≡ none → find j (erase k m) ≡ none
find-erase-none k j m e = ground (arith, find-erase k j m)
