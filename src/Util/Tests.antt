-- ===== src/Util/Tests.antt =====
-- The theorems about directories and the configuration at a concrete file system and a concrete reader
-- of configurations.
use tcp_server.Util.{slash, backslash, FileSystem, Files, path, create_directory}
use tcp_server.Util.Search.{Plain}
use tcp_server.Util.Directories.{Made}
use tcp_server.Util.Paths.{create_directory-path}
use tcp_server.Util.Settings.{Json, log_config, new_json_data, never_doubles}
use tcp_server.LogBuffer.{through_int, grown_size}
use tcp_server.Base.{
  ltb, ℕ, zero, suc, ◌≡◌, refl, ap, ◌≢◌, Bool, true, false, not, ◌&&◌, ◌||◌, Option, none, some,
  List, [], ◌∷◌, arith, ◌==◌, if◌then◌else◌, if_false, codes, length, get_elem?, take, add_size,
}

both : (a b : Bool) → (a && b) ≡ true → (a ≡ true) × (b ≡ true)
both true b e = (refl, e)
both false b e = cc e

abbrev only_slashes : List ℕ → Bool
only_slashes [] = true
only_slashes (c ∷ cs) = c == slash && only_slashes cs

only_slashes-take : (p : List ℕ) (i : ℕ) → only_slashes p ≡ true → only_slashes (take i p) ≡ true
only_slashes-take p zero e = refl
only_slashes-take [] (suc i) e = refl
only_slashes-take (c ∷ cs) (suc i) e =
    let (x, y) = both (c == slash) (only_slashes cs) e in rw x (only_slashes-take cs i y)

makes : (s t r : Bool) → t ≡ true → ((s || t) || r) ≡ true
makes true t r e = refl
makes false true r e = refl
makes false false r e = cc e

-- At first there is only the root. A call of `mkdir` makes all there is, unless the name is too long.
abbrev one_tree : FileSystem
one_tree = record {
  State = Bool;
  exists = λ on p. on || only_slashes p;
  mkdir = λ p on. (ltb (length p) 100, on || ltb (length p) 100);
  mkdir_keeps = λ p q s e. keeps s (ltb (length p) 100) (only_slashes q) e;
  mkdir_makes = λ p s e. makes s (ltb (length p) 100) (only_slashes p) e;
  exists_prefix = λ p i s e h k. prefix s p i e;
}
  where
    prefix :
        (s : Bool) (p : List ℕ) (i : ℕ)
        → (s || only_slashes p) ≡ true
        → (s || only_slashes (take i p)) ≡ true
    prefix true p i e = refl
    prefix false p i e = only_slashes-take p i e

    keeps : (s t r : Bool) → (s || r) ≡ true → ((s || t) || r) ≡ true
    keeps true t r e = refl
    keeps false true r e = refl
    keeps false false r e = e

abbrev bare_root : Files one_tree
bare_root = record { disk = false; failed = [] }

-- ./a/b.log
abbrev log_name : List ℕ
log_name = codes "./a/b.log"

abbrev plain_text : List ℕ → Bool
plain_text [] = true
plain_text (c ∷ cs) = not (c == backslash) && plain_text cs

plain_text-Plain : (s : List ℕ) → plain_text s ≡ true → Plain s
plain_text-Plain [] e = λ i h. cc h
plain_text-Plain (c ∷ cs) e = λ i h.
    let (x, y) = both (not (c == backslash)) (plain_text cs) e in
    by_place x (plain_text-Plain cs y) i h
  where
    by_place :
        not (c == backslash) ≡ true → Plain cs → (i : ℕ) → get_elem? (c ∷ cs) i ≢ some backslash
    by_place x p zero h = let same : c ≡ backslash = cc h in ground (arith, same, x)
    by_place x p (suc i) h = p i h

create_directory-path_example :
    (t : Files one_tree) × (create_directory one_tree (path log_name) bare_root ≡ some t)
    × Made one_tree log_name t
create_directory-path_example =
    create_directory-path one_tree log_name bare_root (plain_text-Plain log_name refl) (omega arith)

-- A file of `n` bytes sets `linear_growth`, the only key of its length, to `n`.
abbrev by_length : Json
by_length = record {
  Value = Option ℕ;
  parse = λ c. some (length c);
  is_member = λ v key. length key == 13;
  member = λ v key. if length key == 13 then v else none;
  as_size = number;
  as_string = λ v. [];
  missing = λ v key e. ap number (if_false (length key == 13) v none e);
}
  where
    number : Option ℕ → ℕ
    number none = 0
    number (some n) = n

never_doubles_example :
    grown_size (log_config (new_json_data by_length (some (codes "seven..")))) 64
    ≡ add_size (new_json_data by_length (some (codes "seven.."))).linear_growth (through_int 64)
never_doubles_example = never_doubles by_length (some (codes "seven..")) 64 (λ c e. refl)
