-- ===== src/Util.antt =====
-- log_system/logs_code/Util.hpp: paths, directories, and the configuration. A text is a list of codes.
pub mod Search
pub mod Failing
pub mod Directories
pub mod Paths
pub mod Settings
pub mod Content
mod Tests
use tcp_server.Base.{
  ℕ, zero, suc, ◌+◌, ◌-◌, ◌<◌, ◌≡◌, Bool, true, false, ◌||◌, Option, none, some, List, [], ◌∷◌,
  ◌++◌, ltb, ◌==◌, if◌then◌else◌, length, get_elem?, take, drop, size_mod, add_size,
}
use tcp_server.LogBuffer.{through_int}

abbrev pub slash : ℕ
slash = 47

abbrev pub backslash : ℕ
backslash = 92

abbrev pub is_separator : ℕ → Bool
is_separator c = c == slash || c == backslash

-- The file system, as far as the code relies on it. `exists` is whether `stat` succeeds; `mkdir` says
-- whether it succeeds, which may fail for any reason. It removes nothing, and where it succeeds the path
-- is there; where `stat` finds a path it finds the part of it before any slash.
pub record FileSystem : Type 1 where
  pub State : Type 0
  pub exists : State → List ℕ → Bool
  pub mkdir : List ℕ → State → Bool × State
  pub mkdir_keeps : (p q : List ℕ) (s : State) → exists s q ≡ true → exists (mkdir p s).1 q ≡ true
  pub mkdir_makes : (p : List ℕ) (s : State) → (mkdir p s).0 ≡ true → exists (mkdir p s).1 p ≡ true
  pub exists_prefix :
      (p : List ℕ) (i : ℕ) (s : State)
      → exists s p ≡ true
      → 0 < i
      → get_elem? p i ≡ some slash
      → exists s (take i p) ≡ true

abbrev pub after : ℕ → Option ℕ → Option ℕ
after n none = none
after n (some m) = some (n + m)

-- The position of the first separator, `none` for `npos`.
unfoldable pub first_in : List ℕ → Option ℕ
first_in [] = none
first_in (c ∷ cs) = if is_separator c then some 0 else after 1 (first_in cs)

-- `find_first_of("/\\", index)`
unfoldable pub find_first_of : List ℕ → ℕ → Option ℕ
find_first_of s index = after index (first_in (drop index s))

-- A separator further on, or else the one at the front.
abbrev pub last_of : Bool → Option ℕ → Option ℕ
last_of here (some n) = some (n + 1)
last_of here none = if here then some 0 else none

-- `find_last_of("/\\")`
unfoldable pub find_last_of : List ℕ → Option ℕ
find_last_of [] = none
find_last_of (c ∷ cs) = last_of (is_separator c) (find_last_of cs)

-- `substr(0, pos + 1)` for a position that has gone through an `int`; `npos` is the largest `size_t`.
abbrev pub up_to : List ℕ → Option ℕ → List ℕ
up_to s none = []
up_to s (some pos) =
    if through_int pos == size_mod - 1 then [] else take (add_size (through_int pos) 1) s

-- `Path`
unfoldable pub path : List ℕ → List ℕ
path [] = []
path (c ∷ cs) = up_to (c ∷ cs) (find_last_of (c ∷ cs))

module _ (fs : FileSystem) where
  -- The file system, and the paths for which `mkdir` failed, which the code does not look at.
  pub record Files : Type 0 where
    pub disk : fs.State
    pub failed : List (List ℕ)

  unfoldable pub call_mkdir : List ℕ → Files → Files
  call_mkdir p s = record {
    disk = (fs.mkdir p s.disk).1;
    failed = if (fs.mkdir p s.disk).0 then s.failed else s.failed ++ (p ∷ []);
  }

  -- What the loop of `CreateDirectory` does with the position that it found; `again` is the loop from
  -- an index on.
  unfoldable pub at_position :
      (ℕ → Files → Option Files) → List ℕ → ℕ → Option ℕ → Files → Option Files
  at_position again pathname index none s = some (call_mkdir pathname s)
  at_position again pathname index (some pos) s = again (pos + 1) (
      if pos == index
      then s
      else if fs.exists s.disk (take pos pathname)
      then s
      else call_mkdir (take pos pathname) s)

  -- The loop, with fuel; `none` is out of fuel.
  unfoldable pub make_from : ℕ → List ℕ → ℕ → Files → Option Files
  make_from zero pathname index s = if ltb index (length pathname) then none else some s
  make_from (suc fuel) pathname index s = elim (ltb index (length pathname)) [
    | true ↦ at_position (make_from fuel pathname) pathname index (find_first_of pathname index) s
    | false ↦ some s
  ]

  -- `CreateDirectory`, with as much fuel as the path has codes.
  unfoldable pub create_directory : List ℕ → Files → Option Files
  create_directory pathname s =
      if fs.exists s.disk pathname then some s else make_from (length pathname) pathname 0 s
