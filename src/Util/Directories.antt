-- ===== src/Util/Directories.antt =====
-- log_system/logs_code/Util.hpp: the loop of `CreateDirectory`.
use tcp_server.Util.{
  slash, FileSystem, Files, call_mkdir, find_first_of, at_position, make_from, create_directory,
}
use tcp_server.Util.Search.{Plain, FirstAt, at_same, get_inside, find_first_of-FirstAt}
use tcp_server.Base.{
  ℕ, zero, suc, ◌+◌, ◌-◌, ◌≤◌, ◌<◌, ◌≡◌, refl, sym, ap, subst, ◌∙◌, ◌≢◌, inl, inr, true, false,
  Option, none, some, List, arith, ltb, ◌==◌, if◌then◌else◌, ltb→lt, ltb→le, Bool-cases, if_true,
  if_false, length, get_elem?, take, Bool,
}
use tcp_server.Util.Failing.{There, or_left, call-There, made-There}

module _ (fs : FileSystem) where
  -- A directory's name ends before the slash at `i`, and not another slash.
  abbrev pub Ends : List ℕ → ℕ → Type 0
  Ends p i = get_elem? p (i - 1) ≢ some slash

  -- All directories of the path that end before `index` are there.
  abbrev pub MadeTo : List ℕ → ℕ → Files fs → Type 0
  MadeTo p index s =
      (i : ℕ) → 0 < i → i < index → get_elem? p i ≡ some slash → Ends p i → There fs s (take i p)

  -- All directories of the path are there.
  abbrev pub Made : List ℕ → Files fs → Type 0
  Made p s = (i : ℕ) → 0 < i → get_elem? p i ≡ some slash → Ends p i → There fs s (take i p)

  -- The loop has passed a slash, or stands at the start.
  abbrev Passed : List ℕ → ℕ → Type 0
  Passed p zero = Unit {0}
  Passed p (suc i) = get_elem? p i ≡ some slash

  -- What the loop ends with.
  pub record Created (p : List ℕ) (s : Files fs) : Type 0 where
    pub made : Made p s
    pub whole : get_elem? p (length p - 1) ≢ some slash → There fs s p

  -- The directories up to the next slash, which the loop may still have to make.
  gap-MadeTo :
      (p : List ℕ) (index pos : ℕ) (s : Files fs)
      → MadeTo p index s
      → ((i : ℕ) → index ≤ i → i < pos → get_elem? p i ≢ some slash)
      → MadeTo p pos s
  gap-MadeTo p index pos s m none_between i h k e d = elim (Bool-cases (ltb i index)) [
    | inl old ↦ m i h (ltb→lt i index old) e d
    | inr gap ↦ absurd (none_between i (ltb→le i index gap) k e)
  ]

  next-MadeTo :
      (p : List ℕ) (pos : ℕ) (s : Files fs)
      → MadeTo p pos s
      → (0 < pos → Ends p pos → There fs s (take pos p))
      → MadeTo p (pos + 1) s
  next-MadeTo p pos s m here i h k e d = elim (Bool-cases (i == pos)) [
    | inl equal ↦
        let same : pos ≡ i = ground (arith, equal) in
        subst (λ n. There fs s (take n p)) same
          (here (omega (arith, h)) (subst (λ n. Ends p n) (sym same) d))
    | inr other ↦ m i h (ground (arith, other, k)) e d
  ]

  -- Two slashes one after the other: no name ends before the second.
  doubled :
      (p : List ℕ) (pos : ℕ) (s : Files fs)
      → Passed p pos
      → 0 < pos
      → Ends p pos
      → There fs s (take pos p)
  doubled p zero s e h d = absurd (omega arith)
  doubled p (suc i) s e h d = absurd (d (at_same p (suc i - 1) i (omega arith) ∙ e))

  -- What one round makes of the file system, with a slash at `pos`.
  round :
      (p : List ℕ) (index pos : ℕ) (s : Files fs)
      → FirstAt p index (some pos)
      → MadeTo p index s
      → Passed p index
      → MadeTo p (pos + 1) (
          if pos == index
          then s
          else if fs.exists s.disk (take pos p)
          then s
          else call_mkdir fs (take pos p) s)
  round p index pos s f m e =
      let all = gap-MadeTo p index pos s m f.3 in
      let made = call_mkdir fs (take pos p) s in
      elim (Bool-cases (pos == index)) [
        | inl equal ↦
            let same : index ≡ pos = ground (arith, equal) in
            subst (λ z. MadeTo p (pos + 1) z) (sym (if_true (pos == index) s _ equal))
              (next-MadeTo p pos s all (doubled p pos s (subst (λ n. Passed p n) same e)))
        | inr other ↦
            subst (λ z. MadeTo p (pos + 1) z) (sym (if_false (pos == index) s _ other))
              (elim (Bool-cases (fs.exists s.disk (take pos p))) [
                | inl there ↦
                    subst (λ z. MadeTo p (pos + 1) z) (sym (if_true _ s made there))
                      (next-MadeTo p pos s all (λ h d. or_left _ _ there))
                | inr missing ↦
                    subst (λ z. MadeTo p (pos + 1) z) (sym (if_false _ s made missing))
                      (next-MadeTo p pos made
                        (λ i h k x d. call-There fs (take pos p) (take i p) s (all i h k x d))
                        (λ h d. made-There fs (take pos p) s))
              ])
      ]

  next-Passed : (p : List ℕ) (pos : ℕ) → get_elem? p pos ≡ some slash → Passed p (pos + 1)
  next-Passed p pos e = let next : suc pos ≡ pos + 1 = omega arith in subst (λ n. Passed p n) next e

  -- At the end of the path.
  at_end :
      (p : List ℕ) (index : ℕ) (s : Files fs)
      → MadeTo p index s
      → Passed p index
      → 0 < length p
      → index ≡ length p
      → Created p s
  at_end p zero s m e h k = absurd (omega arith)
  at_end p (suc i) s m e h k = record {
    made = λ j l x d. m j l (omega (arith, get_inside p j slash x)) x d;
    whole = λ n. absurd (n (at_same p (length p - 1) i (omega arith) ∙ e));
  }

  no_more :
      (p : List ℕ) (index : ℕ) (s : Files fs)
      → FirstAt p index none
      → MadeTo p index s
      → 0 < length p
      → Created p (call_mkdir fs p s)
  no_more p index s f m h =
      let before : Made p s = λ i j e d. elim (Bool-cases (ltb i index)) [
        | inl old ↦ m i j (ltb→lt i index old) e d
        | inr gap ↦ absurd (f i (ltb→le i index gap) e)
      ] in
      record {
        made = λ i j e d. call-There fs p (take i p) s (before i j e d);
        whole = λ n. made-There fs p s;
      }

  -- A round and what the loop makes of the rest.
  by_position :
      (fuel : ℕ) (p : List ℕ) (index : ℕ) (s : Files fs) (r : Option ℕ)
      → 0 < length p
      → MadeTo p index s
      → Passed p index
      → FirstAt p index r
      → ((pos : ℕ) (u : Files fs)
          → index ≤ pos
          → pos < length p
          → MadeTo p (pos + 1) u
          → Passed p (pos + 1)
          → (t : Files fs) × (make_from fs fuel p (pos + 1) u ≡ some t) × Created p t)
      → (t : Files fs) × (at_position fs (make_from fs fuel p) p index r s ≡ some t) × Created p t
  unfolding at_position
  by_position fuel p index s none h m e f again = (call_mkdir fs p s, refl, no_more p index s f m h)
  by_position fuel p index s (some pos) h m e f again =
      again pos _ f.0 f.1 (round p index pos s f m e) (next-Passed p pos f.2)

  next_round :
      (fuel : ℕ) (p : List ℕ) (index : ℕ) (s : Files fs)
      → ltb index (length p) ≡ true
      → make_from fs (suc fuel) p index s
        ≡ at_position fs (make_from fs fuel p) p index (find_first_of p index) s
  unfolding make_from
  next_round fuel p index s h =
      ap
        (λ (b : Bool). elim b [
          | true ↦ at_position fs (make_from fs fuel p) p index (find_first_of p index) s
          | false ↦ some s
        ])
        h

  last_round :
      (fuel : ℕ) (p : List ℕ) (index : ℕ) (s : Files fs)
      → ltb index (length p) ≡ false
      → make_from fs fuel p index s ≡ some s
  unfolding make_from
  last_round zero p index s h = if_false (ltb index (length p)) none (some s) h
  last_round (suc fuel) p index s h =
      ap
        (λ (b : Bool). elim b [
          | true ↦ at_position fs (make_from fs fuel p) p index (find_first_of p index) s
          | false ↦ some s
        ])
        h

  make_from_lem :
      (fuel : ℕ) (p : List ℕ) (index : ℕ) (s : Files fs)
      → Plain p
      → 0 < length p
      → MadeTo p index s
      → Passed p index
      → index ≤ length p
      → length p ≤ index + fuel
      → (t : Files fs) × (make_from fs fuel p index s ≡ some t) × Created p t
  make_from_lem zero p index s q h m e k l =
      let over : ltb index (length p) ≡ false = ground arith in
      (s, last_round 0 p index s over, at_end p index s m e h (omega arith))
  make_from_lem (suc fuel) p index s q h m e k l = elim (Bool-cases (ltb index (length p))) [
    | inl inside ↦
        let (t, runs, created) =
          by_position fuel p index s (find_first_of p index) h m e (find_first_of-FirstAt p index q)
            (λ pos u from to n x.
              make_from_lem fuel p (pos + 1) u q h n x (omega (arith, to))
                (omega (arith, from, l))) in
        (t, next_round fuel p index s inside ∙ runs, created)
    | inr over ↦ (
      s,
      last_round (suc fuel) p index s over,
      at_end p index s m e h (omega (arith, ltb→le index (length p) over)),
    )
  ]

  -- `CreateDirectory` ends. For each directory of the path, and for the path itself unless it ends in a
  -- slash, `stat` finds it then or `mkdir` has failed for it.
  pub create_directory_lem :
      (p : List ℕ) (s : Files fs)
      → Plain p
      → 0 < length p
      → (t : Files fs) × (create_directory fs p s ≡ some t) × Created p t
  unfolding create_directory
  create_directory_lem p s q h = elim (Bool-cases (fs.exists s.disk p)) [
    | inl there ↦ (
      s,
      if_true (fs.exists s.disk p) (some s) (make_from fs (length p) p 0 s) there,
      record {
        made = λ i j e d. or_left _ _ (fs.exists_prefix p i s.disk there j e);
        whole = λ n. or_left _ _ there;
      },
    )
    | inr missing ↦
        let (t, runs, created) =
          make_from_lem (length p) p 0 s q h (λ i j k e d. absurd (omega arith)) tt (omega arith)
            (omega arith) in
        (
          t,
          if_false (fs.exists s.disk p) (some s) (make_from fs (length p) p 0 s) missing ∙ runs,
          created,
        )
  ]
