-- ===== src/LoopPool/Turns.antt =====
-- src/EventLoopThreadPool.cpp: the loops take turns.
use native.Mathlib.Nat.{mod-lt, mod_self, mod-eq_of_lt, mod-add-mod}
use tcp_server.Base.{
  to_string, ℕ, zero, suc, ◌+◌, ◌%◌, ◌<◌, ◌≡◌, refl, sym, ap, ap₂, ◌∙◌, ◌⊎◌, inl, inr, Bool, true,
  List, [], ◌∷◌, ◌++◌, append-nil, append_assoc, arith, leb, if◌then◌else◌, Bool-cases, length,
  get_or, length-append,
}
use tcp_server.LoopPool.{
  LoopPool, fresh_pool, set_thread_num, start_threads, start_pool, next_index, next_of,
  get_next_loop,
}

-- `k` calls of `getNextLoop`, with what they return.
pub calls : ℕ → LoopPool → List ℕ × LoopPool
calls zero p = ([], p)
calls (suc k) p = let (l, q) = get_next_loop p in let (ls, r) = calls k q in (l ∷ ls, r)

-- The index of the next loop lies inside the vector.
abbrev pub InTurn : LoopPool → Type 0
InTurn p = (p.loops ≡ []) ⊎ (p.next < length p.loops)

-- What `getNextLoop` does where there are loops.
get_next_loop_lem :
    (p : LoopPool)
    → p.next < length p.loops
    → get_next_loop p
      ≡ (get_or p.loops p.next p.base_loop, record p { next = (p.next + 1) % length p.loops })
unfolding get_next_loop next_of next_index
get_next_loop_lem p h = by_loops p.loops refl
  where
    turn : (n x : ℕ) → x < n → (if leb n (x + 1) then 0 else x + 1) ≡ (x + 1) % n
    turn n x l = elim (Bool-cases (leb n (x + 1))) [
      | inl e ↦
          rw e
            (let whole : x + 1 ≡ n = ground arith in sym (ap (λ (t : ℕ). t % n) whole ∙ mod_self n))
      | inr e ↦ rw e (sym (mod-eq_of_lt (ground arith)))
    ]

    by_loops :
        (ls : List ℕ)
        → p.loops ≡ ls
        → next_of ls p
          ≡ (get_or p.loops p.next p.base_loop, record p { next = (p.next + 1) % length p.loops })
    by_loops [] e = absurd (omega (arith, ap length e))
    by_loops (l ∷ ls) e =
        ap₂ (λ (xs : List ℕ) (n : ℕ). (get_or xs p.next p.base_loop, record p { next = n })) (sym e)
          (turn (length p.loops) p.next h)

-- The loops that `k` calls ought to give, from turn `i` on.
abbrev pub turns : List ℕ → ℕ → ℕ → ℕ → List ℕ
turns loops base i zero = []
turns loops base i (suc k) = get_or loops (i % length loops) base ∷ turns loops base (i + 1) k

-- With at least one loop and the next index inside the vector, any number of calls of `getNextLoop`
-- gives the loops in their order, round and round from the one whose turn it is, and never reads
-- outside the vector.
pub calls-turns :
    (k i : ℕ) (p : LoopPool)
    → p.next < length p.loops
    → i % length p.loops ≡ p.next
    → ((calls k p).0 ≡ turns p.loops p.base_loop i k)
      × ((calls k p).1.next ≡ (i + k) % length p.loops)
unfolding calls
calls-turns zero i p h e = (refl, sym e ∙ ap (λ (t : ℕ). t % length p.loops) (omega arith))
calls-turns (suc k) i p h e =
    let q : LoopPool = record p { next = (p.next + 1) % length p.loops } in
    let again : (i + 1) % length p.loops ≡ q.next =
      sym (mod-add-mod i (length p.loops) 1) ∙ ap (λ (t : ℕ). (t + 1) % length p.loops) e in
    let rest = calls-turns k (i + 1) q (mod-lt (p.next + 1) (omega arith)) again in
    let sum : i + 1 + k ≡ i + suc k = omega arith in
    rw (get_next_loop_lem p h) (
      ap₂ ◌∷◌ (ap (λ (t : ℕ). get_or p.loops t p.base_loop) (sym e)) rest.0,
      rest.1 ∙ ap (λ (t : ℕ). t % length p.loops) sum,
    )

start_threads_lem :
    (start_loop : ℕ → ℕ) (n i : ℕ) (p : LoopPool)
    → let q = start_threads start_loop n i p in
      (length q.loops ≡ length p.loops + n)
      × (length q.threads ≡ length p.threads + n)
      × (q.next ≡ p.next)
      × (q.base_loop ≡ p.base_loop)
unfolding start_threads
start_threads_lem start_loop zero i p = (omega arith, omega arith, refl, refl)
start_threads_lem start_loop (suc n) i p =
    let q : LoopPool = record p {
      threads = p.threads ++ ((p.name ++ to_string i) ∷ []);
      loops = p.loops ++ (start_loop i ∷ []);
    } in
    let r = start_threads_lem start_loop n (i + 1) q in
    (
      omega (arith, r.0, length-append p.loops (start_loop i ∷ [])),
      omega (arith, r.1, length-append p.threads ((p.name ++ to_string i) ∷ [])),
      r.2,
      r.3,
    )

-- The loops that `start` leaves are those of the threads from `i` on.
abbrev pub loops_from : (ℕ → ℕ) → ℕ → ℕ → List ℕ
loops_from start_loop i zero = []
loops_from start_loop i (suc n) = start_loop i ∷ loops_from start_loop (i + 1) n

start_threads-loops :
    (start_loop : ℕ → ℕ) (n i : ℕ) (p : LoopPool)
    → (start_threads start_loop n i p).loops ≡ p.loops ++ loops_from start_loop i n
unfolding start_threads
start_threads-loops start_loop zero i p = sym (append-nil p.loops)
start_threads-loops start_loop (suc n) i p =
    start_threads-loops start_loop n (i + 1) (record p {
      threads = p.threads ++ ((p.name ++ to_string i) ∷ []);
      loops = p.loops ++ (start_loop i ∷ []);
    })
    ∙ append_assoc p.loops (start_loop i ∷ []) (loops_from start_loop (i + 1) n)

-- A pool that was started with `n` threads, at least one, hands out the loops of its threads in
-- order and round and round, for any number of connections, and never the base loop or a loop that it
-- did not start.
pub start_pool-turns :
    (start_loop : ℕ → ℕ) (callback : Bool) (base : ℕ) (name : List ℕ) (n k : ℕ)
    → 0 < n
    → (calls k (start_pool start_loop callback (set_thread_num n (fresh_pool base name))).0).0
      ≡ turns (loops_from start_loop 0 n) base 0 k
unfolding start_pool set_thread_num fresh_pool
start_pool-turns start_loop callback base name n k h =
    let p : LoopPool = record {
      base_loop = base;
      name = name;
      started = true;
      num_threads = n;
      next = 0;
      threads = [];
      loops = [];
    } in
    let l = start_threads_lem start_loop n 0 p in
    let q = start_threads start_loop n 0 p in
    let zero_turn : 0 % length (start_threads start_loop n 0 p).loops
        ≡ (start_threads start_loop n 0 p).next =
      rw l.2 (mod-eq_of_lt (omega (arith, l.0))) in
    (calls-turns k 0 (start_threads start_loop n 0 p) (omega (arith, l.0, l.2)) zero_turn).0
    ∙ ap₂ (λ (ls : List ℕ) b. turns ls b 0 k) (start_threads-loops start_loop n 0 p) l.3
