-- ===== src/ThreadPool/Done.antt =====
-- log_system/logs_code/ThreadPool.hpp: tasks are taken in the order in which they came, each once,
-- and a pool whose threads have all ended has run everything that it accepted.
use tcp_server.ThreadPool.{
  Pool, Place, running, fresh_pool, fresh_workers, enqueue, ready, from_queue, take_task,
  finish_task, stop_pool, waiting, ended,
}
use tcp_server.ThreadPool.Steps.{System, Step, Reach, stops, here, next, enqueues, takes, returns}
use tcp_server.Base.{
  ℕ, zero, suc, ◌+◌, ◌<◌, ◌≡◌, refl, sym, ap, subst, ◌∙◌, inl, inr, Bool, true, false, none, some,
  List, [], ◌∷◌, ◌++◌, append-nil, append_assoc, arith, Bool-cases, if_true, if_false, tally,
  tally-append, length, replicate,
}

module _ {T : Type 0} where
  -- The tasks that the threads are running.
  abbrev pub in_hand : List (Place T) → List T
  in_hand [] = []
  in_hand (running f ∷ ws) = f ∷ in_hand ws
  in_hand (waiting ∷ ws) = in_hand ws
  in_hand (ended ∷ ws) = in_hand ws

  abbrev pub some_ended : List (Place T) → Bool
  some_ended [] = false
  some_ended (ended ∷ ws) = true
  some_ended (waiting ∷ ws) = some_ended ws
  some_ended (running f ∷ ws) = some_ended ws

  abbrev pub all_ended : List (Place T) → Bool
  all_ended [] = true
  all_ended (ended ∷ ws) = all_ended ws
  all_ended (waiting ∷ ws) = false
  all_ended (running f ∷ ws) = false

  record Inv (s : System T) : Type 0 where
    fifo : s.pool.accepted ≡ s.pool.taken ++ s.pool.tasks
    runs :
        (p : T → Bool)
        → tally p s.pool.taken ≡ tally p s.pool.finished + tally p (in_hand s.workers)
    over : some_ended s.workers ≡ true → (s.pool.stop ≡ true) × (s.pool.tasks ≡ [])

  in_hand-append : (xs ys : List (Place T)) → in_hand (xs ++ ys) ≡ in_hand xs ++ in_hand ys
  in_hand-append [] ys = refl
  in_hand-append (running f ∷ xs) ys = ap (◌∷◌ f) (in_hand-append xs ys)
  in_hand-append (waiting ∷ xs) ys = in_hand-append xs ys
  in_hand-append (ended ∷ xs) ys = in_hand-append xs ys

  tally-in_hand :
      (p : T → Bool) (xs : List (Place T)) (w : Place T) (ys : List (Place T))
      → tally p (in_hand (xs ++ (w ∷ ys))) ≡ tally p (in_hand xs) + tally p (in_hand (w ∷ ys))
  tally-in_hand p xs w ys =
      ap (tally p) (in_hand-append xs (w ∷ ys)) ∙ tally-append p (in_hand xs) (in_hand (w ∷ ys))

  -- Whether a thread waits or runs, it has not ended.
  some_ended_swap :
      (xs ys : List (Place T)) (f : T)
      → some_ended (xs ++ (waiting ∷ ys)) ≡ some_ended (xs ++ (running f ∷ ys))
  some_ended_swap [] ys f = refl
  some_ended_swap (running g ∷ xs) ys f = some_ended_swap xs ys f
  some_ended_swap (waiting ∷ xs) ys f = some_ended_swap xs ys f
  some_ended_swap (ended ∷ xs) ys f = refl

  enqueue-Inv :
      (s : System T) (f : T) (p : Pool T)
      → Inv s
      → enqueue f s.pool ≡ some p
      → Inv (record s { pool = p })
  unfolding enqueue
  enqueue-Inv s f p v e =
      let q : Pool T = record s.pool {
        tasks = s.pool.tasks ++ (f ∷ []);
        accepted = s.pool.accepted ++ (f ∷ []);
      } in
      elim (Bool-cases s.pool.stop) [
        | inl stopped ↦ cc (if_true s.pool.stop none (some q) stopped, e)
        | inr on ↦
            let same : q ≡ p = cc (if_false s.pool.stop none (some q) on, e) in
            subst (λ z. Inv (record s { pool = z })) same
              (record {
                fifo =
                    ap (λ z. z ++ (f ∷ [])) v.fifo
                    ∙ append_assoc s.pool.taken s.pool.tasks (f ∷ []);
                runs = v.runs;
                over = λ h. cc ((v.over h).0, on);
              })
      ]

  take-Inv :
      (s : System T) (before after : List (Place T))
      → Inv s
      → s.workers ≡ before ++ (waiting ∷ after)
      → ready s.pool ≡ true
      → Inv (record {
        pool = (take_task s.pool).0;
        workers = before ++ ((take_task s.pool).1 ∷ after);
      })
  unfolding take_task ready
  take-Inv s before after v e r = by_queue s.pool.tasks refl
    where
      by_queue :
          (fs : List T)
          → s.pool.tasks ≡ fs
          → Inv (record {
            pool = (from_queue fs s.pool).0;
            workers = before ++ ((from_queue fs s.pool).1 ∷ after);
          })
      by_queue [] q = record {
        fifo = v.fifo;
        runs = λ p. omega (
          arith,
          v.runs p,
          ap (λ ws. tally p (in_hand ws)) e,
          tally-in_hand p before waiting after,
          tally-in_hand p before ended after,
        );
        over = λ h. (ground (arith, q), q);
      }
      by_queue (f ∷ fs) q = record {
        fifo = v.fifo ∙ ap (◌++◌ s.pool.taken) q ∙ sym (append_assoc s.pool.taken (f ∷ []) fs);
        runs = λ p. omega (
          arith,
          v.runs p,
          tally-append p s.pool.taken (f ∷ []),
          ap (λ ws. tally p (in_hand ws)) e,
          tally-in_hand p before waiting after,
          tally-in_hand p before (running f) after,
        );
        over = λ h. cc (q, (v.over (ap some_ended e ∙ some_ended_swap before after f ∙ h)).1);
      }

  return-Inv :
      (s : System T) (before after : List (Place T)) (f : T)
      → Inv s
      → s.workers ≡ before ++ (running f ∷ after)
      → Inv (record { pool = finish_task f s.pool; workers = before ++ (waiting ∷ after) })
  unfolding finish_task
  return-Inv s before after f v e = record {
    fifo = v.fifo;
    runs = λ p. omega (
      arith,
      v.runs p,
      tally-append p s.pool.finished (f ∷ []),
      ap (λ ws. tally p (in_hand ws)) e,
      tally-in_hand p before waiting after,
      tally-in_hand p before (running f) after,
    );
    over = λ h. v.over (ap some_ended e ∙ sym (some_ended_swap before after f) ∙ h);
  }

  stop-Inv : (s : System T) → Inv s → Inv (record s { pool = stop_pool s.pool })
  unfolding stop_pool
  stop-Inv s v = record { fifo = v.fifo; runs = v.runs; over = λ h. (refl, (v.over h).1) }

  none_ended :
      (n : ℕ) → (some_ended (replicate n waiting) ≡ false) × (in_hand (replicate n waiting) ≡ [])
  none_ended zero = (refl, refl)
  none_ended (suc n) = none_ended n

  start-Inv : (n : ℕ) → Inv (record { pool = fresh_pool; workers = fresh_workers n })
  unfolding fresh_pool fresh_workers
  start-Inv n = record {
    fifo = refl;
    runs = λ p. omega (arith, ap (tally p) (none_ended n).1);
    over = λ h. cc ((none_ended n).0, h);
  }

  Step-Inv : {s t : System T} → Inv s → Step s t → Inv t
  Step-Inv v (enqueues s f p e) = enqueue-Inv s f p v e
  Step-Inv v (takes s before after e r) = take-Inv s before after v e r
  Step-Inv v (returns s before after f e) = return-Inv s before after f v e
  Step-Inv v (stops s) = stop-Inv s v

  Reach-Inv : {n : ℕ} {s : System T} → Reach n s → Inv s
  Reach-Inv {n} here = start-Inv n
  Reach-Inv (next r t) = Step-Inv (Reach-Inv r) t

  -- The tasks are taken in the order in which they were accepted, each once: the accepted ones are the
  -- taken ones with the queue behind them.
  pub taken_in_order :
      (n : ℕ) (s : System T) → Reach n s → s.pool.accepted ≡ s.pool.taken ++ s.pool.tasks
  taken_in_order n s r = (Reach-Inv r).fifo

  nothing_in_hand : (ws : List (Place T)) → all_ended ws ≡ true → in_hand ws ≡ []
  nothing_in_hand [] e = refl
  nothing_in_hand (ended ∷ ws) e = nothing_in_hand ws e
  nothing_in_hand (waiting ∷ ws) e = cc e
  nothing_in_hand (running f ∷ ws) e = cc e

  one_ended : (ws : List (Place T)) → all_ended ws ≡ true → 0 < length ws → some_ended ws ≡ true
  one_ended [] e h = ground arith
  one_ended (ended ∷ ws) e h = refl
  one_ended (waiting ∷ ws) e h = cc e
  one_ended (running f ∷ ws) e h = cc e

  -- When all threads of a pool with at least one have ended, as after the destructor, every task that
  -- was accepted has run as often as it was accepted, and none is left in the queue.
  pub all_run :
      (n : ℕ) (s : System T)
      → Reach n s
      → all_ended s.workers ≡ true
      → 0 < length s.workers
      → (s.pool.tasks ≡ []) × ((p : T → Bool) → tally p s.pool.finished ≡ tally p s.pool.accepted)
  all_run n s r e h =
      let v = Reach-Inv r in
      let empty = (v.over (one_ended s.workers e h)).1 in
      let same : s.pool.accepted ≡ s.pool.taken =
        v.fifo ∙ ap (◌++◌ s.pool.taken) empty ∙ append-nil s.pool.taken in
      (
        empty,
        λ p. omega (arith, ap (tally p) same, v.runs p, ap (tally p) (nothing_in_hand s.workers e)),
      )

  not_empty :
      (xs ys : List (Place T)) (w : Place T) → ◌≡◌ {A = List (Place T)} [] (xs ++ (w ∷ ys)) → ⊥
  not_empty [] ys w e = cc e
  not_empty (x ∷ xs) ys w e = cc e

  abbrev taken_on : System T → T → Pool T
  taken_on s f = record s.pool {
    tasks = s.pool.tasks ++ (f ∷ []);
    accepted = s.pool.accepted ++ (f ∷ []);
  }

  -- A pool with no threads never runs a task, so that nobody who waits for one goes on.
  pub no_threads_run_nothing :
      {s : System T} → Reach 0 s → (s.workers ≡ []) × (s.pool.finished ≡ [])
  unfolding fresh_pool fresh_workers enqueue stop_pool
  no_threads_run_nothing here = (refl, refl)
  no_threads_run_nothing (next r (enqueues s f p e)) =
      let (w, n) = no_threads_run_nothing r in
      elim (Bool-cases s.pool.stop) [
        | inl stopped ↦ cc (if_true s.pool.stop none (some (taken_on s f)) stopped, e)
        | inr on ↦
            let same : taken_on s f ≡ p =
              cc (if_false s.pool.stop none (some (taken_on s f)) on, e) in
            (w, sym (ap (λ (z : Pool T). z.finished) same) ∙ n)
      ]
  no_threads_run_nothing (next r (takes s before after e h)) =
      absurd (not_empty before after waiting (sym (no_threads_run_nothing r).0 ∙ e))
  no_threads_run_nothing (next r (returns s before after f e)) =
      absurd (not_empty before after (running f) (sym (no_threads_run_nothing r).0 ∙ e))
  no_threads_run_nothing (next r (stops s)) = no_threads_run_nothing r
