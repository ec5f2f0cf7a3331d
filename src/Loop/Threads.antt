-- ===== src/Loop/Threads.antt =====
-- src/EventLoop.cpp: the functors run in order and once each, and a wake-up is lost only before `loop()`.
use tcp_server.Base.{
  ℕ, ◌+◌, ◌<◌, ◌≡◌, refl, sym, ap, subst, ◌∙◌, ◌≢◌, Bool, true, false, List, [], ◌∷◌, ◌++◌,
  append-nil, append_assoc, arith, ◌⊎◌, inl, inr,
}
use tcp_server.Loop.{fresh_loop, wakeup, handle_read, push, queue_in_loop}
use tcp_server.Loop.Steps.{
  Phase, starting, polling, handling, running, System, in_hand, Step, Reach, start, here, next,
  foreign_push, foreign_wake, own_queue, early_queue, loop_begins, poll_returns, wake_read,
  swap_out, call_next, round_ends,
}

module _ {T : Type 0} where
  -- A queue that is not empty has a wake-up, done or on its way.
  abbrev Watched : List T → ℕ → Type 0
  Watched [] n = Unit {0}
  Watched (f ∷ fs) n = 0 < n

  -- No round has reached the queue, and it has nothing but what was queued before `loop()`.
  abbrev pub OnlyEarly : System T → Type 0
  OnlyEarly s = (s.rounds ≡ 0) × (s.loop.pending ≡ s.early)

  -- While events are handled the functors come next in any case.
  abbrev Awake : Phase T → System T → Type 0
  Awake starting s = (s.rounds ≡ 0) × (0 < s.loop.wakeups + s.unwoken ⊎ (s.loop.pending ≡ s.early))
  Awake handling s = Unit {0}
  Awake polling s = Watched s.loop.pending (s.loop.wakeups + s.unwoken) ⊎ OnlyEarly s
  Awake (running fs) s = Watched s.loop.pending (s.loop.wakeups + s.unwoken)

  abbrev is_running : Phase T → Bool
  is_running (running fs) = true
  is_running _ = false

  record Inv (s : System T) : Type 0 where
    ordered : s.submitted ≡ s.loop.called ++ (in_hand s.phase ++ s.loop.pending)
    awake : Awake s.phase s
    calling : s.loop.calling ≡ is_running s.phase

  start-Inv : Inv start
  unfolding fresh_loop
  start-Inv = record { ordered = refl; awake = (refl, inr refl); calling = refl }

  Watched-pos : (l : List T) (n : ℕ) → 0 < n → Watched l n
  Watched-pos [] n h = tt
  Watched-pos (f ∷ fs) n h = h

  Watched-same : (l : List T) (m n : ℕ) → m ≡ n → Watched l m → Watched l n
  Watched-same l m n e h = subst (Watched l) e h

  -- A push behind the queue is a push behind all that was submitted.
  ordered_push :
      (s : System T) (f : T)
      → Inv s
      → s.submitted ++ (f ∷ []) ≡ s.loop.called ++ (in_hand s.phase ++ (s.loop.pending ++ (f ∷ [])))
  ordered_push s f v =
      ap (λ (t : List T). t ++ (f ∷ [])) v.ordered
      ∙ append_assoc s.loop.called (in_hand s.phase ++ s.loop.pending) (f ∷ [])
      ∙ ap (◌++◌ s.loop.called) (append_assoc (in_hand s.phase) s.loop.pending (f ∷ []))

  -- A state with a wake-up, done or on its way.
  Awake-pos :
      (p : Phase T) (s : System T)
      → 0 < s.loop.wakeups + s.unwoken
      → (p ≡ starting → s.rounds ≡ 0)
      → Awake p s
  Awake-pos starting s h z = (z refl, inl h)
  Awake-pos handling s h z = tt
  Awake-pos polling s h z = inl (Watched-pos s.loop.pending (s.loop.wakeups + s.unwoken) h)
  Awake-pos (running gs) s h z = Watched-pos s.loop.pending (s.loop.wakeups + s.unwoken) h

  Awake-rounds : (p : Phase T) (s : System T) → Awake p s → p ≡ starting → s.rounds ≡ 0
  Awake-rounds starting s a e = a.0
  Awake-rounds polling s a e = cc e
  Awake-rounds handling s a e = cc e
  Awake-rounds (running fs) s a e = cc e

  own_queue-Inv :
      (s : System T) (f : T) (p : Phase T)
      → s.phase ≡ p
      → s.phase ≢ polling
      → s.phase ≢ starting
      → Inv s
      → Inv (record s { loop = queue_in_loop true f s.loop; submitted = s.submitted ++ (f ∷ []) })
  unfolding push wakeup queue_in_loop
  own_queue-Inv s f starting e np ns v = absurd (ns e)
  own_queue-Inv s f polling e np ns v = absurd (np e)
  own_queue-Inv s f handling e np ns v =
      rw (v.calling ∙ ap is_running e)
        (record { ordered = ordered_push s f v; awake = rw e tt; calling = sym (ap is_running e) })
  own_queue-Inv s f (running fs) e np ns v = rw (v.calling ∙ ap is_running e) (record {
    ordered = ordered_push s f v;
    awake =
        rw e
          (Watched-pos (s.loop.pending ++ (f ∷ [])) (s.loop.wakeups + 1 + s.unwoken) (omega arith));
    calling = sym (ap is_running e);
  })

  early_queue-Inv :
      (s : System T) (f : T)
      → s.phase ≡ starting
      → Inv s
      → Inv (record s {
        loop = queue_in_loop true f s.loop;
        submitted = s.submitted ++ (f ∷ []);
        early = s.early ++ (f ∷ []);
      })
  unfolding push wakeup queue_in_loop
  early_queue-Inv s f e v =
      let (z, a) : Awake starting s = rw e at v.awake in
      rw (v.calling ∙ ap is_running e) (record {
        ordered = ordered_push s f v;
        awake =
            rw e (z, elim a [ inl h ↦ inl h | inr q ↦ inr (ap (λ (t : List T). t ++ (f ∷ [])) q) ]);
        calling = sym (ap is_running e);
      })

  -- `loop()` begins: what the queue had then.
  begin-Awake : (s : System T) → Awake starting s → Awake polling s
  begin-Awake s (z, inl h) = inl (Watched-pos s.loop.pending (s.loop.wakeups + s.unwoken) h)
  begin-Awake s (z, inr q) = inr (z, q)

  Step-Inv : {s t : System T} → Step s t → Inv s → Inv t
  unfolding push wakeup handle_read
  Step-Inv (foreign_push s f) v = record {
    ordered = ordered_push s f v;
    awake =
        Awake-pos s.phase
          (record s {
            loop = push f s.loop;
            unwoken = s.unwoken + 1;
            submitted = s.submitted ++ (f ∷ []);
          })
          (omega arith) (Awake-rounds s.phase s v.awake);
    calling = v.calling;
  }
  Step-Inv (foreign_wake s n e) v = record {
    ordered = v.ordered;
    awake =
        Awake-pos s.phase (record s { loop = wakeup s.loop; unwoken = n }) (omega arith)
          (Awake-rounds s.phase s v.awake);
    calling = v.calling;
  }
  Step-Inv (own_queue s f np ns) v = own_queue-Inv s f s.phase refl np ns v
  Step-Inv (early_queue s f e) v = early_queue-Inv s f e v
  Step-Inv (loop_begins s e) v = record {
    ordered = rw e at v.ordered;
    awake = begin-Awake s (rw e at v.awake);
    calling = v.calling ∙ ap is_running e;
  }
  Step-Inv (poll_returns s e) v = record {
    ordered = rw e at v.ordered;
    awake = tt;
    calling = v.calling ∙ ap is_running e;
  }
  Step-Inv (wake_read s e) v = record { ordered = v.ordered; awake = rw e tt; calling = v.calling }
  Step-Inv (swap_out s e) v = record {
    ordered = (rw e at v.ordered) ∙ ap (◌++◌ s.loop.called) (sym (append-nil s.loop.pending));
    awake = tt;
    calling = refl;
  }
  Step-Inv (call_next s f fs e) v = record {
    ordered =
        (rw e at v.ordered) ∙ sym (append_assoc s.loop.called (f ∷ []) (fs ++ s.loop.pending));
    awake = rw e at v.awake;
    calling = v.calling ∙ ap is_running e;
  }
  Step-Inv (round_ends s e) v = record {
    ordered = rw e at v.ordered;
    awake = inl (rw e at v.awake);
    calling = refl;
  }

  Reach-Inv : {s : System T} → Reach s → Inv s
  Reach-Inv here = start-Inv
  Reach-Inv (next r st) = Step-Inv st (Reach-Inv r)

  -- In every state that the threads can reach, the functors called so far, with those that the round
  -- has still to call and those in the queue, are the functors submitted, in the order of submission
  -- and each once.
  pub Reach-in_order :
      {s : System T} → Reach s → s.submitted ≡ s.loop.called ++ (in_hand s.phase ++ s.loop.pending)
  Reach-in_order r = (Reach-Inv r).ordered

  -- Whenever the loop's thread goes to the poller while a functor waits in the queue, and every other
  -- thread has finished its call, the eventfd has been written, so that the poller returns at once;
  -- the only exception is the first round, with a queue of nothing but what the loop's own thread
  -- queued before `loop()`.
  pub no_lost_wakeup :
      (s : System T)
      → Reach s
      → s.phase ≡ polling
      → s.unwoken ≡ 0
      → s.loop.pending ≢ []
      → 0 < s.loop.wakeups ⊎ ((s.rounds ≡ 0) × (s.loop.pending ≡ s.early))
  no_lost_wakeup s r p u n = by_reason (rw p at (Reach-Inv r).awake)
    where
      by_queue :
          (l : List T)
          → s.loop.pending ≡ l
          → Watched l (s.loop.wakeups + s.unwoken)
          → 0 < s.loop.wakeups
      by_queue [] e h = absurd (n e)
      by_queue (f ∷ fs) e h = omega arith

      by_reason :
          Watched s.loop.pending (s.loop.wakeups + s.unwoken) ⊎ OnlyEarly s
          → 0 < s.loop.wakeups ⊎ ((s.rounds ≡ 0) × (s.loop.pending ≡ s.early))
      by_reason (inl h) = inl (by_queue s.loop.pending refl h)
      by_reason (inr o) = inr o

  -- A functor that the loop's own thread queues before `loop()` does wait in the poller with no
  -- wake-up.
  pub early_functor_waits :
      (f : T)
      → (s : System T) × Reach s
        × (s.phase ≡ polling)
        × (s.unwoken ≡ 0)
        × (s.loop.pending ≡ f ∷ [])
        × (s.loop.wakeups ≡ 0)
  unfolding push wakeup queue_in_loop fresh_loop
  early_functor_waits f =
      (_, next (next here (early_queue start f refl)) (loop_begins _ refl), refl, refl, refl, refl)
