-- ===== src/Loop/Rounds.antt =====
-- src/EventLoop.cpp: what a round does with the queue, and when `loop` returns.
use tcp_server.Base.{
  ◌+◌, ◌≡◌, refl, sym, ap, ◌∙◌, Bool, true, false, List, [], ◌∷◌, ◌++◌, append-nil, append_assoc,
  arith, if◌then◌else◌, length, length-append,
}
use tcp_server.Loop.{
  Loop, wakeup, push, queue_in_loop, ask_quit, call_all, do_pending_functions, rounds, loop,
  call_one, one_round,
}

module _ {T : Type 0} (spawn : T → List T) where
  -- A functor that queues the functors `spawn f`, in the loop's own thread.
  queue_all : List T → Loop T → Loop T
  queue_all [] l = l
  queue_all (f ∷ fs) l = queue_all fs (queue_in_loop true f l)

  pub spawning : T → Loop T → Loop T
  spawning f l = queue_all (spawn f) l

  abbrev pub spawns : List T → List T
  spawns [] = []
  spawns (f ∷ fs) = spawn f ++ spawns fs

  -- How the queue and the counter grow while functors run.
  record Grown (l m : Loop T) (fs ran : List T) : Type 0 where
    pending : m.pending ≡ l.pending ++ fs
    called : m.called ≡ l.called ++ ran
    calling : m.calling ≡ true
    woken : m.wakeups ≡ l.wakeups + length fs
    quit : m.quit ≡ l.quit

  queue_all-Grown : (fs : List T) (l : Loop T) → l.calling ≡ true → Grown l (queue_all fs l) fs []
  unfolding queue_all queue_in_loop push wakeup
  queue_all-Grown [] l e = record {
    pending = sym (append-nil l.pending);
    called = sym (append-nil l.called);
    calling = e;
    woken = omega arith;
    quit = refl;
  }
  queue_all-Grown (f ∷ fs) l e =
      let m : Loop T = record l {
        pending = l.pending ++ (f ∷ []);
        wakeups = l.wakeups + 1;
        calling = true;
      } in
      let g = queue_all-Grown fs m refl in
      rw e (record {
        pending = g.pending ∙ append_assoc l.pending (f ∷ []) fs;
        called = g.called;
        calling = g.calling;
        woken = omega (arith, g.woken);
        quit = g.quit;
      })

  call_all-Grown :
      (fs : List T) (l : Loop T)
      → l.calling ≡ true
      → Grown l (call_all spawning fs l) (spawns fs) fs
  unfolding call_all call_one spawning
  call_all-Grown [] l e = record {
    pending = sym (append-nil l.pending);
    called = sym (append-nil l.called);
    calling = e;
    woken = omega arith;
    quit = refl;
  }
  call_all-Grown (f ∷ fs) l e =
      let m : Loop T = record l { called = l.called ++ (f ∷ []) } in
      let g = queue_all-Grown (spawn f) m e in
      let r = call_all-Grown fs (queue_all (spawn f) m) g.calling in
      record {
        pending =
            r.pending
            ∙ ap (λ (t : List T). t ++ spawns fs) g.pending
            ∙ append_assoc l.pending (spawn f) (spawns fs);
        called =
            r.called
            ∙ ap (λ (t : List T). t ++ fs) (g.called ∙ append-nil (l.called ++ (f ∷ [])))
            ∙ append_assoc l.called (f ∷ []) fs;
        calling = r.calling;
        woken = omega (arith, r.woken, g.woken, length-append (spawn f) (spawns fs));
        quit = r.quit ∙ g.quit;
      }

  -- With functors that do nothing but queue others, `doPendingFunctions` calls every functor that
  -- was queued before it, once and in the order of the queue, and no other. What they queue
  -- themselves waits in order for the next round, and the eventfd is written once for each, so that
  -- the next poll returns at once if there is any.
  pub do_pending_functions_lem :
      (l : Loop T)
      → let m = do_pending_functions spawning l in
        (m.called ≡ l.called ++ l.pending)
        × (m.pending ≡ spawns l.pending)
        × (m.calling ≡ false)
        × (m.wakeups ≡ l.wakeups + length m.pending)
  unfolding do_pending_functions
  do_pending_functions_lem l =
      let g = call_all-Grown l.pending (record l { calling = true; pending = [] }) refl in
      (g.called, g.pending, refl, rw g.pending g.woken)

module _ {T : Type 0} (call : T → Loop T → Loop T) where
  -- What runs in the rounds does not touch the request to quit.
  abbrev pub KeepQuit : List (Loop T → Loop T) → Type 0
  KeepQuit [] = Unit {0}
  KeepQuit (handle ∷ hs) = ((l : Loop T) → (handle l).quit ≡ l.quit) × KeepQuit hs

  call_all-quit :
      ((f : T) (l : Loop T) → (call f l).quit ≡ l.quit)
      → (fs : List T) (l : Loop T) → (call_all call fs l).quit ≡ l.quit
  unfolding call_all call_one
  call_all-quit h [] l = refl
  call_all-quit h (f ∷ fs) l =
      call_all-quit h fs (call f (record l { called = l.called ++ (f ∷ []) })) ∙ h f _

  rounds-quit :
      ((f : T) (l : Loop T) → (call f l).quit ≡ l.quit)
      → (hs : List (Loop T → Loop T)) (l : Loop T) → KeepQuit hs
      → l.quit ≡ false
      → (rounds call hs l).1 ≡ false
  unfolding rounds one_round do_pending_functions
  rounds-quit h [] l n e = e
  rounds-quit h (handle ∷ hs) l n e =
      ap (λ b. (if b then (l, true) else rounds call hs (one_round call handle l)).1) e
      ∙ rounds-quit h hs (do_pending_functions call (handle l)) n.1 (
          call_all-quit h (handle l).pending (record (handle l) { calling = true; pending = [] })
          ∙ n.0 l
          ∙ e)

  rounds_over :
      (hs : List (Loop T → Loop T)) (m : Loop T) → m.quit ≡ true → rounds call hs m ≡ (m, true)
  unfolding rounds
  rounds_over [] m e = ap (λ (b : Bool). (m, b)) e
  rounds_over (handle ∷ hs) m e =
      ap (λ b. if b then (m, true) else rounds call hs (one_round call handle m)) e

  -- A `quit` that comes before `loop` is forgotten: if no functor and no handler quits later,
  -- `loop` does not return, however many rounds it makes.
  pub early_quit_lost :
      ((f : T) (l : Loop T) → (call f l).quit ≡ l.quit)
      → (hs : List (Loop T → Loop T)) (here : Bool) (l : Loop T) → KeepQuit hs
      → (loop call hs (ask_quit here l)).1 ≡ false
  unfolding loop
  early_quit_lost h hs here l n =
      rounds-quit h hs (record (ask_quit here l) { looping = true; quit = false }) n refl

  -- If the first round of `loop` ends with `quit_` set, by whatever handler or functor, the
  -- functors of that round have run, and `loop` returns with that round, whatever events would
  -- follow.
  pub quit_ends_round :
      (handle : Loop T → Loop T) (hs : List (Loop T → Loop T)) (l : Loop T)
      → let m = do_pending_functions call (handle (record l { looping = true; quit = false })) in
        m.quit ≡ true → loop call (handle ∷ hs) l ≡ (record m { looping = false }, true)
  unfolding loop rounds one_round
  quit_ends_round handle hs l e =
      let m = do_pending_functions call (handle (record l { looping = true; quit = false })) in
      ap (λ (r : Loop T × Bool). (if r.1 then record r.0 { looping = false } else r.0, r.1))
        (rounds_over hs
          (do_pending_functions call (handle (record l { looping = true; quit = false }))) e)
