-- ===== src/Loop.antt =====
-- include/EventLoop.hpp and src/EventLoop.cpp: the queue of functors, the eventfd that wakes the
-- loop's thread, and the loop itself. `Functor` is a type parameter with what a call does; the ready
-- channels of a round are a function on the loop's state.
pub mod Rounds
pub mod Steps
pub mod Threads
pub mod Wiring
mod Tests
use tcp_server.Base.{ℕ, ◌+◌, Bool, true, false, not, ◌||◌, List, [], ◌∷◌, ◌++◌, if◌then◌else◌}

-- `pengdingFuntors_` is `pending`, `callingPendingFuntors_` is `calling`, and `wakeups` the counter
-- of the eventfd. `called` lists the functors that were called, which the code does not keep.
pub record Loop (T : Type 0) : Type 0 where
  pub looping : Bool
  pub quit : Bool
  pub calling : Bool
  pub pending : List T
  pub wakeups : ℕ
  pub called : List T

module _ {T : Type 0} where
  -- The constructor, as far as these fields go.
  unfoldable pub fresh_loop : Loop T
  fresh_loop = record {
    looping = false;
    quit = false;
    calling = false;
    pending = [];
    wakeups = 0;
    called = [];
  }

  -- `write(wakeupFd_, &one, 8)` adds one to the counter.
  unfoldable pub wakeup : Loop T → Loop T
  wakeup l = record l { wakeups = l.wakeups + 1 }

  -- `read(wakeupFd_, …)` takes the counter back to zero.
  unfoldable pub handle_read : Loop T → Loop T
  handle_read l = record l { wakeups = 0 }

  -- The part of `queueInLoop` under the mutex.
  unfoldable pub push : T → Loop T → Loop T
  push f l = record l { pending = l.pending ++ (f ∷ []) }

  -- `queueInLoop`; `here` is `isInLoopThread()`.
  unfoldable pub queue_in_loop : Bool → T → Loop T → Loop T
  queue_in_loop here f l = if not here || (push f l).calling then wakeup (push f l) else push f l

  -- `quit`
  unfoldable pub ask_quit : Bool → Loop T → Loop T
  ask_quit here l = let m : Loop T = record l { quit = true } in if not here then wakeup m else m

  module _ (call : T → Loop T → Loop T) where
    unfoldable pub run_in_loop : Bool → T → Loop T → Loop T
    run_in_loop here f l = if here then call f l else queue_in_loop here f l

    call_one : T → Loop T → Loop T
    call_one f l = call f (record l { called = l.called ++ (f ∷ []) })

    call_all : List T → Loop T → Loop T
    call_all [] l = l
    call_all (f ∷ fs) l = call_all fs (call_one f l)

    -- `doPendingFunctions`: the queue is swapped out before the first functor runs.
    unfoldable pub do_pending_functions : Loop T → Loop T
    unfolding call_one call_all
    do_pending_functions l =
        record (call_all l.pending (record l { calling = true; pending = [] })) { calling = false }

    -- A round of `loop`: the ready channels handle their events, then the functors run.
    one_round : (Loop T → Loop T) → Loop T → Loop T
    one_round handle l = do_pending_functions (handle l)

    -- The rounds of `loop`, one for each answer of the poller; `true` if `loop` has returned.
    rounds : List (Loop T → Loop T) → Loop T → Loop T × Bool
    rounds [] l = (l, l.quit)
    rounds (handle ∷ hs) l =
        let rest = rounds hs (one_round handle l) in if l.quit then (l, true) else rest

    unfoldable pub loop : List (Loop T → Loop T) → Loop T → Loop T × Bool
    unfolding one_round rounds
    loop handles l =
        let (m, over) = rounds handles (record l { looping = true; quit = false }) in
        (if over then record m { looping = false } else m, over)
