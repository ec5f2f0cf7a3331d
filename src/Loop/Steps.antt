-- ===== src/Loop/Steps.antt =====
-- src/EventLoop.cpp: the loop's thread and any number of other threads that queue functors, as
-- interleaved steps, from the loop's constructor through the first run of `loop()`.
use tcp_server.Base.{ℕ, suc, ◌+◌, ◌≡◌, ◌≢◌, true, false, List, [], ◌∷◌, ◌++◌}
use tcp_server.Loop.{Loop, fresh_loop, wakeup, handle_read, push, queue_in_loop}

-- Where the loop's thread is: before its call of `loop()`, in `epoll_wait`, handling events, or
-- running the functors that it swapped out.
pub data Phase (T : Type 0) : Type 0 where
  starting : Phase T
  polling : Phase T
  handling : Phase T
  running : List T → Phase T

-- `unwoken` counts the threads that have pushed a functor and not yet written the eventfd;
-- `submitted` lists the functors in the order in which they were pushed, `early` those that the
-- loop's own thread queued before `loop()`; `rounds` counts the rounds that have reached the queue.
pub record System (T : Type 0) : Type 0 where
  pub loop : Loop T
  pub phase : Phase T
  pub unwoken : ℕ
  pub submitted : List T
  pub early : List T
  pub rounds : ℕ

-- The functors that the loop's thread has still to run in this round.
abbrev pub in_hand : {T : Type 0} → Phase T → List T
in_hand starting = []
in_hand polling = []
in_hand handling = []
in_hand (running fs) = fs

module _ {T : Type 0} where
  pub data Step : System T → System T → Type 0 where
    -- another thread's `queueInLoop`, in its two halves
    foreign_push :
        (s : System T) (f : T)
        → Step s (record s {
          loop = push f s.loop;
          unwoken = s.unwoken + 1;
          submitted = s.submitted ++ (f ∷ []);
        })
    foreign_wake :
        (s : System T) (n : ℕ)
        → s.unwoken ≡ suc n
        → Step s (record s { loop = wakeup s.loop; unwoken = n })
    -- `queueInLoop` by a handler or a functor, in the loop's own thread
    own_queue :
        (s : System T) (f : T)
        → s.phase ≢ polling
        → s.phase ≢ starting
        → Step s
            (record s { loop = queue_in_loop true f s.loop; submitted = s.submitted ++ (f ∷ []) })
    -- `queueInLoop` in the loop's own thread before `loop()`, as by the thread's init callback
    early_queue :
        (s : System T) (f : T)
        → s.phase ≡ starting
        → Step s (record s {
          loop = queue_in_loop true f s.loop;
          submitted = s.submitted ++ (f ∷ []);
          early = s.early ++ (f ∷ []);
        })
    -- `loop()` is called and goes to the poller
    loop_begins :
        (s : System T)
        → s.phase ≡ starting
        → Step s
            (record s { loop = record s.loop { looping = true; quit = false }; phase = polling })
    -- `epoll_wait` returns, for an event, the eventfd or its timeout
    poll_returns : (s : System T) → s.phase ≡ polling → Step s (record s { phase = handling })
    -- the channel of the eventfd is among the active ones
    wake_read :
        (s : System T) → s.phase ≡ handling → Step s (record s { loop = handle_read s.loop })
    -- `doPendingFunctions`: the swap, the calls one by one, and the return to the poller
    swap_out :
        (s : System T)
        → s.phase ≡ handling
        → Step s (record s {
          loop = record s.loop { calling = true; pending = [] };
          phase = running s.loop.pending;
          rounds = s.rounds + 1;
        })
    call_next :
        (s : System T) (f : T) (fs : List T)
        → s.phase ≡ running (f ∷ fs)
        → Step s (record s {
          loop = record s.loop { called = s.loop.called ++ (f ∷ []) };
          phase = running fs;
        })
    round_ends :
        (s : System T)
        → s.phase ≡ running []
        → Step s (record s { loop = record s.loop { calling = false }; phase = polling })

  abbrev pub start : System T
  start = record {
    loop = fresh_loop;
    phase = starting;
    unwoken = 0;
    submitted = [];
    early = [];
    rounds = 0;
  }

  pub data Reach : System T → Type 0 where
    here : Reach start
    next : {s t : System T} → Reach s → Step s t → Reach t
