-- ===== src/Loop/Tests.antt =====
-- The theorems about the loop at concrete functors: a functor is a number that queues its
-- predecessor, and 0 queues nothing.
use tcp_server.Base.{
  ℕ, zero, suc, ◌<◌, ◌≡◌, refl, true, false, List, [], ◌∷◌, ◌++◌, none, some, ◌⊎◌,
}
use tcp_server.Loop.{Loop, fresh_loop, wakeup, push}
use tcp_server.Loop.Wiring.{LoopThreadState, new_event_loop, end_event_loop, new_event_loop_lem}
use tcp_server.Poller.{fresh_poller}
use tcp_server.Poller.Tests.{tables}
use tcp_server.Poller.Lives.{Watched, Gone}
use tcp_server.Loop.Threads.{Reach-in_order, no_lost_wakeup}
use tcp_server.Loop.Steps.{
  starting, loop_begins, polling, System, start, Reach, here, next, foreign_push, foreign_wake,
}

abbrev before : ℕ → List ℕ
before zero = []
before (suc n) = n ∷ []

abbrev two_queued : Loop ℕ
two_queued = record {
  looping = true;
  quit = false;
  calling = false;
  pending = 3 ∷ 0 ∷ [];
  wakeups = 0;
  called = [];
}

abbrev no_call : ℕ → Loop ℕ → Loop ℕ
no_call f l = l

-- Another thread queues a functor and writes the eventfd.
abbrev woken : System ℕ
woken = record {
  loop = wakeup (push 5 (fresh_loop {T = ℕ}));
  phase = starting;
  unwoken = 0;
  submitted = 5 ∷ [];
  early = [];
  rounds = 0;
}

-- The loop's thread has then gone to the poller.
abbrev polled : System ℕ
polled = record woken { loop = record woken.loop { looping = true }; phase = polling }

woken-Reach : Reach woken
unfolding fresh_loop push wakeup
woken-Reach = next (next here (foreign_push (start {T = ℕ}) 5)) (foreign_wake _ 0 refl)

polled-Reach : Reach polled
unfolding fresh_loop push wakeup
polled-Reach = next woken-Reach (loop_begins woken refl)

no_lost_wakeup_example :
    0 < polled.loop.wakeups ⊎ ((polled.rounds ≡ 0) × (polled.loop.pending ≡ []))
unfolding fresh_loop push wakeup
no_lost_wakeup_example = no_lost_wakeup polled polled-Reach refl refl (λ e. cc e)

Reach-in_order_example : 5 ∷ [] ≡ woken.loop.called ++ ([] ++ woken.loop.pending)
Reach-in_order_example = Reach-in_order woken-Reach

abbrev no_loop_yet : LoopThreadState
no_loop_yet = record { loop_in_this_thread = none; logged = 0; open_fds = [] }

new_event_loop_lem_example :
    let made = new_event_loop (fresh_poller tables (λ j. none)) 1 2 5 no_loop_yet in
    let ended = end_event_loop made.0 made.1 in
    Watched (fresh_poller tables (λ j. none)) 2 5 (made.0.poller, made.0.wakeup_channel)
    × (made.1.loop_in_this_thread ≡ some 1)
    × Gone (fresh_poller tables (λ j. none)) 5 ended.0.poller
    × ((j : ℕ) → ended.0.poller.channels j ≡ none)
    × (ended.1.loop_in_this_thread ≡ none)
new_event_loop_lem_example = new_event_loop_lem (λ j. none) 1 2 5 no_loop_yet refl refl
