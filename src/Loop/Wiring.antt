-- ===== src/Loop/Wiring.antt =====
-- src/EventLoop.cpp, src/DefaultPoller.cpp: the constructor and the destructor of a loop: its poller, the channel
-- of its eventfd, and the mark that its thread has a loop.
use tcp_server.Channel.{Channel, fresh_channel, reading}
use tcp_server.Poller.{Epoll, Poller, set_events, fresh_poller}
use tcp_server.Poller.Lives.{Watched, fresh-Watched, Gone, take_out, Watched-Gone}
use tcp_server.Base.{
  ℕ, ◌+◌, ◌≡◌, refl, ap, subst, ◌∙◌, inl, inr, Bool, Option, none, some, List, [], ◌∷◌, arith, ◌==◌,
  if◌then◌else◌, Bool-cases,
}

-- `newDefaultPoller`: no poller where the environment asks for `poll`, for which there is none.
unfoldable pub new_default_poller : {k : Epoll} → Bool → k.State → Option (Poller k)
new_default_poller {k} use_poll s = if use_poll then none else some (fresh_poller k s)

-- A thread that makes loops: `loop_in_this_thread` is its `t_loopInThisThread`, with a loop's address for
-- a pointer; `logged` counts the log lines about a second loop, `open_fds` lists its eventfds.
pub record LoopThreadState : Type 0 where
  pub loop_in_this_thread : Option ℕ
  pub logged : ℕ
  pub open_fds : List ℕ

-- What a loop keeps of its own.
pub record Wired (k : Epoll) : Type 0 where
  pub self : ℕ
  pub poller : Poller k
  pub wakeup_fd : ℕ
  pub wakeup_channel : Channel

-- The mark, as the constructor leaves it.
abbrev pub mark : ℕ → LoopThreadState → LoopThreadState
mark self t = elim t.loop_in_this_thread [
  | none ↦ record t { loop_in_this_thread = some self }
  | some other ↦ record t { logged = t.logged + 1 }
]

abbrev pub without : ℕ → List ℕ → List ℕ
without fd [] = []
without fd (x ∷ xs) = let rest = without fd xs in if x == fd then rest else x ∷ rest

mark_first :
    (self : ℕ) (t : LoopThreadState)
    → t.loop_in_this_thread ≡ none
    → (mark self t).loop_in_this_thread ≡ some self
mark_first self t h =
    ap
      (λ (o : Option ℕ).
        (elim o as (λ _. LoopThreadState) [
          | none ↦ record t { loop_in_this_thread = some self }
          | some other ↦ record t { logged = t.logged + 1 }
        ]).loop_in_this_thread)
      h

mark_second :
    (self first : ℕ) (t : LoopThreadState)
    → t.loop_in_this_thread ≡ some first
    → ((mark self t).loop_in_this_thread ≡ some first) × ((mark self t).logged ≡ t.logged + 1)
mark_second self first t h =
    let pick : Option ℕ → LoopThreadState = λ o. elim o [
      | none ↦ record t { loop_in_this_thread = some self }
      | some other ↦ record t { logged = t.logged + 1 }
    ] in
    (ap (λ o. (pick o).loop_in_this_thread) h ∙ h, ap (λ o. (pick o).logged) h)

module _ {k : Epoll} where
  -- The constructor, over a poller, with the addresses of the loop and of the channel and the eventfd.
  unfoldable pub new_event_loop : Poller k → ℕ → ℕ → ℕ → LoopThreadState → Wired k × LoopThreadState
  new_event_loop p self channel fd t =
      let (q, c) = set_events reading p (fresh_channel channel fd) in
      (
        record { self = self; poller = q; wakeup_fd = fd; wakeup_channel = c },
        mark self (record t { open_fds = fd ∷ t.open_fds }),
      )

  -- The destructor.
  unfoldable pub end_event_loop : Wired k → LoopThreadState → Wired k × LoopThreadState
  end_event_loop l t =
      let (q, c) = take_out l.poller l.wakeup_channel in
      (
        record l { poller = q; wakeup_channel = c },
        record t { open_fds = without l.wakeup_fd t.open_fds; loop_in_this_thread = none },
      )

  -- A loop that a thread without one makes over a fresh poller marks the thread as its own and is
  -- watched for the eventfd, so that a write to it wakes the poller; its destructor leaves the poller
  -- without any descriptor and the thread without a mark.
  pub new_event_loop_lem :
      (s : k.State) (self channel fd : ℕ) (t : LoopThreadState)
      → k.interest s fd ≡ none
      → t.loop_in_this_thread ≡ none
      → let made = new_event_loop (fresh_poller k s) self channel fd t in
        let ended = end_event_loop made.0 made.1 in
        Watched (fresh_poller k s) channel fd (made.0.poller, made.0.wakeup_channel)
        × (made.1.loop_in_this_thread ≡ some self)
        × Gone (fresh_poller k s) fd ended.0.poller
        × ((j : ℕ) → ended.0.poller.channels j ≡ none)
        × (ended.1.loop_in_this_thread ≡ none)
  unfolding new_event_loop end_event_loop fresh_poller
  new_event_loop_lem s self channel fd t e h =
      let p = fresh_poller k s in
      let w = fresh-Watched p channel fd (record { in_list = refl; in_epoll = e }) in
      let q = set_events reading p (fresh_channel channel fd) in
      let g = Watched-Gone p q.0 q.1 channel fd w in
      (
        w,
        mark_first self (record t { open_fds = fd ∷ t.open_fds }) h,
        g,
        (λ j. elim (Bool-cases (j == fd)) [
          | inl same ↦
              let equal : fd ≡ j = ground (arith, same) in
              subst (λ n. (take_out q.0 q.1).0.channels n ≡ none) equal g.unused.in_list
          | inr other ↦ g.others.channels j (λ x. ground (arith, other, x))
        ]),
        refl,
      )

  -- A second loop in one thread is only logged; its destructor takes the mark of the first away.
  pub second_loop_unmarks :
      (p : Poller k) (first self channel fd : ℕ) (t : LoopThreadState)
      → t.loop_in_this_thread ≡ some first
      → let made = new_event_loop p self channel fd t in
        (made.1.loop_in_this_thread ≡ some first)
        × (made.1.logged ≡ t.logged + 1)
        × ((end_event_loop made.0 made.1).1.loop_in_this_thread ≡ none)
  unfolding new_event_loop end_event_loop
  second_loop_unmarks p first self channel fd t h =
      let r = mark_second self first (record t { open_fds = fd ∷ t.open_fds }) h in (r.0, r.1, refl)
