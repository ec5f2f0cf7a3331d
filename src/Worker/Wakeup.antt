-- ===== src/Worker/Wakeup.antt =====
-- log_system/logs_code/AsyncWorker.hpp: `Stop` and the wait of the worker's thread, taken apart. `Stop`
-- does not take the mutex.
use tcp_server.Base.{◌≡◌, refl, ◌≢◌, Bool, true, false, ◌||◌}

-- The worker's thread tests the predicate, has found it false and goes to sleep, sleeps, works with what
-- it was woken for, or has returned. In the first two it holds the mutex.
pub data Place : Type 0 where
  testing dozing asleep working gone : Place

-- The thread that calls `Stop`: before it, between the store and the notification, in `join`, or behind.
pub data Caller : Type 0 where
  before storing joining behind : Caller

-- `has_data` says whether the producers' buffer is not empty.
pub record Wait : Type 0 where
  pub stop : Bool
  pub has_data : Bool
  pub place : Place
  pub caller : Caller

-- A notification wakes a thread that sleeps, and is lost on any other.
abbrev pub notified : Place → Place
notified asleep = testing
notified p = p

-- The steps; a sleep does not end by itself.
pub data Step : Wait → Wait → Type 0 where
  finds_nothing :
      (s : Wait)
      → s.place ≡ testing
      → (s.stop || s.has_data) ≡ false
      → Step s (record s { place = dozing })
  falls_asleep : (s : Wait) → s.place ≡ dozing → Step s (record s { place = asleep })
  -- the swap, which leaves the producers an empty buffer
  finds_work :
      (s : Wait)
      → s.place ≡ testing
      → (s.stop || s.has_data) ≡ true
      → Step s (record s { place = working; has_data = false })
  -- the callback, and the next round, where `Stop` was not seen at the swap
  goes_on : (s : Wait) → s.place ≡ working → Step s (record s { place = testing })
  returns : (s : Wait) → s.place ≡ working → s.stop ≡ true → Step s (record s { place = gone })
  -- a producer's `Push`, which takes the mutex; once `stop_` is set it does nothing
  pushes :
      (s : Wait)
      → s.place ≢ testing
      → s.place ≢ dozing
      → s.stop ≡ false
      → Step s (record s { has_data = true; place = notified s.place })
  -- `Stop`: the store, the notification, and the return of `join`
  stores : (s : Wait) → s.caller ≡ before → Step s (record s { stop = true; caller = storing })
  notifies :
      (s : Wait)
      → s.caller ≡ storing
      → Step s (record s { place = notified s.place; caller = joining })
  joins : (s : Wait) → s.caller ≡ joining → s.place ≡ gone → Step s (record s { caller = behind })

abbrev pub new_wait : Wait
new_wait = record { stop = false; has_data = false; place = testing; caller = before }

pub data Reach : Wait → Type 0 where
  here : Reach new_wait
  next : {s t : Wait} → Reach s → Step s t → Reach t

pub data Steps : Wait → Wait → Type 0 where
  done : (s : Wait) → Steps s s
  more : {s t u : Wait} → Steps s t → Step t u → Steps s u

-- `Stop` has notified nobody, and the thread has gone to sleep after it.
abbrev pub missed : Wait
missed = record { stop = true; has_data = false; place = asleep; caller = joining }

record Stuck (s : Wait) : Type 0 where
  stop : s.stop ≡ true
  place : s.place ≡ asleep
  caller : s.caller ≡ joining

Stuck-Step : {s t : Wait} → Step s t → Stuck s → Stuck t
Stuck-Step (finds_nothing s e f) k = cc (e, k.place)
Stuck-Step (falls_asleep s e) k = cc (e, k.place)
Stuck-Step (finds_work s e f) k = cc (e, k.place)
Stuck-Step (goes_on s e) k = cc (e, k.place)
Stuck-Step (returns s e f) k = cc (e, k.place)
Stuck-Step (pushes s e f g) k = cc (g, k.stop)
Stuck-Step (stores s e) k = cc (e, k.caller)
Stuck-Step (notifies s e) k = cc (e, k.caller)
Stuck-Step (joins s e f) k = cc (f, k.place)

Stuck-Steps : {s t : Wait} → Steps s t → Stuck s → Stuck t
Stuck-Steps (done s) k = k
Stuck-Steps (more r x) k = Stuck-Step x (Stuck-Steps r k)

-- `Stop` can wait for ever: there is a run in which its notification comes between the test and the sleep
-- of the worker's thread, and after whatever further steps the thread still sleeps and `Stop` is still
-- in `join`.
pub stop_hangs :
    (t : Wait) → Steps missed t → Reach missed × (t.place ≡ asleep) × (t.caller ≡ joining)
stop_hangs t x =
    let r : Reach missed =
      next (next (next (next here (finds_nothing _ refl refl)) (stores _ refl)) (notifies _ refl))
        (falls_asleep _ refl) in
    let k = Stuck-Steps x (record { stop = refl; place = refl; caller = refl }) in
    (r, k.place, k.caller)
