-- ===== src/ThreadPool.antt =====
-- log_system/logs_code/ThreadPool.hpp: the queue of tasks and the threads that take from it. What
-- a task does is not looked at: `T` is any type.
pub mod Steps
pub mod Done
mod Tests
use tcp_server.Base.{
  ℕ, Bool, true, false, not, ◌||◌, Option, none, some, List, [], ◌∷◌, ◌++◌, if◌then◌else◌,
  replicate,
}

-- `taken` lists the tasks in the order in which the threads took them, `accepted` those that
-- `enqueue` put into the queue, `finished` those that have returned; the code keeps none of these.
pub record Pool (T : Type 0) : Type 0 where
  pub tasks : List T
  pub stop : Bool
  pub accepted : List T
  pub taken : List T
  pub finished : List T

-- Where a thread of the pool is.
pub data Place (T : Type 0) : Type 0 where
  waiting ended : Place T
  running : T → Place T

module _ {T : Type 0} where
  unfoldable pub fresh_pool : Pool T
  fresh_pool = record { tasks = []; stop = false; accepted = []; taken = []; finished = [] }

  unfoldable pub fresh_workers : ℕ → List (Place T)
  fresh_workers threads = replicate threads waiting

  -- `none` is the exception of a pool that has been stopped.
  unfoldable pub enqueue : T → Pool T → Option (Pool T)
  enqueue f p =
      if p.stop
      then none
      else some (record p { tasks = p.tasks ++ (f ∷ []); accepted = p.accepted ++ (f ∷ []) })

  abbrev pub none_left : List T → Bool
  none_left [] = true
  none_left (f ∷ fs) = false

  -- The predicate of the condition variable.
  unfoldable pub ready : Pool T → Bool
  ready p = p.stop || not (none_left p.tasks)

  abbrev pub from_queue : List T → Pool T → Pool T × Place T
  from_queue [] p = (p, ended)
  from_queue (f ∷ fs) p = (record p { tasks = fs; taken = p.taken ++ (f ∷ []) }, running f)

  -- What a woken thread does under the mutex; the place is where it goes on. With an empty queue it
  -- was woken by the stop, and ends.
  unfoldable pub take_task : Pool T → Pool T × Place T
  take_task p = from_queue p.tasks p

  -- `task()` returns.
  unfoldable pub finish_task : T → Pool T → Pool T
  finish_task f p = record p { finished = p.finished ++ (f ∷ []) }

  -- The destructor, up to the joins.
  unfoldable pub stop_pool : Pool T → Pool T
  stop_pool p = record p { stop = true }
