-- ===== src/ThreadPool/Steps.antt =====
-- log_system/logs_code/ThreadPool.hpp: the callers and the threads of the pool as interleaved steps.
use tcp_server.ThreadPool.{
  Pool, Place, running, fresh_pool, fresh_workers, enqueue, ready, take_task, finish_task,
  stop_pool, waiting,
}
use tcp_server.Base.{ℕ, ◌≡◌, true, some, List, ◌∷◌, ◌++◌}

pub record System (T : Type 0) : Type 0 where
  pub pool : Pool T
  pub workers : List (Place T)

module _ {T : Type 0} where
  pub data Step : System T → System T → Type 0 where
    -- a caller's `enqueue`
    enqueues :
        (s : System T) (f : T) (p : Pool T)
        → enqueue f s.pool ≡ some p
        → Step s (record s { pool = p })
    -- a thread is woken and takes a task, or ends
    takes :
        (s : System T) (before after : List (Place T))
        → s.workers ≡ before ++ (waiting ∷ after)
        → ready s.pool ≡ true
        → Step s (record {
          pool = (take_task s.pool).0;
          workers = before ++ ((take_task s.pool).1 ∷ after);
        })
    -- a thread's task returns
    returns :
        (s : System T) (before after : List (Place T)) (f : T)
        → s.workers ≡ before ++ (running f ∷ after)
        → Step s (record { pool = finish_task f s.pool; workers = before ++ (waiting ∷ after) })
    -- the destructor
    stops : (s : System T) → Step s (record s { pool = stop_pool s.pool })

  pub data Reach (threads : ℕ) : System T → Type 0 where
    here : Reach threads (record { pool = fresh_pool; workers = fresh_workers threads })
    next : {s t : System T} → Reach threads s → Step s t → Reach threads t
