-- ===== src/Worker/Steps.antt =====
-- log_system/logs_code/AsyncWorker.hpp: the producers and the worker's thread as interleaved steps.
use tcp_server.Worker.{
  AsyncType, Worker, new_worker, must_wait, put, push, take_over, hand_over, ask_stop, waiting,
  handling,
}
use tcp_server.LogBuffer.{Config, is_empty}
use tcp_server.Base.{ℕ, ◌^◌, ◌<◌, ◌≡◌, true, false, not, ◌||◌, some, List, ◌∷◌, ◌++◌, length}

module _ (cfg : Config) (async_type : AsyncType) where
  -- The steps, for as long as no buffer reaches 2 GiB and no push runs over the end of the vector.
  pub data Step : Worker → Worker → Type 0 where
    -- a producer calls `Push`
    pushes :
        (w v : Worker) (src : List ℕ)
        → push cfg w src ≡ some v
        → length v.productor.bytes < 2 ^ 31
        → Step w v
    -- a producer that waited finds the room
    wakes :
        (w v : Worker) (before after : List (List ℕ)) (src : List ℕ)
        → w.blocked ≡ before ++ (src ∷ after)
        → must_wait w src ≡ false
        → put cfg w src ≡ some v
        → length v.productor.bytes < 2 ^ 31
        → Step w (record v { blocked = before ++ after })
    -- the worker's thread, woken
    takes_over :
        (w : Worker)
        → w.phase ≡ waiting
        → (w.stop || not (is_empty w.productor)) ≡ true
        → Step w (take_over w)
    -- the worker's thread, after the callback
    hands_over : (w : Worker) → w.phase ≡ handling → Step w (hand_over w)
    stops : (w : Worker) → Step w (ask_stop w)

  pub data Reach : Worker → Type 0 where
    here : Reach (new_worker cfg async_type)
    next : {w v : Worker} → Reach w → Step w v → Reach v
