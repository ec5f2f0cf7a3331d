-- ===== src/LoopThread/Tests.antt =====
-- The theorems about threads at concrete values.
use tcp_server.LoopThread.{
  EventLoopThread, new_event_loop_thread, init_thread, unborn, made, told, published, looping,
  holding, joining,
}
use tcp_server.LoopThread.Steps.{starts, tells, publishes, gets, Reach, here, next, done}
use tcp_server.LoopThread.Handshake.{start_loop_returns, hung, destructor_hangs}
use tcp_server.Base.{ℕ, ◌≡◌, refl, ◌≢◌, true, false, List, [], ◌∷◌, codes}

-- A thread with a callback, whose loop the owner has got.
abbrev got : EventLoopThread
got = record {
  loop_ = true;
  exiting = false;
  quit = false;
  has_callback = true;
  init_calls = 1;
  inside = published;
  owner = holding;
}

got-Reach : Reach true got
unfolding new_event_loop_thread init_thread
got-Reach =
    next (next (next (next here (starts _ refl)) (tells _ refl)) (publishes _ refl))
      (gets _ refl refl)

start_loop_returns_example :
    (got.init_calls ≡ 1) × (got.inside ≢ unborn) × (got.inside ≢ made) × (got.inside ≢ told)
start_loop_returns_example = start_loop_returns true got got-Reach refl

destructor_hangs_example :
    Reach true (hung true) × ((hung true).owner ≡ joining) × ((hung true).inside ≡ looping)
destructor_hangs_example = destructor_hangs true (hung true) (done (hung true))

abbrev three : List (List ℕ)
three = [] ∷ codes "io" ∷ [] ∷ []
