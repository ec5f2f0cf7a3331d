-- ===== src/LoopPool/Tests.antt =====
-- The theorems about the pool at concrete values.
use tcp_server.Base.{◌+◌, ◌≡◌, true, false, [], ◌∷◌, arith}
use tcp_server.LoopPool.{LoopPool, fresh_pool, set_thread_num, start_pool}
use tcp_server.LoopPool.Turns.{calls, start_pool-turns}

abbrev three_loops : LoopPool
three_loops = record {
  base_loop = 9;
  name = 112 ∷ [];
  started = true;
  num_threads = 3;
  next = 1;
  threads = [];
  loops = 10 ∷ 11 ∷ 12 ∷ [];
}

start_pool-turns_example :
    (calls 3 (start_pool (λ i. 10 + i) false (set_thread_num 2 (fresh_pool 9 (112 ∷ [])))).0).0
    ≡ 10 ∷ 11 ∷ 10 ∷ []
start_pool-turns_example = start_pool-turns (λ i. 10 + i) false 9 (112 ∷ []) 2 3 (omega arith)
