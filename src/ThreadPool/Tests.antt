-- ===== src/ThreadPool/Tests.antt =====
-- The theorems about the pool of threads at a concrete run: one thread, one task, the destructor.
use tcp_server.ThreadPool.{
  Pool, running, fresh_pool, fresh_workers, enqueue, ready, take_task, finish_task, stop_pool,
  waiting, ended,
}
use tcp_server.ThreadPool.Steps.{System, Reach, stops, here, next, enqueues, takes, returns}
use tcp_server.ThreadPool.Done.{all_run}
use tcp_server.Base.{tally}
use tcp_server.Base.{ℕ, ◌≡◌, refl, Bool, true, false, [], ◌∷◌, arith}

abbrev ran : System ℕ
ran = record {
  pool = record { tasks = []; stop = true; accepted = 5 ∷ []; taken = 5 ∷ []; finished = 5 ∷ [] };
  workers = ended ∷ [];
}

abbrev at_start : System ℕ
at_start = record {
  pool = record { tasks = []; stop = false; accepted = []; taken = []; finished = [] };
  workers = waiting ∷ [];
}

abbrev queued : Pool ℕ
queued = record { tasks = 5 ∷ []; stop = false; accepted = 5 ∷ []; taken = []; finished = [] }

ran-Reach : Reach 1 ran
unfolding enqueue take_task finish_task stop_pool ready fresh_pool fresh_workers
ran-Reach =
    let r0 : Reach 1 at_start = here in
    let s1 : System ℕ = record { pool = queued; workers = waiting ∷ [] } in
    let r1 : Reach 1 s1 = next r0 (enqueues at_start 5 queued refl) in
    let s2 : System ℕ = record {
      pool = record { tasks = []; stop = false; accepted = 5 ∷ []; taken = 5 ∷ []; finished = [] };
      workers = running 5 ∷ [];
    } in
    let r2 : Reach 1 s2 = next r1 (takes s1 [] [] refl refl) in
    let s3 : System ℕ = record {
      pool = record {
        tasks = [];
        stop = false;
        accepted = 5 ∷ [];
        taken = 5 ∷ [];
        finished = 5 ∷ [];
      };
      workers = waiting ∷ [];
    } in
    let r3 : Reach 1 s3 = next r2 (returns s2 [] [] 5 refl) in
    let s4 : System ℕ = record s3 {
      pool = record {
        tasks = [];
        stop = true;
        accepted = 5 ∷ [];
        taken = 5 ∷ [];
        finished = 5 ∷ [];
      };
    } in
    let r4 : Reach 1 s4 = next r3 (stops s3) in next r4 (takes s4 [] [] refl refl)

all_run_example :
    (ran.pool.tasks ≡ []) × ((p : ℕ → Bool) → tally p ran.pool.finished ≡ tally p ran.pool.accepted)
all_run_example = all_run 1 ran ran-Reach refl (omega arith)
