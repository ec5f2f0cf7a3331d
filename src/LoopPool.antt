-- ===== src/LoopPool.antt =====
-- include/EventLoopThreadPool.hpp and src/EventLoopThreadPool.cpp: the loops that share the
-- connections, handed out in turn. A loop is a number that stands for its address.
pub mod Turns
mod Tests
use tcp_server.Base.{
  to_string, ℕ, zero, suc, ◌+◌, Bool, true, false, ◌&&◌, List, [], ◌∷◌, ◌++◌, leb, ◌==◌,
  if◌then◌else◌, length, get_or,
}

pub record LoopPool : Type 0 where
  pub base_loop : ℕ
  pub name : List ℕ
  pub started : Bool
  pub num_threads : ℕ
  pub next : ℕ
  pub threads : List (List ℕ)
  pub loops : List ℕ

-- `threads` are the names of the threads; `initialised` the loops that the thread callback was
-- called for by the pool itself.
unfoldable pub fresh_pool : ℕ → List ℕ → LoopPool
fresh_pool base name = record {
  base_loop = base;
  name = name;
  started = false;
  num_threads = 0;
  next = 0;
  threads = [];
  loops = [];
}

unfoldable pub set_thread_num : ℕ → LoopPool → LoopPool
set_thread_num n p = record p { num_threads = n }

-- The loop of `start`, from thread `i` on, with `n` threads still to start. `start_loop` gives the
-- loop that a new thread runs.
start_threads : (ℕ → ℕ) → ℕ → ℕ → LoopPool → LoopPool
start_threads start_loop zero i p = p
start_threads start_loop (suc n) i p = start_threads start_loop n (i + 1) (record p {
  threads = p.threads ++ ((p.name ++ to_string i) ∷ []);
  loops = p.loops ++ (start_loop i ∷ []);
})

-- `start`; the second part says whether the callback is called for the base loop.
unfoldable pub start_pool : (ℕ → ℕ) → Bool → LoopPool → LoopPool × Bool
unfolding start_threads
start_pool start_loop has_callback p = (
  start_threads start_loop p.num_threads 0 (record p { started = true }),
  p.num_threads == 0 && has_callback,
)

next_index : LoopPool → ℕ
next_index p = if leb (length p.loops) (p.next + 1) then 0 else p.next + 1

next_of : List ℕ → LoopPool → ℕ × LoopPool
next_of [] p = (p.base_loop, p)
next_of (l ∷ ls) p = (get_or (l ∷ ls) p.next p.base_loop, record p { next = next_index p })

-- `getNextLoop`
unfoldable pub get_next_loop : LoopPool → ℕ × LoopPool
unfolding next_of next_index
get_next_loop p = next_of p.loops p

all_of : List ℕ → ℕ → List ℕ
all_of [] base = base ∷ []
all_of (l ∷ ls) base = l ∷ ls

-- `getAllLoops`
unfoldable pub get_all_loops : LoopPool → List ℕ
unfolding all_of
get_all_loops p = all_of p.loops p.base_loop
