-- ===== src/LoopThread.antt =====
-- include/Thread.hpp, src/Thread.cpp, src/CurrentThread.cpp, src/EventLoopThread.cpp: threads, their names, and the
-- thread that runs a loop of its own. Fewer than 2 ^ 31 threads are created, so that their number does
-- not wrap around.
pub mod Steps
pub mod Handshake
pub mod Naming
mod Tests
use tcp_server.Base.{
  to_string, ℕ, ◌+◌, Bool, true, false, not, ◌&&◌, List, [], ◌∷◌, ◌++◌, ◌==◌, if◌then◌else◌, codes,
}

pub record Thread : Type 0 where
  pub started : Bool
  pub joined : Bool
  pub detached : Bool
  pub name : List ℕ

-- `setDefaultName`, with the number of the threads that were created before; the new number is beside.
unfoldable pub set_default_name : ℕ → List ℕ → List ℕ × ℕ
set_default_name num_created [] = (codes "Thread" ++ to_string (num_created + 1), num_created + 1)
set_default_name num_created (c ∷ cs) = (c ∷ cs, num_created + 1)

-- The constructor.
unfoldable pub new_thread : ℕ → List ℕ → Thread × ℕ
new_thread num_created name =
    let (n, num) = set_default_name num_created name in
    (record { started = false; joined = false; detached = false; name = n }, num)

-- `start`, up to the new thread.
unfoldable pub start_thread : Thread → Thread
start_thread t = record t { started = true }

-- `join`, where it has returned.
unfoldable pub join_thread : Thread → Thread
join_thread t = record t { joined = true }

-- The destructor.
unfoldable pub end_thread : Thread → Thread
end_thread t = if t.started && not t.joined then record t { detached = true } else t

-- `CurrentThread::tid`, with what the thread has cached, 0 for nothing; the result is beside the new cache,
-- and how often the kernel was asked.
unfoldable pub tid : ℕ → ℕ → ℕ × ℕ × ℕ
tid gettid cached = if cached == 0 then (gettid, gettid, 1) else (cached, cached, 0)

-- Where the new thread is: not started, with its loop made, after the callback, with the loop's address
-- published, in `loop`, behind it, or ended.
pub data Inside : Type 0 where
  unborn made told published looping left ended : Inside

-- Where the owner is: before `startLoop`, waiting in it, with the loop that it gave, in the destructor's
-- `join`, or behind the destructor.
pub data Owner : Type 0 where
  idle waiting holding joining over : Owner

-- `loop_` says whether the pointer is not null; `quit` is the loop's `quit_`, and `init_calls` how often
-- the callback was called.
pub record EventLoopThread : Type 0 where
  pub loop_ : Bool
  pub exiting : Bool
  pub quit : Bool
  pub has_callback : Bool
  pub init_calls : ℕ
  pub inside : Inside
  pub owner : Owner

unfoldable pub new_event_loop_thread : Bool → EventLoopThread
new_event_loop_thread has_callback = record {
  loop_ = false;
  exiting = false;
  quit = false;
  has_callback = has_callback;
  init_calls = 0;
  inside = unborn;
  owner = idle;
}

-- The callback of `threadFunc`.
unfoldable pub init_thread : EventLoopThread → EventLoopThread
init_thread s = record s {
  init_calls = if s.has_callback then s.init_calls + 1 else s.init_calls;
  inside = told;
}

-- The destructor, up to the join.
unfoldable pub destroy : EventLoopThread → EventLoopThread
destroy s =
    if s.loop_
    then record s { exiting = true; quit = true; owner = joining }
    else record s { exiting = true; owner = over }
