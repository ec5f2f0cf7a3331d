-- ===== src/LoopThread/Steps.antt =====
-- src/EventLoopThread.cpp: the owner's calls and the new thread as interleaved steps.
use tcp_server.LoopThread.{
  EventLoopThread, new_event_loop_thread, init_thread, destroy, made, told, published, looping,
  left, ended, idle, waiting, holding, joining, over,
}
use tcp_server.Base.{◌≡◌, Bool, true, false}

pub data Step : EventLoopThread → EventLoopThread → Type 0 where
  -- the owner's `startLoop`, up to the wait; the new thread makes its loop
  starts :
      (s : EventLoopThread) → s.owner ≡ idle → Step s (record s { owner = waiting; inside = made })
  -- the new thread's callback, and the publishing of its loop
  tells : (s : EventLoopThread) → s.inside ≡ made → Step s (init_thread s)
  publishes :
      (s : EventLoopThread)
      → s.inside ≡ told
      → Step s (record s { inside = published; loop_ = true })
  -- `startLoop` returns
  gets :
      (s : EventLoopThread)
      → s.owner ≡ waiting
      → s.loop_ ≡ true
      → Step s (record s { owner = holding })
  -- `loop` begins, which resets `quit_`, and ends when it finds `quit_` set
  enters :
      (s : EventLoopThread)
      → s.inside ≡ published
      → Step s (record s { inside = looping; quit = false })
  leaves :
      (s : EventLoopThread)
      → s.inside ≡ looping
      → s.quit ≡ true
      → Step s (record s { inside = left })
  -- the end of `threadFunc`
  clears :
      (s : EventLoopThread) → s.inside ≡ left → Step s (record s { inside = ended; loop_ = false })
  -- someone who has the loop calls its `quit` while the owner holds it; a functor or a handler that
  -- calls `quit` later is left out
  quits : (s : EventLoopThread) → s.owner ≡ holding → Step s (record s { quit = true })
  -- the owner's destructor, with and without a thread, and the return of its `join`
  destroys : (s : EventLoopThread) → s.owner ≡ holding → Step s (destroy s)
  drops : (s : EventLoopThread) → s.owner ≡ idle → Step s (destroy s)
  joins :
      (s : EventLoopThread)
      → s.owner ≡ joining
      → s.inside ≡ ended
      → Step s (record s { owner = over })

pub data Reach (has_callback : Bool) : EventLoopThread → Type 0 where
  here : Reach has_callback (new_event_loop_thread has_callback)
  next : {s t : EventLoopThread} → Reach has_callback s → Step s t → Reach has_callback t

-- Any number of steps.
pub data Steps : EventLoopThread → EventLoopThread → Type 0 where
  done : (s : EventLoopThread) → Steps s s
  more : {s t u : EventLoopThread} → Steps s t → Step t u → Steps s u
