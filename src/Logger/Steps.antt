-- ===== src/Logger/Steps.antt =====
-- log_system/logs_code/AsyncLogger.hpp: the threads that log with a logger and the thread of its worker, whose
-- callback is `RealFlush`, as interleaved steps.
use tcp_server.Logger.{AsyncLogger, new_async_logger, real_flush, serialize, stop}
use tcp_server.Logger.Message.{LogMessage}
use tcp_server.LogFlush.Sinks.{LogSink, HasRoom}
use tcp_server.Worker.{
  AsyncType, Worker, begin, must_wait, put, exchange, take_over, hand_over, waiting, handling,
}
use tcp_server.ThreadPool.{Pool}
use tcp_server.LogBuffer.{Config, is_empty}
use tcp_server.Base.{
  ℕ, ◌^◌, ◌<◌, ◌≡◌, true, false, not, ◌&&◌, ◌||◌, Option, none, some, List, [], ◌∷◌, ◌++◌,
  if◌then◌else◌, length,
}

-- What the worker's thread hands to the callback when it was woken, if it calls it before it returns.
unfoldable pub last_call : Worker → Option (List ℕ)
last_call w =
    let x = exchange w in
    if x.stop && is_empty x.productor
    then (if is_empty x.consumer then none else some (begin x.consumer))
    else none

-- Every sink can still begin a file.
abbrev pub HaveRoom : List LogSink → Type 0
HaveRoom [] = Unit {0}
HaveRoom (k ∷ ks) = HasRoom k × HaveRoom ks

abbrev pub flush_if : ℕ → List LogSink → Option (List ℕ) → Option (List LogSink)
flush_if flush_log ks none = some ks
flush_if flush_log ks (some src) = real_flush flush_log true ks src

module _ (cfg : Config) (flush_log : ℕ) where
  -- The steps, for as long as no buffer reaches 2 GiB, no push runs over the end of the vector, files
  -- can be opened and their numbers fit in a `size_t`.
  pub data Step : AsyncLogger → AsyncLogger → Type 0 where
    -- a thread logs a message and pushes its line, its task for the backup server having been run
    logs :
        (l : AsyncLogger) (m : LogMessage) (pool : Pool (List ℕ)) (k : AsyncLogger)
        → (serialize cfg true m pool l).1 ≡ some k
        → length k.worker.productor.bytes < 2 ^ 31
        → Step l k
    -- a thread that waited for room finds it
    wakes :
        (l : AsyncLogger) (v : Worker) (before after : List (List ℕ)) (src : List ℕ)
        → l.worker.blocked ≡ before ++ (src ∷ after)
        → must_wait l.worker src ≡ false
        → put cfg l.worker src ≡ some v
        → length v.productor.bytes < 2 ^ 31
        → Step l (record l { worker = record v { blocked = before ++ after } })
    -- the worker's thread, woken
    takes_over :
        (l : AsyncLogger) (ks : List LogSink)
        → l.worker.phase ≡ waiting
        → (l.worker.stop || not (is_empty l.worker.productor)) ≡ true
        → HaveRoom l.flushs
        → flush_if flush_log l.flushs (last_call l.worker) ≡ some ks
        → Step l (record l { flushs = ks; worker = take_over l.worker })
    -- the worker's thread calls back
    hands_over :
        (l : AsyncLogger) (ks : List LogSink)
        → l.worker.phase ≡ handling
        → HaveRoom l.flushs
        → real_flush flush_log true l.flushs (begin l.worker.consumer) ≡ some ks
        → Step l (record l { flushs = ks; worker = hand_over l.worker })
    stops : (l : AsyncLogger) → Step l (stop l)

  pub data Reach (logger_name : List ℕ) (flushs : List LogSink) (type : AsyncType)
      : AsyncLogger → Type 0 where
    here : Reach logger_name flushs type (new_async_logger cfg logger_name flushs type)
    next :
        {l k : AsyncLogger}
        → Reach logger_name flushs type l
        → Step l k
        → Reach logger_name flushs type k
