-- ===== src/Logger/Pipeline.antt =====
-- log_system/logs_code/AsyncLogger.hpp: the sinks of a logger while its threads run.
use tcp_server.Logger.{AsyncLogger, new_async_logger, stop, real_flush}
use tcp_server.Logger.Steps.{
  last_call, Reach, logs, wakes, takes_over, hands_over, stops, here, next, HaveRoom,
}
use tcp_server.Logger.Handing.{serialize_lem, push_handed, put_handed, take_over_handed}
use tcp_server.LogFlush.Sinks.{LogSink, sunk, SinkIsValid}
use tcp_server.Worker.{
  AsyncType, async_unsafe, returned, new_worker, ask_stop, begin, hand_over, call_back,
}
use tcp_server.LogBuffer.{Config}
use tcp_server.LogBuffer.Growth.{contents}
use tcp_server.Worker.Steps as WorkerSteps
use tcp_server.Worker.Order.{Reach-Sound, bytes_in_order, all_handed}
use tcp_server.Base.{ℕ, ◌^◌, ◌≡◌, refl, ap, subst, ◌∙◌, List, [], ◌∷◌, ◌++◌, ◌<◌, sym, true, some}
use tcp_server.Logger.Flushing.{
  real_flush_lem, AllGot, flushed_as, flushed_if, begin_small, last_call_small,
}

module _ (cfg : Config) (growth : cfg.linear_growth < 2 ^ 31) (first : cfg.buffer_size < 2 ^ 31)
    (flush_log : ℕ) (name : List ℕ) (flushs : List LogSink) (a : AsyncType) where
  -- The worker does its own steps.
  Reach-worker :
      {l : AsyncLogger} → Reach cfg flush_log name flushs a l → WorkerSteps.Reach cfg a l.worker
  unfolding new_async_logger stop
  Reach-worker here = WorkerSteps.here
  Reach-worker (next r (logs l m pool k e h)) =
      WorkerSteps.next (Reach-worker r)
        (WorkerSteps.pushes l.worker k.worker _ (serialize_lem cfg m pool l k e).0 h)
  Reach-worker (next r (wakes l v before after src b f e h)) =
      WorkerSteps.next (Reach-worker r) (WorkerSteps.wakes l.worker v before after src b f e h)
  Reach-worker (next r (takes_over l ks e f h g)) =
      WorkerSteps.next (Reach-worker r) (WorkerSteps.takes_over l.worker e f)
  Reach-worker (next r (hands_over l ks e h g)) =
      WorkerSteps.next (Reach-worker r) (WorkerSteps.hands_over l.worker e)
  Reach-worker (next r (stops l)) = WorkerSteps.next (Reach-worker r) (WorkerSteps.stops l.worker)

  abbrev Got : AsyncLogger → Type 0
  Got l = AllGot flush_log (2 ^ 31) l.worker.handed l.flushs

  Got-more :
      (l k : AsyncLogger) → k.worker.handed ≡ l.worker.handed → k.flushs ≡ l.flushs → Got l → Got k
  Got-more l k e f g =
      subst (λ z. AllGot flush_log (2 ^ 31) z k.flushs) (sym e)
        (subst (λ z. AllGot flush_log (2 ^ 31) l.worker.handed z) (sym f) g)

  Reach-Got :
      {l : AsyncLogger}
      → AllGot flush_log (2 ^ 31) [] flushs
      → Reach cfg flush_log name flushs a l
      → Got l
  unfolding new_async_logger new_worker stop ask_stop hand_over call_back
  Reach-Got v here = v
  Reach-Got v (next r (logs l m pool k e h)) =
      let (pushed, same, _) = serialize_lem cfg m pool l k e in
      Got-more l k (push_handed cfg l.worker k.worker _ pushed) same (Reach-Got v r)
  Reach-Got v (next r (wakes l w before after src b f e h)) =
      Got-more l (record l { worker = record w { blocked = before ++ after } })
        (put_handed cfg l.worker w src e) refl (Reach-Got v r)
  Reach-Got v (next r (takes_over l ks e f h g)) =
      let s = Reach-Sound cfg growth a first (Reach-worker r) in
      subst (λ z. AllGot flush_log (2 ^ 31) z ks) (sym (take_over_handed l.worker))
        (flushed_if flush_log (2 ^ 31) l.worker.handed (last_call l.worker) l.flushs ks
          (Reach-Got v r) h
          (λ src x. last_call_small l.worker src s.productor_valid s.consumer_valid x) g)
  Reach-Got v (next r (hands_over l ks e h g)) =
      let s = Reach-Sound cfg growth a first (Reach-worker r) in
      flushed_as flush_log (2 ^ 31) l.worker.handed (begin l.worker.consumer) l.flushs ks
        (Reach-Got v r) h (begin_small l.worker.consumer s.consumer_valid) g
  Reach-Got v (next r (stops l)) = Reach-Got v r

  -- One of the sinks.
  of_one :
      (got : List ℕ) (ks before after : List LogSink) (k : LogSink)
      → AllGot flush_log (2 ^ 31) got ks
      → ks ≡ before ++ (k ∷ after)
      → SinkIsValid flush_log (2 ^ 31) k × (sunk k ≡ got)
  of_one got ks before after k v e = found before (subst (λ z. AllGot flush_log (2 ^ 31) got z) e v)
    where
      found :
          (xs : List LogSink)
          → AllGot flush_log (2 ^ 31) got (xs ++ (k ∷ after))
          → SinkIsValid flush_log (2 ^ 31) k × (sunk k ≡ got)
      found [] w = (w.0, w.1)
      found (x ∷ xs) w = found xs w.2

  -- In every state that the threads of a logger can reach while no buffer reaches 2 GiB, no push runs
  -- over the end of its vector and files can be opened, with a growth and a first size below that too and with sinks that are valid and empty
  -- at the start: what was logged is, for each sink, what the sink got, then what is at the callback,
  -- then what still waits, each once and in order. The sink stays valid: what a file got has gone on as
  -- far as the configuration wants, and the rolled files are numbered and small.
  pub sinks_in_order :
      (l : AsyncLogger) (before after : List LogSink) (k : LogSink)
      → AllGot flush_log (2 ^ 31) [] flushs
      → Reach cfg flush_log name flushs a l
      → l.flushs ≡ before ++ (k ∷ after)
      → (l.worker.pushed ≡ sunk k ++ (contents l.worker.consumer ++ contents l.worker.productor))
        × SinkIsValid flush_log (2 ^ 31) k
  sinks_in_order l before after k v r e =
      let (valid, got) = of_one l.worker.handed l.flushs before after k (Reach-Got v r) e in
      (
        bytes_in_order cfg growth a l.worker first (Reach-worker r)
            ∙ ap (λ (z : List ℕ). z ++ (contents l.worker.consumer ++ contents l.worker.productor))
                (sym got),
        valid,
      )

  -- When the worker's thread of an unsafe logger has returned, while no buffer reached 2 GiB, no push
  -- ran over the end of its vector and files could be opened, with a growth and a first size below that too and with sinks that are valid and
  -- empty at the start, each sink has got all that was logged.
  pub sinks_complete :
      (l : AsyncLogger) (before after : List LogSink) (k : LogSink)
      → AllGot flush_log (2 ^ 31) [] flushs
      → Reach cfg flush_log name flushs a l
      → l.flushs ≡ before ++ (k ∷ after)
      → a ≡ async_unsafe
      → l.worker.phase ≡ returned
      → sunk k ≡ l.worker.pushed
  sinks_complete l before after k v r e u p =
      (of_one l.worker.handed l.flushs before after k (Reach-Got v r) e).1
      ∙ all_handed cfg growth a l.worker first (Reach-worker r) u p

  -- In every state that the threads of a logger can reach, while no buffer reaches 2 GiB and no push
  -- runs over the end of its vector, with a growth
  -- and a first size below that too and with sinks that are valid and empty at the start: while the sinks
  -- can begin files and files can be opened, `RealFlush` of what is at the callback succeeds, every sink
  -- has what it had and these bytes behind it, and stays valid.
  pub callback_works :
      (l : AsyncLogger)
      → AllGot flush_log (2 ^ 31) [] flushs
      → Reach cfg flush_log name flushs a l
      → HaveRoom l.flushs
      → (ks : List LogSink) × (real_flush flush_log true l.flushs (begin l.worker.consumer)
          ≡ some ks)
        × AllGot flush_log (2 ^ 31) (l.worker.handed ++ begin l.worker.consumer) ks
  callback_works l v r room =
      let s = Reach-Sound cfg growth a first (Reach-worker r) in
      real_flush_lem flush_log (2 ^ 31) l.worker.handed (begin l.worker.consumer) l.flushs
        (Reach-Got v r) room (begin_small l.worker.consumer s.consumer_valid)
