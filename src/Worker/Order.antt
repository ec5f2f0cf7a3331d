-- ===== src/Worker/Order.antt =====
-- log_system/logs_code/AsyncWorker.hpp: nothing is lost or handed over twice while the worker runs,
-- and nothing is left behind when an unsafe worker returns.
use tcp_server.Worker.{AsyncType, Worker, new_worker, async_safe, async_unsafe, waiting, returned}
use tcp_server.Worker.Steps.{Step, Reach, hands_over, stops, here, next, pushes, wakes, takes_over}
use tcp_server.Worker.Clean.{Idle, Clean}
use tcp_server.Worker.Sound.{
  Sound, push-Sound, wake-Sound, take_over-Sound, hand_over-Sound, ask_stop-Sound,
}
use tcp_server.LogBuffer.{Config, new_log_buffer}
use tcp_server.LogBuffer.Growth.{IsValid, contents}
use tcp_server.Base.{
  ℕ, ◌^◌, ◌<◌, ◌≡◌, refl, sym, subst, ◌∙◌, [], ◌++◌, append-nil, arith, length-replicate,
}

module _ (cfg : Config) (growth : cfg.linear_growth < 2 ^ 31) (a : AsyncType) where
  Clean-start : (b : AsyncType) → Clean b waiting [] []
  Clean-start async_safe = tt
  Clean-start async_unsafe = refl

  new_worker-Sound : cfg.buffer_size < 2 ^ 31 → Sound cfg growth a (new_worker cfg a)
  unfolding new_worker new_log_buffer
  new_worker-Sound h =
      let valid : IsValid (new_log_buffer cfg) = record {
        order = omega arith;
        inside = omega arith;
        small = omega (arith, length-replicate {A = ℕ} cfg.buffer_size 0);
      } in
      record {
        kind = refl;
        productor_valid = valid;
        consumer_valid = valid;
        in_order = refl;
        idle = refl;
        over = tt;
        clean = Clean-start a;
      }

  Step-Sound : {w v : Worker} → Sound cfg growth a w → Step cfg a w v → Sound cfg growth a v
  Step-Sound s (pushes w v src e h) = push-Sound cfg growth a w v src s e h
  Step-Sound s (wakes w v before after src b f e h) =
      wake-Sound cfg growth a w v before after src s b e h
  Step-Sound s (takes_over w e h) = take_over-Sound cfg growth a w s e
  Step-Sound s (hands_over w e) = hand_over-Sound cfg growth a w s e
  Step-Sound s (stops w) = ask_stop-Sound cfg growth a w s

  pub Reach-Sound : {w : Worker} → cfg.buffer_size < 2 ^ 31 → Reach cfg a w → Sound cfg growth a w
  Reach-Sound h here = new_worker-Sound h
  Reach-Sound h (next r t) = Step-Sound (Reach-Sound h r) t

  -- In every state that the threads can reach while no buffer reaches 2 GiB and no push
  -- runs over the end of its vector, with a growth and a
  -- first size below that too, the bytes that the producers pushed are those that the callback was
  -- given, then those at the callback, then those that still wait: each once and in the order of
  -- the pushes.
  pub bytes_in_order :
      (w : Worker)
      → cfg.buffer_size < 2 ^ 31
      → Reach cfg a w
      → w.pushed ≡ w.handed ++ (contents w.consumer ++ contents w.productor)
  bytes_in_order w h r = (Reach-Sound h r).in_order

  -- When the thread of an unsafe worker has returned, while no buffer reached 2 GiB and
  -- no push ran over the end of its vector, the callback
  -- has been given all that was ever pushed.
  pub all_handed :
      (w : Worker)
      → cfg.buffer_size < 2 ^ 31
      → Reach cfg a w
      → a ≡ async_unsafe
      → w.phase ≡ returned
      → w.handed ≡ w.pushed
  all_handed w h r u e =
      let s = Reach-Sound h r in
      let t : Idle returned (contents w.consumer) =
        subst (λ p. Idle p (contents w.consumer)) e s.idle in
      let c : Clean async_unsafe returned w.blocked (contents w.productor) =
        rw (s.kind, u, e) at s.clean in
      sym (s.in_order ∙ rw (t, c.1) (append-nil w.handed))
