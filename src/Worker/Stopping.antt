-- ===== src/Worker/Stopping.antt =====
-- log_system/logs_code/AsyncWorker.hpp: the last rounds of the worker's thread.
use tcp_server.Worker.{
  AsyncType, Phase, Worker, call_back, exchange, leave, take_over, hand_over, waiting, handling,
  returned,
}
use tcp_server.Worker.Steps.{Reach}
use tcp_server.Worker.Clean.{Idle}
use tcp_server.Worker.Sound.{Sound, hand_over-Sound}
use tcp_server.Worker.Order.{Reach-Sound}
use tcp_server.Worker.Rounds.{Carried, contents→is_empty, exchange-Carried, leave-Carried}
use tcp_server.LogBuffer.{Config, is_empty}
use tcp_server.LogBuffer.Growth.{contents}
use tcp_server.Base.{
  ℕ, ◌^◌, ◌<◌, ◌≡◌, refl, sym, ap, ap₂, subst, ◌∙◌, ◌≢◌, inl, inr, Bool, true, ◌&&◌, List, [], ◌++◌,
  append-nil, Bool-cases, if_true,
}

exchange_pushed : (w : Worker) → (exchange w).pushed ≡ w.pushed
unfolding exchange
exchange_pushed w = elim (Bool-cases (is_empty w.productor)) [
  | inl e ↦ rw e refl
  | inr e ↦ rw e refl
]

leave_pushed : (w : Worker) → (leave w).pushed ≡ w.pushed
unfolding leave call_back
leave_pushed w = elim (Bool-cases (is_empty w.consumer)) [ inl e ↦ rw e refl | inr e ↦ rw e refl ]

both_true : (a b : Bool) → a ≡ true → b ≡ true → (a && b) ≡ true
both_true a b e f = rw (e, f) refl

-- What the thread still does once it is to stop: the callback that it is at, and one more round.
abbrev pub finish : Phase → Worker → Worker
finish waiting w = take_over w
finish handling w = take_over (hand_over w)
finish returned w = w

module _ (cfg : Config) (growth : cfg.linear_growth < 2 ^ 31) (a : AsyncType) where
  last_round :
      (w : Worker)
      → Sound cfg growth a w
      → w.phase ≡ waiting
      → w.stop ≡ true
      → ((take_over w).phase ≡ returned) × ((take_over w).handed ≡ w.pushed)
  unfolding take_over
  last_round w s e h =
      let x = exchange w in
      let gone : contents w.consumer ≡ [] = subst (λ p. Idle p (contents w.consumer)) e s.idle in
      let before : Carried w = record {
        productor_valid = s.productor_valid;
        consumer_valid = s.consumer_valid;
        in_order = s.in_order;
      } in
      let (c, empty, rest) = exchange-Carried w before gone in
      let ends : (x.stop && is_empty x.productor) ≡ true =
        both_true x.stop (is_empty x.productor) (rest.stop ∙ h)
          (contents→is_empty x.productor c.productor_valid empty) in
      let (d, kept, same, phase, more) = leave-Carried x c in
      let all : (leave x).pushed ≡ (leave x).handed =
        d.in_order
        ∙ ap₂ (λ (y z : List ℕ). (leave x).handed ++ (y ++ z)) kept (ap contents same ∙ empty)
        ∙ append-nil (leave x).handed in
      subst (λ z. (z.phase ≡ returned) × (z.handed ≡ w.pushed))
        (sym (if_true (x.stop && is_empty x.productor) (leave x) _ ends))
        (phase, sym all ∙ leave_pushed x ∙ exchange_pushed w)

  -- When a worker in a state that its threads can reach, while no buffer reached 2 GiB, no push ran over
  -- the end of its vector and with a growth
  -- and a first size below that too, is to stop and its thread has not yet returned: the thread, if it is
  -- woken, returns after the callback that it is at and one more round, and by then the callback has been
  -- given all that was pushed, in the safe mode as well.
  pub stop_returns :
      (w : Worker)
      → cfg.buffer_size < 2 ^ 31
      → Reach cfg a w
      → w.stop ≡ true
      → w.phase ≢ returned
      → ((finish w.phase w).phase ≡ returned) × ((finish w.phase w).handed ≡ w.pushed)
  unfolding hand_over call_back
  stop_returns w b r h n = by_phase w.phase refl
    where
      by_phase :
          (p : Phase)
          → w.phase ≡ p
          → ((finish p w).phase ≡ returned) × ((finish p w).handed ≡ w.pushed)
      by_phase waiting e = last_round w (Reach-Sound cfg growth a b r) e h
      by_phase handling e =
          last_round (hand_over w) (hand_over-Sound cfg growth a w (Reach-Sound cfg growth a b r) e)
            refl h
      by_phase returned e = absurd (n e)
