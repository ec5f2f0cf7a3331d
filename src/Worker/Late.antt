-- ===== src/Worker/Late.antt =====
-- log_system/logs_code/AsyncWorker.hpp: what a producer pushes after the worker's thread has returned.
use tcp_server.Worker.{AsyncType, Worker, must_wait, put, push, ask_stop, returned}
use tcp_server.Worker.Steps.{Step, Reach, next, hands_over, stops, pushes, wakes, takes_over}
use tcp_server.LogBuffer.{Config, LogBuffer}
use tcp_server.Base.{
  ℕ, ◌^◌, ◌<◌, length, ◌≡◌, refl, subst, ◌∙◌, inl, inr, false, Option, none, some, List, [], ◌∷◌,
  ◌++◌, Bool-cases, if_true, if_false,
}

module _ (cfg : Config) (a : AsyncType) where
  pub data Steps : Worker → Worker → Type 0 where
    done : (w : Worker) → Steps w w
    more : {w v u : Worker} → Step cfg a w v → Steps v u → Steps w u

  put_rest :
      (w v : Worker) (src : List ℕ)
      → put cfg w src ≡ some v
      → (v.phase ≡ w.phase) × (v.handed ≡ w.handed) × (v.pushed ≡ w.pushed ++ src)
  unfolding put
  put_rest w v src e = by_result (tcp_server.LogBuffer.push cfg w.productor src) e
    where
      by_result :
          (r : Option LogBuffer)
          → elim r [
            | none ↦ none
            | some b ↦ some (record w { productor = b; pushed = w.pushed ++ src })
          ]
            ≡ some v
          → (v.phase ≡ w.phase) × (v.handed ≡ w.handed) × (v.pushed ≡ w.pushed ++ src)
      by_result none y = cc y
      by_result (some b) y =
          let t : Worker = record w { productor = b; pushed = w.pushed ++ src } in
          let same : t ≡ v = cc y in
          subst
            (λ (z : Worker).
              (z.phase ≡ w.phase) × (z.handed ≡ w.handed) × (z.pushed ≡ w.pushed ++ src))
            same (refl, refl, refl)

  push_rest :
      (w v : Worker) (src : List ℕ)
      → push cfg w src ≡ some v
      → (v.phase ≡ w.phase) × (v.handed ≡ w.handed)
  unfolding push
  push_rest w v src e = elim (Bool-cases w.stop) [
    | inl stopped ↦
        let same : w ≡ v = cc (if_true w.stop (some w) _ stopped, e) in
        subst (λ (z : Worker). (z.phase ≡ w.phase) × (z.handed ≡ w.handed)) same (refl, refl)
    | inr running ↦ elim (Bool-cases (must_wait w src)) [
      | inl full ↦
          let t : Worker = record w { blocked = w.blocked ++ (src ∷ []) } in
          let same : t ≡ v = cc (
            if_false w.stop (some w) _ running,
            if_true (must_wait w src) (some t) (put cfg w src) full,
            e,
          ) in
          subst (λ (z : Worker). (z.phase ≡ w.phase) × (z.handed ≡ w.handed)) same (refl, refl)
      | inr room ↦
          let r = put_rest w v src (
            cc (
              if_false w.stop (some w) _ running,
              if_false (must_wait w src) _ (put cfg w src) room,
              e,
            )) in
          (r.0, r.1)
    ]
  ]

  Step-returned :
      {w v : Worker}
      → Step cfg a w v
      → w.phase ≡ returned
      → (v.phase ≡ returned) × (v.handed ≡ w.handed)
  unfolding ask_stop
  Step-returned (pushes w v src e h) r = let p = push_rest w v src e in (p.0 ∙ r, p.1)
  Step-returned (wakes w v before after src b f e h) r =
      let p = put_rest w v src e in (p.0 ∙ r, p.1)
  Step-returned (takes_over w e h) r = cc (e, r)
  Step-returned (hands_over w e) r = cc (e, r)
  Step-returned (stops w) r = (r, refl)

  Steps-returned : {w v : Worker} → Steps w v → w.phase ≡ returned → v.handed ≡ w.handed
  Steps-returned (done w) r = refl
  Steps-returned (more s t) r = let p = Step-returned s r in Steps-returned t p.0 ∙ p.1

  -- In every state that the threads can reach in which the worker's thread has returned while a producer
  -- still waits, finds the room, and its push keeps the vector below 2 GiB: nothing stops the producer
  -- from going on, its bytes are pushed behind all others, and whatever happens then, the callback is
  -- never given anything again.
  pub late_push_lost :
      (w v : Worker) (before after : List (List ℕ)) (src : List ℕ)
      → Reach cfg a w
      → w.phase ≡ returned
      → w.blocked ≡ before ++ (src ∷ after)
      → must_wait w src ≡ false
      → put cfg w src ≡ some v
      → length v.productor.bytes < 2 ^ 31
      → let t = record v { blocked = before ++ after } in
        Step cfg a w t
        × Reach cfg a t
        × (t.pushed ≡ w.pushed ++ src)
        × ((u : Worker) → Steps t u → u.handed ≡ w.handed)
  late_push_lost w v before after src reached r b f e h =
      let p = put_rest w v src e in
      let s : Step cfg a w (record v { blocked = before ++ after }) =
        wakes w v before after src b f e h in
      (s, next reached s, p.2, λ u more_steps. Steps-returned more_steps (p.0 ∙ r) ∙ p.1)
