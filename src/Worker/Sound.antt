-- ===== src/Worker/Sound.antt =====
-- log_system/logs_code/AsyncWorker.hpp: what holds of the worker between two steps, and that the
-- producers and the worker's thread keep it.
use tcp_server.Worker.{
  AsyncType, Worker, must_wait, put, push, exchange, leave, take_over, hand_over, ask_stop, waiting,
  handling,
}
use tcp_server.Worker.Clean.{
  Idle, Over, Clean, Clean-any, waits-Clean, free, Clean-waiting, Clean-handling, Clean-returned,
  Clean-woken, Over-stop,
}
use tcp_server.LogBuffer.{Config, LogBuffer, is_empty}
use tcp_server.LogBuffer.Growth.{IsValid, contents, size_for, Pushed, push_fits, push_overruns}
use tcp_server.Worker.Rounds.{Carried, call_back-Carried, exchange-Carried, leave-Carried}
use tcp_server.Base.{
  ℕ, ◌+◌, ◌^◌, ◌<◌, ◌≡◌, refl, sym, ap, subst, ◌∙◌, inl, inr, ◌&&◌, Option, none, some, List, [],
  ◌∷◌, ◌++◌, append_assoc, arith, leb, Bool-cases, if_true, if_false, length,
}

module _ (cfg : Config) (growth : cfg.linear_growth < 2 ^ 31) (a : AsyncType) where
  pub record Sound (w : Worker) : Type 0 where
    pub kind : w.async_type ≡ a
    pub productor_valid : IsValid w.productor
    pub consumer_valid : IsValid w.consumer
    pub in_order : w.pushed ≡ w.handed ++ (contents w.consumer ++ contents w.productor)
    pub idle : Idle w.phase (contents w.consumer)
    pub over : Over w.phase w.stop
    pub clean : Clean w.async_type w.phase w.blocked (contents w.productor)

  -- What a push of the log buffer can give.
  push_inv :
      (b c : LogBuffer) (src : List ℕ)
      → IsValid b
      → tcp_server.LogBuffer.push cfg b src ≡ some c
      → Pushed cfg b src c
  push_inv b c src v e =
      elim (Bool-cases (leb (b.write_pos + length src) (size_for cfg b (length src)))) [
        | inl fits ↦
            let (d, p) = push_fits cfg b src v growth (ground arith) in
            let same : d ≡ c = cc (p.done, e) in subst (λ x. Pushed cfg b src x) same p
        | inr over ↦ cc (push_overruns cfg b src v growth (ground arith), e)
      ]

  Pushed-IsValid :
      (b c : LogBuffer) (src : List ℕ)
      → IsValid b
      → Pushed cfg b src c
      → length c.bytes < 2 ^ 31
      → IsValid c
  Pushed-IsValid b c src v p h = record {
    order = omega (arith, p.read_pos, p.write_pos, v.order);
    inside = p.inside;
    small = h;
  }

  -- The clean state does not change by a push that an unsafe worker does before it is stopped.
  pub put-Sound :
      (w v : Worker) (src : List ℕ)
      → Sound w
      → put cfg w src ≡ some v
      → length v.productor.bytes < 2 ^ 31
      → ((xs : List ℕ) → Clean w.async_type w.phase w.blocked xs)
      → Sound v
  unfolding put
  put-Sound w v src s e h l = by_result (tcp_server.LogBuffer.push cfg w.productor src) refl e
    where
      by_result :
          (r : Option LogBuffer)
          → tcp_server.LogBuffer.push cfg w.productor src ≡ r
          → elim r [
            | none ↦ none
            | some b ↦ some (record w { productor = b; pushed = w.pushed ++ src })
          ]
            ≡ some v
          → Sound v
      by_result none x y = cc y
      by_result (some b) x y =
          let t : Worker = record w { productor = b; pushed = w.pushed ++ src } in
          let same : t ≡ v = cc y in
          let p = push_inv w.productor b src s.productor_valid x in
          let small : length b.bytes < 2 ^ 31 =
            subst (λ (z : Worker). length z.productor.bytes < 2 ^ 31) (sym same) h in
          subst (λ z. Sound z) same
            (record {
              kind = s.kind;
              productor_valid = Pushed-IsValid w.productor b src s.productor_valid p small;
              consumer_valid = s.consumer_valid;
              in_order =
                  ap (λ (z : List ℕ). z ++ src) s.in_order
                  ∙ append_assoc w.handed (contents w.consumer ++ contents w.productor) src
                  ∙ ap (◌++◌ w.handed) (
                      append_assoc (contents w.consumer) (contents w.productor) src
                      ∙ ap (◌++◌ (contents w.consumer)) (sym p.more));
              idle = s.idle;
              over = s.over;
              clean = l (contents b);
            })

  Sound-Carried : (w : Worker) → Sound w → Carried w
  Sound-Carried w s = record {
    productor_valid = s.productor_valid;
    consumer_valid = s.consumer_valid;
    in_order = s.in_order;
  }

  pub push-Sound :
      (w v : Worker) (src : List ℕ)
      → Sound w
      → push cfg w src ≡ some v
      → length v.productor.bytes < 2 ^ 31
      → Sound v
  unfolding push
  push-Sound w v src s e h = elim (Bool-cases w.stop) [
    | inl stopped ↦ subst (λ z. Sound z) (cc (if_true w.stop (some w) _ stopped, e)) s
    | inr running ↦ elim (Bool-cases (must_wait w src)) [
      | inl full ↦
          let t : Worker = record w { blocked = w.blocked ++ (src ∷ []) } in
          let same : t ≡ v = cc (
            if_false w.stop (some w) _ running,
            if_true (must_wait w src) (some t) (put cfg w src) full,
            e,
          ) in
          subst (λ z. Sound z) same
            (record {
              kind = s.kind;
              productor_valid = s.productor_valid;
              consumer_valid = s.consumer_valid;
              in_order = s.in_order;
              idle = s.idle;
              over = s.over;
              clean =
                  waits-Clean w.async_type w.phase w.blocked t.blocked (contents w.productor) src w
                    refl full s.clean;
            })
      | inr room ↦
          put-Sound w v src s
            (cc (
              if_false w.stop (some w) _ running,
              if_false (must_wait w src) _ (put cfg w src) room,
              e,
            ))
            h
            (λ xs.
              Clean-any w.async_type w.phase w.stop w.blocked (contents w.productor) xs s.over
                running s.clean)
    ]
  ]

  put_keeps : (w v : Worker) (src : List ℕ) → put cfg w src ≡ some v → v.blocked ≡ w.blocked
  unfolding put
  put_keeps w v src e = by_result (tcp_server.LogBuffer.push cfg w.productor src) e
    where
      by_result :
          (r : Option LogBuffer)
          → elim r [
            | none ↦ none
            | some b ↦ some (record w { productor = b; pushed = w.pushed ++ src })
          ]
            ≡ some v
          → v.blocked ≡ w.blocked
      by_result none y = cc y
      by_result (some b) y =
          let t : Worker = record w { productor = b; pushed = w.pushed ++ src } in
          let same : t ≡ v = cc y in sym (ap (λ (z : Worker). z.blocked) same)

  pub wake-Sound :
      (w v : Worker) (before after : List (List ℕ)) (src : List ℕ)
      → Sound w
      → w.blocked ≡ before ++ (src ∷ after)
      → put cfg w src ≡ some v
      → length v.productor.bytes < 2 ^ 31
      → Sound (record v { blocked = before ++ after })
  wake-Sound w v before after src s e p h =
      let t = put-Sound w v src s p h (λ xs.
        (Clean-woken w.async_type w.phase w.blocked before after src (contents w.productor) xs e
          s.clean).0) in
      record {
        kind = t.kind;
        productor_valid = t.productor_valid;
        consumer_valid = t.consumer_valid;
        in_order = t.in_order;
        idle = t.idle;
        over = t.over;
        clean =
            (Clean-woken v.async_type v.phase v.blocked before after src (contents v.productor)
              (contents v.productor) (put_keeps w v src p ∙ e) t.clean).1;
      }

  pub take_over-Sound : (w : Worker) → Sound w → w.phase ≡ waiting → Sound (take_over w)
  unfolding take_over
  take_over-Sound w s e =
      let gone : contents w.consumer ≡ [] = subst (λ p. Idle p (contents w.consumer)) e s.idle in
      let unblocked = free w.async_type w.phase w.blocked (contents w.productor) s.clean in
      let (c, empty, rest) = exchange-Carried w (Sound-Carried w s) gone in
      elim (Bool-cases ((exchange w).stop && is_empty (exchange w).productor)) [
        | inl ends ↦
            let (d, kept, same, phase, more) = leave-Carried (exchange w) c in
            subst (λ z. Sound z) (sym (if_true _ (leave (exchange w)) _ ends))
              (record {
                kind = more.async_type ∙ (rest.async_type ∙ s.kind);
                productor_valid = d.productor_valid;
                consumer_valid = d.consumer_valid;
                in_order = d.in_order;
                idle = rw phase kept;
                over = rw (phase, more.stop) (ground arith);
                clean = rw phase (
                    Clean-returned (leave (exchange w)).async_type (leave (exchange w)).blocked _
                      (rw (more.async_type, more.blocked, rest.async_type, rest.blocked) unblocked)
                      (ap contents same ∙ empty));
              })
        | inr goes_on ↦
            let t : Worker = record (exchange w) { phase = handling } in
            subst (λ z. Sound z) (sym (if_false _ (leave (exchange w)) t goes_on))
              (record {
                kind = rest.async_type ∙ s.kind;
                productor_valid = c.productor_valid;
                consumer_valid = c.consumer_valid;
                in_order = c.in_order;
                idle = tt;
                over = tt;
                clean =
                    rw (rest.async_type, rest.blocked)
                      (Clean-handling w.async_type w.blocked _ unblocked);
              })
      ]

  pub hand_over-Sound : (w : Worker) → Sound w → w.phase ≡ handling → Sound (hand_over w)
  unfolding hand_over
  hand_over-Sound w s e =
      let (c, gone, kept, rest) = call_back-Carried w (Sound-Carried w s) in
      record {
        kind = rest.async_type ∙ s.kind;
        productor_valid = c.productor_valid;
        consumer_valid = c.consumer_valid;
        in_order = c.in_order;
        idle = gone;
        over = tt;
        clean =
            rw (rest.async_type, rest.blocked)
              (Clean-waiting w.async_type w.blocked _
                (free w.async_type w.phase w.blocked (contents w.productor) s.clean));
      }

  pub ask_stop-Sound : (w : Worker) → Sound w → Sound (ask_stop w)
  unfolding ask_stop
  ask_stop-Sound w s = record {
    kind = s.kind;
    productor_valid = s.productor_valid;
    consumer_valid = s.consumer_valid;
    in_order = s.in_order;
    idle = s.idle;
    over = Over-stop w.phase;
    clean = s.clean;
  }
