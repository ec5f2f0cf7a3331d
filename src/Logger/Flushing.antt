-- ===== src/Logger/Flushing.antt =====
-- log_system/logs_code/AsyncLogger.hpp: what `RealFlush` does to the sinks, and how much it gets.
use tcp_server.Logger.{real_flush}
use tcp_server.Logger.Steps.{last_call, HaveRoom, flush_if}
use tcp_server.Logger.Handing.{add_if}
use tcp_server.LogFlush.Sinks.{LogSink, sunk, SinkIsValid, sink_flush_lem}
use tcp_server.Worker.{Worker, begin, exchange}
use tcp_server.LogBuffer.{LogBuffer, readable_size, is_empty, swap}
use tcp_server.LogBuffer.Growth.{IsValid}
use tcp_server.Base.{
  ℕ, ◌^◌, ◌≤◌, ◌≡◌, refl, ap, subst, ◌∙◌, inl, inr, Bool, true, false, ◌&&◌, Option, none, some,
  List, [], ◌∷◌, ◌++◌, arith, if◌then◌else◌, Bool-cases, length, drop, length-take, length-drop,
}

-- The sinks are valid and each of them has got `got`, behind what it had at the start.
abbrev pub AllGot : ℕ → ℕ → List ℕ → List LogSink → Type 0
AllGot flush_log most got [] = Unit {0}
AllGot flush_log most got (k ∷ ks) =
    SinkIsValid flush_log most k × (sunk k ≡ got) × AllGot flush_log most got ks

-- `RealFlush` cannot fail while files can be opened, and gives every sink the bytes.
pub real_flush_lem :
    (flush_log most : ℕ) (got src : List ℕ) (ks : List LogSink)
    → AllGot flush_log most got ks
    → HaveRoom ks
    → length src ≤ most
    → (js : List LogSink) × (real_flush flush_log true ks src ≡ some js)
      × AllGot flush_log most (got ++ src) js
unfolding real_flush
real_flush_lem flush_log most got src [] v r h = ([], refl, tt)
real_flush_lem flush_log most got src (k ∷ ks) v r h =
    let (j, done, valid, same) = sink_flush_lem flush_log most k src v.0 r.0 h in
    let (js, all, rest) = real_flush_lem flush_log most got src ks v.2 r.1 h in
    (
      j ∷ js,
      ap
            (λ (o : Option LogSink). elim o [
              | none ↦ none
              | some f ↦ elim (real_flush flush_log true ks src) [
                | none ↦ none
                | some fs ↦ some (f ∷ fs)
              ]
            ])
            done
          ∙ ap (λ (o : Option (List LogSink)). elim o [ none ↦ none | some fs ↦ some (j ∷ fs) ])
              all,
      (valid, same ∙ ap (λ (z : List ℕ). z ++ src) v.1, rest),
    )

-- The result of a flush that is known.
pub flushed_as :
    (flush_log most : ℕ) (got src : List ℕ) (ks js : List LogSink)
    → AllGot flush_log most got ks
    → HaveRoom ks
    → length src ≤ most
    → real_flush flush_log true ks src ≡ some js
    → AllGot flush_log most (got ++ src) js
flushed_as flush_log most got src ks js v r h e =
    let (is, all, rest) = real_flush_lem flush_log most got src ks v r h in
    let same : is ≡ js = cc (all, e) in subst (λ z. AllGot flush_log most (got ++ src) z) same rest

-- The same for a flush that is done only where there is something.
pub flushed_if :
    (flush_log most : ℕ) (got : List ℕ) (o : Option (List ℕ)) (ks js : List LogSink)
    → AllGot flush_log most got ks
    → HaveRoom ks
    → ((src : List ℕ) → o ≡ some src → length src ≤ most)
    → flush_if flush_log ks o ≡ some js
    → AllGot flush_log most (add_if got o) js
flushed_if flush_log most got none ks js v r h e =
    let same : ks ≡ js = cc e in subst (λ z. AllGot flush_log most got z) same v
flushed_if flush_log most got (some src) ks js v r h e =
    flushed_as flush_log most got src ks js v r (h src refl) e

-- What is at the callback fits in the buffer.
pub begin_small : (b : LogBuffer) → IsValid b → length (begin b) ≤ 2 ^ 31
unfolding begin
begin_small b v = omega (
  arith,
  length-take (readable_size b) (drop b.read_pos b.bytes),
  length-drop b.read_pos b.bytes,
  v.small,
)

exchange_small :
    (w : Worker) → IsValid w.productor → IsValid w.consumer → IsValid (exchange w).consumer
unfolding exchange swap
exchange_small w p c = elim (Bool-cases (is_empty w.productor)) [ inl e ↦ rw e c | inr e ↦ rw e p ]

pub last_call_small :
    (w : Worker) (src : List ℕ)
    → IsValid w.productor
    → IsValid w.consumer
    → last_call w ≡ some src
    → length src ≤ 2 ^ 31
unfolding last_call
last_call_small w src p c e =
    let small = begin_small (exchange w).consumer (exchange_small w p c) in
    by_tests ((exchange w).stop && is_empty (exchange w).productor) (is_empty (exchange w).consumer)
      e small
  where
    by_tests :
        (a b : Bool)
        → (if a then (if b then none else some (begin (exchange w).consumer)) else none) ≡ some src
        → length (begin (exchange w).consumer) ≤ 2 ^ 31
        → length src ≤ 2 ^ 31
    by_tests true true e h = cc e
    by_tests true false e h =
        let same : begin (exchange w).consumer ≡ src = cc e in subst (λ z. length z ≤ 2 ^ 31) same h
    by_tests false b e h = cc e
