-- ===== src/Logger/Handing.antt =====
-- log_system/logs_code/AsyncWorker.hpp, AsyncLogger.hpp: what the worker has handed to its callback after each
-- of a logger's steps.
use tcp_server.Logger.{AsyncLogger, serialize, flush_line, waits_for_task}
use tcp_server.Logger.Message.{LogMessage, format}
use tcp_server.Logger.Steps.{last_call}
use tcp_server.Worker.{Worker, begin, must_wait, put, push, call_back, exchange, leave, take_over}
use tcp_server.ThreadPool.{Pool}
use tcp_server.LogBuffer.{Config, LogBuffer, is_empty}
use tcp_server.Base.{
  ℕ, ◌≡◌, refl, sym, ap, ◌∙◌, inl, inr, ◌&&◌, Option, none, some, true, List, [], ◌∷◌, ◌++◌,
  if◌then◌else◌, Bool-cases, if_true, if_false,
}

abbrev pub add_if : List ℕ → Option (List ℕ) → List ℕ
add_if got none = got
add_if got (some src) = got ++ src

module _ (cfg : Config) where
  pub put_handed : (w v : Worker) (src : List ℕ) → put cfg w src ≡ some v → v.handed ≡ w.handed
  unfolding put
  put_handed w v src e = by_result (tcp_server.LogBuffer.push cfg w.productor src) e
    where
      by_result :
          (r : Option LogBuffer)
          → elim r [
            | none ↦ none
            | some b ↦ some (record w { productor = b; pushed = w.pushed ++ src })
          ]
            ≡ some v
          → v.handed ≡ w.handed
      by_result none y = cc y
      by_result (some b) y =
          let t : Worker = record w { productor = b; pushed = w.pushed ++ src } in
          let same : t ≡ v = cc y in sym (ap (λ (z : Worker). z.handed) same)

  pub push_handed : (w v : Worker) (src : List ℕ) → push cfg w src ≡ some v → v.handed ≡ w.handed
  unfolding push
  push_handed w v src e = elim (Bool-cases w.stop) [
    | inl stopped ↦
        let same : w ≡ v = cc (if_true w.stop (some w) _ stopped, e) in
        sym (ap (λ (z : Worker). z.handed) same)
    | inr running ↦ elim (Bool-cases (must_wait w src)) [
      | inl full ↦
          let t : Worker = record w { blocked = w.blocked ++ (src ∷ []) } in
          let same : t ≡ v = cc (
            if_false w.stop (some w) _ running,
            if_true (must_wait w src) (some t) (put cfg w src) full,
            e,
          ) in
          sym (ap (λ (z : Worker). z.handed) same)
      | inr room ↦ put_handed w v src (
          cc (
            if_false w.stop (some w) _ running,
            if_false (must_wait w src) _ (put cfg w src) room,
            e,
          ))
    ]
  ]

exchange_handed : (w : Worker) → (exchange w).handed ≡ w.handed
unfolding exchange
exchange_handed w = elim (Bool-cases (is_empty w.productor)) [
  | inl e ↦ rw e refl
  | inr e ↦ rw e refl
]

leave_handed :
    (x : Worker)
    → (leave x).handed
      ≡ add_if x.handed (if is_empty x.consumer then none else some (begin x.consumer))
unfolding leave call_back
leave_handed x = elim (Bool-cases (is_empty x.consumer)) [ inl e ↦ rw e refl | inr e ↦ rw e refl ]

pub take_over_handed : (w : Worker) → (take_over w).handed ≡ add_if w.handed (last_call w)
unfolding take_over last_call
take_over_handed w = elim (Bool-cases ((exchange w).stop && is_empty (exchange w).productor)) [
  | inl e ↦ rw e (
      leave_handed (exchange w)
      ∙ ap
          (λ z.
            add_if z
              (if is_empty (exchange w).consumer then none else some (begin (exchange w).consumer)))
          (exchange_handed w))
  | inr e ↦ rw e (exchange_handed w)
]

-- A message changes the worker by a push only.
pub serialize_lem :
    (cfg : Config) (m : LogMessage) (pool : Pool (List ℕ)) (l k : AsyncLogger)
    → (serialize cfg true m pool l).1 ≡ some k
    → (push cfg l.worker (format (record m { name = l.logger_name })) ≡ some k.worker)
      × (k.flushs ≡ l.flushs)
      × (k.logger_name ≡ l.logger_name)
unfolding serialize flush_line waits_for_task
serialize_lem cfg m pool l k e =
    by_result (push cfg l.worker (format (record m { name = l.logger_name }))) e
  where
    by_result :
        (r : Option Worker)
        → elim r [ none ↦ none | some w ↦ some (record l { worker = w }) ] ≡ some k
        → (r ≡ some k.worker) × (k.flushs ≡ l.flushs) × (k.logger_name ≡ l.logger_name)
    by_result none y = cc y
    by_result (some w) y =
        let t : AsyncLogger = record l { worker = w } in
        let same : t ≡ k = cc y in
        (
          ap (λ (z : AsyncLogger). some z.worker) same,
          sym (ap (λ (z : AsyncLogger). z.flushs) same),
          sym (ap (λ (z : AsyncLogger). z.logger_name) same),
        )
