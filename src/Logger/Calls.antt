-- ===== src/Logger/Calls.antt =====
-- log_system/logs_code/AsyncLogger.hpp: the calls for the levels and the backup server.
use tcp_server.Logger.{
  AsyncLogger, flush_line, waits_for_task, back_up, serialize, log_debug, log_info, log_warn,
  log_error, log_fatal,
}
use tcp_server.Logger.Message.{LogLevel, LogMessage, format, debug, info, warn, error, fatal}
use tcp_server.ThreadPool.{Pool, enqueue}
use tcp_server.LogBuffer.{Config}
use tcp_server.Base.{
  ℕ, ◌≡◌, refl, Bool, true, false, not, ◌&&◌, ◌||◌, ap₂, sym, ap, ◌∙◌, inl, inr, Option, none, some,
  List, [], ◌∷◌, ◌++◌, if◌then◌else◌, Bool-cases, if_true, if_false,
}

-- The line that the logger writes for the message at a level.
abbrev pub line_at : LogLevel → LogMessage → AsyncLogger → List ℕ
line_at v m l = format (record m { level = v; name = l.logger_name })

-- What a running pool has after it took a task.
abbrev pub with_task : List ℕ → Pool (List ℕ) → Pool (List ℕ)
with_task text p = record p { tasks = p.tasks ++ (text ∷ []); accepted = p.accepted ++ (text ∷ []) }

taken_if :
    (p : Pool (List ℕ)) (text : List ℕ)
    → elim (enqueue text p) [ none ↦ p | some q ↦ q ] ≡ (if p.stop then p else with_task text p)
unfolding enqueue
taken_if p text =
    let take_from : Option (Pool (List ℕ)) → Pool (List ℕ) =
      λ (o : Option (Pool (List ℕ))). elim o [ none ↦ p | some q ↦ q ] in
    elim (Bool-cases p.stop) [
      | inl e ↦
          ap take_from (if_true p.stop none (some (with_task text p)) e)
          ∙ sym (if_true p.stop p (with_task text p) e)
      | inr e ↦
          ap take_from (if_false p.stop none (some (with_task text p)) e)
          ∙ sym (if_false p.stop p (with_task text p) e)
    ]

error_line :
    (task_done stopped : Bool) (l : Option AsyncLogger)
    → (if not task_done && (true && not stopped) then none else l)
      ≡ (if task_done || stopped then l else none)
error_line true stopped l = refl
error_line false true l = refl
error_line false false l = refl

plain_line :
    (task_done : Bool) (l : Option AsyncLogger) → (if not task_done && false then none else l) ≡ l
plain_line true l = refl
plain_line false l = refl

-- Messages of the levels debug, info and warn never reach the thread pool, and their line is pushed
-- whatever the pool does. A message of the levels error and fatal is handed to a running pool, as the very
-- line that is pushed to the worker, and that line is pushed only when the pool has run the task; a pool
-- that was stopped takes nothing, and the line is pushed at once.
pub calls_lem :
    (cfg : Config) (task_done : Bool) (m : LogMessage) (p : Pool (List ℕ)) (l : AsyncLogger)
    → (log_debug cfg task_done m p l ≡ (p, flush_line cfg (line_at debug m l) l))
      × (log_info cfg task_done m p l ≡ (p, flush_line cfg (line_at info m l) l))
      × (log_warn cfg task_done m p l ≡ (p, flush_line cfg (line_at warn m l) l))
      × (log_error cfg task_done m p l ≡ (
        (if p.stop then p else with_task (line_at error m l) p),
        (if task_done || p.stop then flush_line cfg (line_at error m l) l else none),
      ))
      × (log_fatal cfg task_done m p l ≡ (
        (if p.stop then p else with_task (line_at fatal m l) p),
        (if task_done || p.stop then flush_line cfg (line_at fatal m l) l else none),
      ))
unfolding log_debug log_info log_warn log_error log_fatal serialize back_up waits_for_task
calls_lem cfg task_done m p l =
    let plain = λ (t : List ℕ).
      ap {B = Pool (List ℕ) × Option AsyncLogger} (λ (o : Option AsyncLogger). (p, o))
        (plain_line task_done (flush_line cfg t l)) in
    let severe = λ (t : List ℕ).
      ap₂ {C = Pool (List ℕ) × Option AsyncLogger}
        (λ (q : Pool (List ℕ)) (o : Option AsyncLogger). (q, o)) (taken_if p t)
        (error_line task_done p.stop (flush_line cfg t l)) in
    (
      plain (line_at debug m l),
      plain (line_at info m l),
      plain (line_at warn m l),
      severe (line_at error m l),
      severe (line_at fatal m l),
    )
