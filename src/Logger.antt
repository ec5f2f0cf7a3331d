-- ===== src/Logger.antt =====
-- log_system/logs_code/AsyncLogger.hpp: a logger, its sinks, and what builds it. A text is a list of codes.
pub mod Message
pub mod Lines
pub mod Steps
mod Handing
pub mod Calls
pub mod Flushing
pub mod Pipeline
pub mod Manager
pub mod Named
pub mod Default
mod Tests
use tcp_server.LogFlush.Sinks.{LogSink, stdout_flush, sink_flush}
use tcp_server.Worker.{AsyncType, Worker, new_worker, push, ask_stop, async_safe}
use tcp_server.ThreadPool.{Pool, enqueue}
use tcp_server.Logger.Message.{
  debug, info, warn, LogLevel, LogMessage, format, error, fatal, debug, info, warn,
}
use tcp_server.LogBuffer.{Config}
use tcp_server.Base.{
  ℕ, Bool, true, false, not, ◌&&◌, Option, none, some, List, [], ◌∷◌, ◌++◌, map, ◌==◌,
  if◌then◌else◌, codes, length,
}

pub record AsyncLogger : Type 0 where
  pub logger_name : List ℕ
  pub flushs : List LogSink
  pub worker : Worker

unfoldable pub new_async_logger : Config → List ℕ → List LogSink → AsyncType → AsyncLogger
new_async_logger cfg logger_name flushs type = record {
  logger_name = logger_name;
  flushs = flushs;
  worker = new_worker cfg type;
}

-- The loop of `RealFlush`: every sink, in order. `none` is a write to a file that could not be opened.
unfoldable pub real_flush : ℕ → Bool → List LogSink → List ℕ → Option (List LogSink)
real_flush flush_log fopen_works [] src = some []
real_flush flush_log fopen_works (e ∷ es) src =
    let rest = real_flush flush_log fopen_works es src in
    elim (sink_flush flush_log fopen_works e src) [
      | none ↦ none
      | some f ↦ elim rest [ none ↦ none | some fs ↦ some (f ∷ fs) ]
    ]

abbrev pub is_severe : LogLevel → Bool
is_severe error = true
is_severe fatal = true
is_severe _ = false

-- The task for the backup server. A pool that was stopped throws, which `serialize` catches.
unfoldable pub back_up : LogLevel → List ℕ → Pool (List ℕ) → Pool (List ℕ)
back_up level line pool =
    if is_severe level then elim (enqueue line pool) [ none ↦ pool | some p ↦ p ] else pool

-- `Flush`; `none` is a push over the end of the buffer.
unfoldable pub flush_line : Config → List ℕ → AsyncLogger → Option AsyncLogger
flush_line cfg text l = elim (push cfg l.worker text) [
  | none ↦ none
  | some w ↦ some (record l { worker = w })
]

-- Whether the thread is in `ret.get()`: the pool took a task and has not run it yet.
unfoldable pub waits_for_task : Bool → LogLevel → Pool (List ℕ) → Bool
waits_for_task task_done level pool = not task_done && (is_severe level && not pool.stop)

-- `serialize`, from the message's text on; `task_done` is whether the pool has run the task that it got
-- here. `none` is a line that is not pushed: the thread still waits in `ret.get()`, or the push runs
-- over the end of the buffer.
unfoldable pub serialize :
    Config → Bool → LogMessage → Pool (List ℕ) → AsyncLogger → Pool (List ℕ) × Option AsyncLogger
serialize cfg task_done m pool l =
    let text = format (record m { name = l.logger_name }) in
    (
      back_up m.level text pool,
      if waits_for_task task_done m.level pool then none else flush_line cfg text l,
    )

-- `Debug`, with the text that `vasprintf` made.
unfoldable pub log_debug :
    Config → Bool → LogMessage → Pool (List ℕ) → AsyncLogger → Pool (List ℕ) × Option AsyncLogger
log_debug cfg task_done m pool l = serialize cfg task_done (record m { level = debug }) pool l

-- `Info`, with the text that `vasprintf` made.
unfoldable pub log_info :
    Config → Bool → LogMessage → Pool (List ℕ) → AsyncLogger → Pool (List ℕ) × Option AsyncLogger
log_info cfg task_done m pool l = serialize cfg task_done (record m { level = info }) pool l

-- `Warn`, with the text that `vasprintf` made.
unfoldable pub log_warn :
    Config → Bool → LogMessage → Pool (List ℕ) → AsyncLogger → Pool (List ℕ) × Option AsyncLogger
log_warn cfg task_done m pool l = serialize cfg task_done (record m { level = warn }) pool l

-- `Error`, with the text that `vasprintf` made.
unfoldable pub log_error :
    Config → Bool → LogMessage → Pool (List ℕ) → AsyncLogger → Pool (List ℕ) × Option AsyncLogger
log_error cfg task_done m pool l = serialize cfg task_done (record m { level = error }) pool l

-- `Fatal`, with the text that `vasprintf` made.
unfoldable pub log_fatal :
    Config → Bool → LogMessage → Pool (List ℕ) → AsyncLogger → Pool (List ℕ) × Option AsyncLogger
log_fatal cfg task_done m pool l = serialize cfg task_done (record m { level = fatal }) pool l

-- `Stop`, up to the join.
unfoldable pub stop : AsyncLogger → AsyncLogger
stop l = record l { worker = ask_stop l.worker }

pub record LoggerBuilder : Type 0 where
  pub logger_name : List ℕ
  pub flushs : List LogSink
  pub async_type : AsyncType

unfoldable pub new_logger_builder : LoggerBuilder
new_logger_builder = record {
  logger_name = codes "async_logger";
  flushs = [];
  async_type = async_safe;
}

unfoldable pub build_logger_name : List ℕ → LoggerBuilder → LoggerBuilder
build_logger_name name b = record b { logger_name = name }

unfoldable pub build_logger_type : AsyncType → LoggerBuilder → LoggerBuilder
build_logger_type type b = record b { async_type = type }

unfoldable pub build_logger_flush : LogSink → LoggerBuilder → LoggerBuilder
build_logger_flush sink b = record b { flushs = b.flushs ++ (sink ∷ []) }

-- The standard output, where no sink was named.
abbrev pub or_stdout : List LogSink → List LogSink
or_stdout [] = stdout_flush [] ∷ []
or_stdout (e ∷ es) = e ∷ es

-- `Build`; `none` is the failed assertion.
unfoldable pub build : Config → LoggerBuilder → Option AsyncLogger
build cfg b =
    if 0 == length b.logger_name
    then none
    else some (new_async_logger cfg b.logger_name (or_stdout b.flushs) b.async_type)
