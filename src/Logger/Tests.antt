-- ===== src/Logger/Tests.antt =====
-- The theorems about the loggers at concrete values: a message that is logged and reaches its sinks, and a
-- manager with three loggers.
use tcp_server.Logger.{
  AsyncLogger, flush_line, waits_for_task, new_async_logger, real_flush, serialize, log_debug,
  log_info, log_warn, log_error, log_fatal, stop,
}
use tcp_server.Logger.Message.{level_to_string, LogMessage, format, debug, warn, info, error, fatal}
use tcp_server.Logger.Lines.{read_line, fields_of, read_line-format}
use tcp_server.Logger.Calls.{line_at, with_task, calls_lem}
use tcp_server.Logger.Steps.{last_call, flush_if, stops, Reach, next, here, logs, takes_over}
use tcp_server.Logger.Flushing.{AllGot}
use tcp_server.Logger.Pipeline.{sinks_in_order, sinks_complete, callback_works}
use tcp_server.Logger.Manager.{LoggerManager, find, get_logger}
use tcp_server.Logger.Named.{add_all, get_logger-add_all}
use tcp_server.LogFlush.Sinks.{
  new_file_flush, to_kernel, push_on, file_flush_flush, LogSink, stdout_flush, file_flush,
  roll_file_flush, sink_flush, SinkIsValid, new_file_flush-IsValid,
}
use tcp_server.LogFlush.{new_roll_file_flush, next_file, init_log_file, write_out, flush}
use tcp_server.LogFlush.Rolling.{new_roll_file_flush-IsValid}
use tcp_server.Worker.{
  Worker, new_worker, begin, must_wait, put, push, exchange, leave, take_over, ask_stop, async_safe,
  async_unsafe, waiting,
}
use tcp_server.LogBuffer.{
  Config, LogBuffer, new_log_buffer, writeable_size, readable_size, is_empty, to_be_enough, copy_in,
  swap,
}
use tcp_server.LogBuffer.Growth.{contents}
use tcp_server.ThreadPool.{fresh_pool}
use tcp_server.Base.{
  to_string, ℕ, ◌^◌, ◌≡◌, refl, true, false, Option, none, some, List, [], ◌∷◌, ◌++◌, arith, codes,
  replicate, add_size, sub_size,
}

abbrev config : Config
config = record { buffer_size = 64; threadhold = 64; linear_growth = 64 }

-- main.cpp:5
abbrev message : LogMessage
message = record {
  level = info;
  line = 5;
  time = codes "01:02:03";
  tid = codes "7";
  name = codes "app";
  file_name = codes "main.cpp";
  payload = codes "[up]";
}

read_line-format_example : read_line (format message) ≡ fields_of message
read_line-format_example =
    read_line-format message
      (
        omega arith,
        (
          omega arith,
          (
            omega arith,
            (omega arith, (omega arith, (omega arith, (omega arith, (omega arith, tt))))),
          ),
        ),
      )
      (omega arith, tt) (omega arith, (omega arith, (omega arith, tt)))
      (
        omega arith,
        (
          omega arith,
          (
            omega arith,
            (omega arith, (omega arith, (omega arith, (omega arith, (omega arith, tt))))),
          ),
        ),
      )

abbrev sinks : List LogSink
sinks =
    stdout_flush []
    ∷ file_flush (new_file_flush true)
    ∷ roll_file_flush (new_roll_file_flush 100)
    ∷ []

abbrev started : AsyncLogger
started = new_async_logger config (codes "app") sinks async_unsafe

abbrev or_started : Option AsyncLogger → AsyncLogger
or_started none = started
or_started (some l) = l

abbrev line : List ℕ
line = format message

-- The worker's state once the line was pushed.
abbrev loaded : Worker
loaded = record {
  async_type = async_unsafe;
  stop = false;
  productor = record { bytes = line ++ replicate 21 0; write_pos = 43; read_pos = 0 };
  consumer = record { bytes = replicate 64 0; write_pos = 0; read_pos = 0 };
  phase = waiting;
  blocked = [];
  handed = [];
  pushed = line;
}

abbrev logged_one : AsyncLogger
logged_one = record started { worker = loaded }

logged_one_runs : (serialize config true message fresh_pool started).1 ≡ some logged_one
unfolding serialize flush_line waits_for_task tcp_server.Worker.push format level_to_string
    new_async_logger new_worker must_wait put tcp_server.LogBuffer.push copy_in to_be_enough
    writeable_size sub_size new_log_buffer add_size to_string
logged_one_runs = refl

abbrev got : List LogSink
got =
    stdout_flush line
    ∷ file_flush (record { opened = true; bytes = line; in_kernel = 43; on_disk = 0 })
    ∷ roll_file_flush (record {
      cnt = 1;
      cur_size = 43;
      max_size = 100;
      opened = true;
      files = record { number = 1; bytes = line } ∷ [];
    })
    ∷ []

abbrev ended : AsyncLogger
ended = record (stop logged_one) { flushs = got; worker = take_over (stop logged_one).worker }

got_runs : flush_if 1 sinks (last_call (stop logged_one).worker) ≡ some got
unfolding stop ask_stop last_call exchange is_empty begin swap readable_size sub_size real_flush
    sink_flush file_flush_flush push_on to_kernel flush init_log_file next_file write_out
    new_roll_file_flush new_file_flush add_size format level_to_string to_string
got_runs = refl

ended-Reach : Reach config 1 (codes "app") sinks async_unsafe ended
unfolding stop ask_stop new_async_logger new_roll_file_flush format level_to_string to_string
ended-Reach =
    next
      (next (next here (logs started message fresh_pool logged_one logged_one_runs (omega arith)))
        (stops logged_one))
      (takes_over (stop logged_one) got refl refl (tt, (tt, (omega arith, tt))) got_runs)

sinks-AllGot : AllGot 1 (2 ^ 31) [] sinks
unfolding new_roll_file_flush new_file_flush
sinks-AllGot = (
  tt,
  refl,
  (
    new_file_flush-IsValid 1,
    refl,
    (new_roll_file_flush-IsValid (2 ^ 31) 100 (omega arith), refl, tt),
  ),
)

sinks_in_order_example :
    (ended.worker.pushed
      ≡ line ++ (contents ended.worker.consumer ++ contents ended.worker.productor))
    × SinkIsValid 1 (2 ^ 31) (stdout_flush line)
sinks_in_order_example =
    sinks_in_order config (omega arith) (omega arith) 1 (codes "app") sinks async_unsafe ended [] _
      (stdout_flush line) sinks-AllGot ended-Reach refl

sinks_complete_example : line ≡ ended.worker.pushed
unfolding take_over exchange is_empty swap leave stop ask_stop
sinks_complete_example =
    sinks_complete config (omega arith) (omega arith) 1 (codes "app") sinks async_unsafe ended [] _
      (stdout_flush line) sinks-AllGot ended-Reach refl refl refl

calls_lem_example :
    (log_debug config false message fresh_pool started
      ≡ (fresh_pool, flush_line config (line_at debug message started) started))
    × (log_info config false message fresh_pool started
        ≡ (fresh_pool, flush_line config (line_at info message started) started))
    × (log_warn config false message fresh_pool started
        ≡ (fresh_pool, flush_line config (line_at warn message started) started))
    × (log_error config false message fresh_pool started
        ≡ (with_task (line_at error message started) fresh_pool, none))
    × (log_fatal config false message fresh_pool started
        ≡ (with_task (line_at fatal message started) fresh_pool, none))
unfolding fresh_pool
calls_lem_example = calls_lem config false message fresh_pool started

abbrev other : AsyncLogger
other = new_async_logger config (codes "app") (stdout_flush [] ∷ []) async_safe

-- Two loggers of one name, of which the manager has the first.
abbrev manager : LoggerManager
manager = record {
  store = started ∷ other ∷ [];
  default_logger = 0;
  loggers = (codes "app", 0) ∷ [];
}

get_logger-add_all_example :
    get_logger (codes "app") (add_all (1 ∷ 7 ∷ []) manager)
    ≡ find (codes "app") ((codes "app", 0) ∷ (codes "app", 1) ∷ [])
unfolding new_async_logger
get_logger-add_all_example = get_logger-add_all (codes "app") (1 ∷ 7 ∷ []) manager

-- The line is at the callback.
abbrev handing : AsyncLogger
handing = record logged_one { flushs = sinks; worker = take_over loaded }

nothing_yet : flush_if 1 sinks (last_call loaded) ≡ some sinks
unfolding last_call exchange is_empty swap
nothing_yet = refl

handing-Reach : Reach config 1 (codes "app") sinks async_unsafe handing
unfolding is_empty new_roll_file_flush format level_to_string to_string new_async_logger
handing-Reach =
    next (next here (logs started message fresh_pool logged_one logged_one_runs (omega arith)))
      (takes_over logged_one sinks refl refl (tt, (tt, (omega arith, tt))) nothing_yet)

callback_works_example :
    (ks : List LogSink) × (real_flush 1 true sinks line ≡ some ks) × AllGot 1 (2 ^ 31) line ks
unfolding take_over exchange is_empty swap begin readable_size sub_size format level_to_string
    to_string new_roll_file_flush
callback_works_example =
    callback_works config (omega arith) (omega arith) 1 (codes "app") sinks async_unsafe handing
      sinks-AllGot handing-Reach (tt, (tt, (omega arith, tt)))
