-- ===== src/Worker/Tests.antt =====
-- The theorems about the worker at a concrete run: one push, the stop, and the last round.
use tcp_server.Worker.{
  Worker, new_worker, begin, must_wait, put, push, call_back, exchange, leave, take_over, ask_stop,
  async_safe, async_unsafe, waiting, returned,
}
use tcp_server.Worker.Steps.{Reach, stops, here, next, pushes, takes_over, Step}
use tcp_server.Worker.Wakeup as Wakeup
use tcp_server.Worker.Wakeup.{missed, asleep, joining, stop_hangs}
use tcp_server.Worker.Stopping.{stop_returns}
use tcp_server.Worker.Late.{Steps, late_push_lost}
use tcp_server.LogBuffer.{
  LogBuffer, new_log_buffer, writeable_size, readable_size, is_empty, to_be_enough, copy_in, swap,
  reset,
}
use tcp_server.LogBuffer.Tests.{small_config}
use tcp_server.Base.{
  ℕ, ◌≡◌, refl, subst, true, false, some, List, [], ◌∷◌, ◌++◌, arith, add_size, sub_size,
}

abbrev started : Worker
started = new_worker small_config async_unsafe

abbrev loaded : Worker
loaded = record {
  async_type = async_unsafe;
  stop = false;
  productor = record { bytes = 97 ∷ 98 ∷ 0 ∷ 0 ∷ []; write_pos = 2; read_pos = 0 };
  consumer = record { bytes = 0 ∷ 0 ∷ 0 ∷ 0 ∷ []; write_pos = 0; read_pos = 0 };
  phase = waiting;
  blocked = [];
  handed = [];
  pushed = 97 ∷ 98 ∷ [];
}

abbrev finished : Worker
finished = record {
  async_type = async_unsafe;
  stop = true;
  productor = record { bytes = 0 ∷ 0 ∷ 0 ∷ 0 ∷ []; write_pos = 0; read_pos = 0 };
  consumer = record { bytes = 97 ∷ 98 ∷ 0 ∷ 0 ∷ []; write_pos = 0; read_pos = 0 };
  phase = returned;
  blocked = [];
  handed = 97 ∷ 98 ∷ [];
  pushed = 97 ∷ 98 ∷ [];
}

push_runs : push small_config started (97 ∷ 98 ∷ []) ≡ some loaded
unfolding push new_worker tcp_server.Worker.must_wait tcp_server.Worker.put
    tcp_server.LogBuffer.push tcp_server.LogBuffer.copy_in tcp_server.LogBuffer.to_be_enough
    tcp_server.LogBuffer.writeable_size tcp_server.Base.sub_size tcp_server.LogBuffer.new_log_buffer
    tcp_server.Base.add_size
push_runs = refl

last_round_runs : take_over (ask_stop loaded) ≡ finished
unfolding take_over tcp_server.Worker.exchange tcp_server.LogBuffer.is_empty ask_stop
    tcp_server.LogBuffer.swap tcp_server.Worker.leave tcp_server.Worker.call_back
    tcp_server.LogBuffer.reset tcp_server.Worker.begin tcp_server.LogBuffer.readable_size
    tcp_server.Base.sub_size
last_round_runs = refl

finished-Reach : Reach small_config async_unsafe finished
unfolding ask_stop
finished-Reach =
    subst (λ w. Reach small_config async_unsafe w) last_round_runs
      (next
        (next (next here (pushes started loaded (97 ∷ 98 ∷ []) push_runs (omega arith)))
          (stops loaded))
        (takes_over (ask_stop loaded) refl refl))

abbrev four_free : LogBuffer
four_free = record { bytes = 0 ∷ 0 ∷ 0 ∷ 0 ∷ []; write_pos = 0; read_pos = 0 }

-- A safe worker with three of its four places taken, and a producer that waits with two bytes more.
abbrev safe_started : Worker
safe_started = new_worker small_config async_safe

abbrev three_taken : Worker
three_taken = record {
  async_type = async_safe;
  stop = false;
  productor = record { bytes = 1 ∷ 2 ∷ 3 ∷ 0 ∷ []; write_pos = 3; read_pos = 0 };
  consumer = four_free;
  phase = waiting;
  blocked = [];
  handed = [];
  pushed = 1 ∷ 2 ∷ 3 ∷ [];
}

abbrev one_waits : Worker
one_waits = record three_taken { blocked = (7 ∷ 8 ∷ []) ∷ [] }

-- It was stopped, and its thread has returned.
abbrev left_waiting : Worker
left_waiting = record {
  async_type = async_safe;
  stop = true;
  productor = four_free;
  consumer = record { bytes = 1 ∷ 2 ∷ 3 ∷ 0 ∷ []; write_pos = 0; read_pos = 0 };
  phase = returned;
  blocked = (7 ∷ 8 ∷ []) ∷ [];
  handed = 1 ∷ 2 ∷ 3 ∷ [];
  pushed = 1 ∷ 2 ∷ 3 ∷ [];
}

fills : push small_config safe_started (1 ∷ 2 ∷ 3 ∷ []) ≡ some three_taken
unfolding push new_worker must_wait put tcp_server.LogBuffer.push copy_in to_be_enough
    writeable_size sub_size new_log_buffer add_size
fills = refl

must_wait_two : push small_config three_taken (7 ∷ 8 ∷ []) ≡ some one_waits
unfolding push must_wait writeable_size sub_size
must_wait_two = refl

safe_last_round : take_over (ask_stop one_waits) ≡ left_waiting
unfolding take_over exchange is_empty ask_stop swap leave call_back reset begin readable_size
    sub_size
safe_last_round = refl

left_waiting-Reach : Reach small_config async_safe left_waiting
unfolding ask_stop
left_waiting-Reach =
    subst (λ w. Reach small_config async_safe w) safe_last_round
      (next
        (next
          (next (next here (pushes safe_started three_taken (1 ∷ 2 ∷ 3 ∷ []) fills (omega arith)))
            (pushes three_taken one_waits (7 ∷ 8 ∷ []) must_wait_two (omega arith)))
          (stops one_waits))
        (takes_over (ask_stop one_waits) refl refl))

abbrev pushed_late : Worker
pushed_late = record left_waiting {
  productor = record { bytes = 7 ∷ 8 ∷ 0 ∷ 0 ∷ []; write_pos = 2; read_pos = 0 };
  pushed = 1 ∷ 2 ∷ 3 ∷ 7 ∷ 8 ∷ [];
}

abbrev too_late : Worker
too_late = record pushed_late { blocked = [] }

late_push_lost_example :
    Step small_config async_safe left_waiting too_late
    × Reach small_config async_safe too_late
    × (too_late.pushed ≡ 1 ∷ 2 ∷ 3 ∷ 7 ∷ 8 ∷ [])
    × ((u : Worker) → Steps small_config async_safe too_late u → u.handed ≡ 1 ∷ 2 ∷ 3 ∷ [])
unfolding must_wait put tcp_server.LogBuffer.push copy_in to_be_enough writeable_size sub_size
    add_size
late_push_lost_example =
    late_push_lost small_config async_safe left_waiting pushed_late [] [] (7 ∷ 8 ∷ [])
      left_waiting-Reach refl refl refl refl (omega arith)

stopping-Reach : Reach small_config async_unsafe (ask_stop loaded)
stopping-Reach =
    next (next here (pushes started loaded (97 ∷ 98 ∷ []) push_runs (omega arith))) (stops loaded)

stop_returns_example :
    ((take_over (ask_stop loaded)).phase ≡ returned)
    × ((take_over (ask_stop loaded)).handed ≡ 97 ∷ 98 ∷ [])
unfolding ask_stop
stop_returns_example =
    stop_returns small_config (omega arith) async_unsafe (ask_stop loaded) (omega arith)
      stopping-Reach refl (λ e. cc e)

stop_hangs_example : Wakeup.Reach missed × (missed.place ≡ asleep) × (missed.caller ≡ joining)
stop_hangs_example = stop_hangs missed (Wakeup.done missed)
