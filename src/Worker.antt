-- ===== src/Worker.antt =====
-- log_system/logs_code/AsyncWorker.hpp: the threads that log, the thread that hands the log to the
-- callback, and the two buffers that they swap.
pub mod Order
pub mod Late
pub mod Rounds
pub mod Steps
pub mod Clean
pub mod Sound
pub mod Stopping
pub mod Wakeup
mod Tests
use tcp_server.LogBuffer.{
  Config, LogBuffer, new_log_buffer, writeable_size, readable_size, is_empty, swap, reset,
}
use tcp_server.Base.{
  ℕ, Bool, true, false, ◌&&◌, Option, none, some, List, [], ◌∷◌, ◌++◌, ltb, if◌then◌else◌, length,
  take, drop,
}

pub data AsyncType : Type 0 where
  async_safe async_unsafe : AsyncType

-- Where the worker's thread is: waiting for work, at the callback, or returned.
pub data Phase : Type 0 where
  waiting handling returned : Phase

-- `handed` lists the bytes that the callback was given, `pushed` those that the producers put in;
-- `blocked` are the producers that wait for room, with what they want to push.
pub record Worker : Type 0 where
  pub async_type : AsyncType
  pub stop : Bool
  pub productor : LogBuffer
  pub consumer : LogBuffer
  pub phase : Phase
  pub blocked : List (List ℕ)
  pub handed : List ℕ
  pub pushed : List ℕ

unfoldable pub new_worker : Config → AsyncType → Worker
new_worker cfg async_type = record {
  async_type = async_type;
  stop = false;
  productor = new_log_buffer cfg;
  consumer = new_log_buffer cfg;
  phase = waiting;
  blocked = [];
  handed = [];
  pushed = [];
}

-- What the callback finds in its buffer.
unfoldable pub begin : LogBuffer → List ℕ
begin b = take (readable_size b) (drop b.read_pos b.bytes)

abbrev pub is_safe : AsyncType → Bool
is_safe async_safe = true
is_safe async_unsafe = false

-- Whether a producer has to wait before it pushes.
unfoldable pub must_wait : Worker → List ℕ → Bool
must_wait w src = is_safe w.async_type && ltb (writeable_size w.productor) (length src)

-- The push itself; `none` runs over the end of the buffer.
unfoldable pub put : Config → Worker → List ℕ → Option Worker
put cfg w src = elim (tcp_server.LogBuffer.push cfg w.productor src) [
  | none ↦ none
  | some b ↦ some (record w { productor = b; pushed = w.pushed ++ src })
]

-- `Push`, up to where it returns or waits.
unfoldable pub push : Config → Worker → List ℕ → Option Worker
push cfg w src =
    if w.stop
    then some w
    else if must_wait w src
    then some (record w { blocked = w.blocked ++ (src ∷ []) })
    else put cfg w src

-- The callback on the consumer's buffer, and the reset.
unfoldable pub call_back : Worker → Worker
call_back w = record w { handed = w.handed ++ begin w.consumer; consumer = reset w.consumer }

unfoldable pub exchange : Worker → Worker
exchange w =
    if is_empty w.productor
    then w
    else (let (p, c) = swap w.productor w.consumer in record w { productor = p; consumer = c })

-- The return of the thread, with what is left for the callback.
unfoldable pub leave : Worker → Worker
leave w = record (if is_empty w.consumer then w else call_back w) { phase = returned }

-- The part of `ThreadEntry` under the mutex, once the thread was woken.
unfoldable pub take_over : Worker → Worker
take_over w =
    let x = exchange w in
    if x.stop && is_empty x.productor then leave x else record x { phase = handling }

-- The rest of a round.
unfoldable pub hand_over : Worker → Worker
hand_over w = record (call_back w) { phase = waiting }

-- `Stop`, up to the join.
unfoldable pub ask_stop : Worker → Worker
ask_stop w = record w { stop = true }
