-- ===== src/Connection/Tests.antt =====
-- The theorems about a connection at concrete values.
use tcp_server.Base.{
  ℕ, ◌+◌, ◌≡◌, refl, true, false, none, some, List, [], ◌∷◌, ◌++◌, arith, ◌==◌, update, length,
  sub_size,
}
use tcp_server.Buffer.{Buffer, readable_bytes, Io, count}
use tcp_server.Buffer.Layout.{IsValid}
use tcp_server.Buffer.Tests.{two_waiting, two_waiting-IsValid}
use tcp_server.Channel.{fresh_channel, is_writing, is_reading, added}
use tcp_server.Channel.Masks.{bits, reads, both}
use tcp_server.Poller.Tests.{tables, empty_poller, watching}
use tcp_server.Connection.{
  Task, send_file_later, connection, Connection, Handlers, fresh_connection, connected, closed,
}
use tcp_server.Connection.Invariant.{Inv, Good}
use tcp_server.Connection.Send.{can_write, send_in_loop}
use tcp_server.Connection.Send.History.{
  Call, sends, half_closes, perform_all, adds_all, perform_all-Good,
}
use tcp_server.Connection.Send.Progress.{Takes, write_events, write_events-drain}
use tcp_server.Connection.Send.Notes.{notes, send_in_loop_queued}
use tcp_server.Connection.File.{send_file_in_loop}
use tcp_server.Connection.File.Requeue.{overrun}
use tcp_server.Connection.Lifecycle.{connect_established, connect_destroyed, handle_close, run_task}
use tcp_server.Connection.Lifecycle.Closing.{
  OnlyLooks, fresh_connection-Good, connect_established_lem, peer_close_lem,
}
use tcp_server.Connection.Lifecycle.Tasks.{unset_mark_lem}

abbrev no_bytes : Buffer
no_bytes = record {
  bytes = 0 ∷ 0 ∷ 0 ∷ 0 ∷ 0 ∷ 0 ∷ 0 ∷ 0 ∷ 0 ∷ 0 ∷ [];
  reader_index = 8;
  writer_index = 8;
}

no_bytes-IsValid : IsValid no_bytes
no_bytes-IsValid = record {
  front = omega arith;
  order = omega arith;
  inside = omega arith;
  small = omega arith;
}

-- An established connection on the descriptor 7 that waits for input.
abbrev pub up : Connection tables
up = record {
  state = connected;
  channel = record { self = 1; fd = 7; events = 3; revents = 0; index = added; tied = true };
  poller = watching;
  input = no_bytes;
  output = no_bytes;
  high_water_mark = 2;
  has_write_complete = true;
  has_high_water = false;
  write_shut = false;
  wire = [];
  queued = [];
  seen = [];
}

up-Inv : Inv up
unfolding readable_bytes tcp_server.Base.sub_size
up-Inv = record {
  input_valid = no_bytes-IsValid;
  output_valid = no_bytes-IsValid;
  mask = reads;
  events = refl;
  flow = refl;
  synced = record { in_list = refl; in_epoll = refl };
}

pub up-Good : Good [] up
up-Good = record { inv = up-Inv; accepted = refl }

-- The same, with two bytes that wait for the kernel to take them.
abbrev waiting : Connection tables
waiting = record up {
  channel = record { self = 1; fd = 7; events = 7; revents = 0; index = added; tied = true };
  poller = record watching { epoll = update (λ j. none) 7 (some 7) };
  output = two_waiting;
  high_water_mark = 3;
}

waiting-Inv : Inv waiting
unfolding readable_bytes tcp_server.Base.sub_size
waiting-Inv = record {
  input_valid = no_bytes-IsValid;
  output_valid = two_waiting-IsValid;
  mask = both;
  events = refl;
  flow = omega arith;
  synced = record { in_list = refl; in_epoll = refl };
}

waiting-Good : Good (65 ∷ 66 ∷ []) waiting
waiting-Good = record { inv = waiting-Inv; accepted = refl }

waiting_writes : is_writing waiting.channel ≡ true
unfolding is_writing
waiting_writes = refl

waiting_reads : is_reading waiting.channel ≡ true
unfolding is_reading
waiting_reads = refl

up-can_write : can_write up ≡ true
unfolding can_write is_writing readable_bytes tcp_server.Base.sub_size
up-can_write = refl

-- User code that does nothing with the connection.
abbrev idle_handlers : Handlers tables
idle_handlers = record {
  on_connection = λ c. c;
  on_message = λ c. c;
  on_close = λ c. c;
  on_write_complete = λ c. c;
  on_high_water = λ n c. c;
}

idle-OnlyLooks : OnlyLooks idle_handlers
idle-OnlyLooks = record { connection = λ c. refl; message = λ c. refl; close = λ c. refl }

abbrev pub hello : List ℕ
hello = 104 ∷ 105 ∷ []

-- A kernel that takes one byte of what it is offered.
abbrev pub one_byte : List ℕ → Io
one_byte [] = count 0
one_byte (x ∷ xs) = count 1

one_byte-Takes : Takes one_byte
one_byte-Takes [] h = ground arith
one_byte-Takes (x ∷ xs) h = (1, refl, omega arith, omega arith)

abbrev short_talk : List Call
short_talk = sends hello (count 1) ∷ half_closes ∷ []

perform_all-Good_example : Good ([] ++ adds_all up short_talk) (perform_all up short_talk)
perform_all-Good_example =
    perform_all-Good [] up short_talk up-Good ((omega arith, omega arith), (tt, tt))

write_events-drain_example :
    ((write_events waiting (one_byte ∷ one_byte ∷ [])).wire ≡ 65 ∷ 66 ∷ [])
    × (is_writing (write_events waiting (one_byte ∷ one_byte ∷ [])).channel ≡ false)
write_events-drain_example =
    write_events-drain waiting (one_byte ∷ one_byte ∷ []) waiting-Good waiting_writes
      (one_byte-Takes, (one_byte-Takes, tt)) (omega arith)

abbrev takes_two : List ℕ → Io
takes_two xs = count 2

send_in_loop_queued_example : (send_in_loop up hello (count 2)).queued ≡ [] ++ notes up 2 (count 2)
unfolding is_writing readable_bytes tcp_server.Base.sub_size
send_in_loop_queued_example =
    send_in_loop_queued up hello (count 2) up-Good (omega arith) (omega arith) refl

abbrev letters : List ℕ
letters = 97 ∷ 98 ∷ 99 ∷ 100 ∷ 101 ∷ []

overrun_example :
    let d = send_file_in_loop up letters 9 0 3 (count 2) in
    (d.queued ≡ send_file_later 9 2 3 ∷ [])
    × (length (send_file_in_loop d letters 9 2 3 (count 3)).wire ≡ 5)
overrun_example =
    overrun up letters 9 0 3 2 refl up-can_write (omega arith) (omega arith) (omega arith)
      (omega arith)

connect_established_lem_example :
    let c = fresh_connection empty_poller 1 7 in
    let d = connect_established idle_handlers c in
    Good [] d
    × (d.state ≡ connected)
    × (d.channel.tied ≡ true)
    × (d.channel.events ≡ bits reads)
    × (d.seen ≡ c.seen ++ (connection true ∷ []))
unfolding fresh_connection fresh_channel
connect_established_lem_example =
    connect_established_lem idle_handlers (fresh_connection empty_poller 1 7) idle-OnlyLooks
      (fresh_connection-Good empty_poller 1 7 refl refl) refl

peer_close_lem_example :
    (connect_destroyed idle_handlers (handle_close idle_handlers up)).seen
    ≡ connection true ∷ closed ∷ connection false ∷ []
peer_close_lem_example = peer_close_lem idle_handlers up idle-OnlyLooks up-Inv refl

unset_mark_lem_example :
    (t : Task) × ((send_in_loop waiting hello (count 0)).queued ≡ t ∷ [])
    × (run_task idle_handlers (record up { has_high_water = true }) [] t (count 0) ≡ none)
unfolding is_writing readable_bytes tcp_server.Base.sub_size
unset_mark_lem_example =
    unset_mark_lem idle_handlers waiting (record up { has_high_water = true }) hello [] (count 0)
      (count 0) waiting-Good (omega arith) (omega arith) refl waiting_writes refl
