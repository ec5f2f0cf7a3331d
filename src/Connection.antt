-- ===== src/Connection.antt =====
-- include/TcpConnection.hpp and src/TcpConnection.cpp: the state of one connection, with its two
-- buffers, its channel and the poller of its loop. Log lines are left out.
pub mod Send
pub mod File
pub mod Lifecycle
pub mod Invariant
pub mod Tests
use tcp_server.Base.{
  ℕ, ◌+◌, ◌-◌, ◌*◌, Bool, true, false, not, ◌&&◌, ◌||◌, List, [], ◌∷◌, ◌++◌, Option, none, some,
  if◌then◌else◌, ◌==◌, ltb, leb, length, take, drop, add_size, sub_size,
}
use tcp_server.Buffer
use tcp_server.Buffer.{
  Buffer, Io, count, fail, Arrival, readable_bytes, append, retrieve, read_fd, write_fd, new_buffer,
}
use tcp_server.Channel
use tcp_server.Channel.{
  Channel, Wish, reading, writing, no_writing, nothing, is_writing, tie, fresh_channel,
}
use tcp_server.Poller.{Epoll, Poller, set_events, remove_channel}

-- `StateE`; nothing in the source sets the last one.
pub data State : Type 0 where
  disconnected connecting connected disconnecting : State

abbrev pub is_connected : State → Bool
is_connected connected = true
is_connected _ = false

abbrev pub is_disconnected : State → Bool
is_disconnected disconnected = true
is_disconnected _ = false

-- The error numbers that the source tests.
abbrev pub ewouldblock : ℕ
ewouldblock = 11

abbrev pub epipe : ℕ
epipe = 32

abbrev pub econnreset : ℕ
econnreset = 104

-- The errors after which nothing is kept for later.
pub is_fault : ℕ → Bool
is_fault errno = not (errno == ewouldblock) && (errno == epipe || errno == econnreset)

-- The functors that a connection gives to `queueInLoop`. `std::bind` copies the high-water callback,
-- which may be empty: whether it was set then is part of the functor. `send` binds a pointer to the
-- bytes of its caller's text; `send_later` has the bytes, as if that text lived on unchanged.
pub data Task : Type 0 where
  write_complete : Task
  high_water : Bool → ℕ → Task
  send_later : List ℕ → Task
  shutdown_later : Task
  send_file_later : ℕ → ℕ → ℕ → Task

-- A call of one of the user's callbacks; `connection` with what `connected()` says at that time.
pub data Seen : Type 0 where
  connection : Bool → Seen
  message closed wrote : Seen
  above_mark : ℕ → Seen

-- `wire` is what the kernel took of the socket, `queued` what went into the loop's queue, `seen` the
-- callbacks that were called; the code keeps none of the three.
pub record Connection (k : Epoll) : Type 0 where
  pub state : State
  pub channel : Channel
  pub poller : Poller k
  pub input : Buffer
  pub output : Buffer
  pub high_water_mark : ℕ
  pub has_write_complete : Bool
  pub has_high_water : Bool
  pub write_shut : Bool
  pub wire : List ℕ
  pub queued : List Task
  pub seen : List Seen

-- The callbacks of the user and of the server, which may do anything with the connection.
pub record Handlers (k : Epoll) : Type 0 where
  pub on_connection : Connection k → Connection k
  pub on_message : Connection k → Connection k
  pub on_close : Connection k → Connection k
  pub on_write_complete : Connection k → Connection k
  pub on_high_water : ℕ → Connection k → Connection k

module _ {k : Epoll} where
  -- The constructor, for the descriptor `sockfd` on a loop with this poller.
  unfoldable pub fresh_connection : Poller k → ℕ → ℕ → Connection k
  fresh_connection p self sockfd = record {
    state = connecting;
    channel = fresh_channel self sockfd;
    poller = p;
    input = new_buffer 1024;
    output = new_buffer 1024;
    high_water_mark = 64 * 1024 * 1024;
    has_write_complete = false;
    has_high_water = false;
    write_shut = false;
    wire = [];
    queued = [];
    seen = [];
  }

  set_write_complete_callback : Connection k → Connection k
  set_write_complete_callback c = record c { has_write_complete = true }

  -- With the mark, which is the second argument of the source's function.
  set_high_water_markback : ℕ → Connection k → Connection k
  set_high_water_markback mark c = record c { has_high_water = true; high_water_mark = mark }

  unfoldable pub wish : Wish → Connection k → Connection k
  wish w c = let (p, ch) = set_events w c.poller c.channel in record c { poller = p; channel = ch }

  unfoldable pub queue_in_loop : Task → Connection k → Connection k
  queue_in_loop t c = record c { queued = c.queued ++ (t ∷ []) }
