-- ===== src/Server.antt =====
-- include/TcpServer.hpp, src/TcpServer.cpp and src/Acceptor.cpp: the server's map of connections,
-- what it hands to which loop, and the acceptor that brings new sockets. Texts are lists of codes.
pub mod Keys
pub mod Names
pub mod Starting
pub mod Life
pub mod Once
mod Tests
use tcp_server.Base.{
  to_string, same_text, ℕ, ◌+◌, ◌-◌, ◌%◌, ◌^◌, ltb, Bool, true, false, ◌&&◌, Option, none, some,
  List, [], ◌∷◌, ◌++◌, ◌==◌, if◌then◌else◌,
}
use tcp_server.LoopPool.{LoopPool, fresh_pool, start_pool, get_next_loop}

-- What the server hands to a loop with `runInLoop` or `queueInLoop`; connections go by their names.
pub data Job : Type 0 where
  listen : Job
  establish : List ℕ → Job
  remove : List ℕ → Job
  destroy : List ℕ → Job

-- A `TcpConnection` as the server sees it.
pub record Conn : Type 0 where
  pub name : List ℕ
  pub sockfd : ℕ
  pub io_loop : ℕ

-- `std::unordered_map<std::string, TcpConnectionPtr>`
abbrev pub Map : Type 0
Map = List (List ℕ × Conn)

-- `next_conn_id` is an `int` by its 32 bits. `posted` lists the jobs with their loops, in the order in which they were handed over; `closed` the
-- sockets that were closed because nobody wanted them.
pub record Server : Type 0 where
  pub loop : ℕ
  pub ip_port : List ℕ
  pub name : List ℕ
  pub pool : LoopPool
  pub started : ℕ
  pub next_conn_id : ℕ
  pub connections : Map
  pub listenning : Bool
  pub posted : List (ℕ × Job)
  pub closed : List ℕ

unfoldable pub find : List ℕ → Map → Option Conn
find k [] = none
find k ((j, c) ∷ m) = if same_text j k then some c else find k m

-- `m[k] = c`
unfoldable pub assign : List ℕ → Conn → Map → Map
assign k c [] = (k, c) ∷ []
assign k c ((j, d) ∷ m) = if same_text j k then (j, c) ∷ m else (j, d) ∷ assign k c m

unfoldable pub erase : List ℕ → Map → Map
erase k [] = []
erase k ((j, d) ∷ m) = if same_text j k then erase k m else (j, d) ∷ erase k m

unfoldable pub post : ℕ → Job → Server → Server
post l j s = record s { posted = s.posted ++ ((l, j) ∷ []) }

-- The constructor; the caller passes what `toIpPort()` gives.
unfoldable pub fresh_server : ℕ → List ℕ → List ℕ → Server
fresh_server loop ip_port name = record {
  loop = loop;
  ip_port = ip_port;
  name = name;
  pool = fresh_pool loop name;
  started = 0;
  next_conn_id = 1;
  connections = [];
  listenning = false;
  posted = [];
  closed = [];
}

unfoldable pub set_thread_num : ℕ → Server → Server
set_thread_num num_threads s = record s {
  pool = tcp_server.LoopPool.set_thread_num num_threads s.pool;
}

-- `start`; `started_` is a 32-bit atomic.
unfoldable pub start : (ℕ → ℕ) → Bool → Server → Server
start start_loop callback s =
    let t : Server = record s { started = (s.started + 1) % 2 ^ 32 } in
    if s.started == 0
    then post s.loop listen (record t { pool = (start_pool start_loop callback t.pool).0 })
    else t

-- `Acceptor::listen`, the job that `start` hands over.
unfoldable pub accept_listen : Server → Server
accept_listen s = record s { listenning = true }

-- `std::to_string` of an `int` by its 32 bits.
unfoldable pub int_text : ℕ → List ℕ
int_text n = if ltb n (2 ^ 31) then to_string n else 45 ∷ to_string (2 ^ 32 - n)

-- `name_ + "-" + ipPort_ + std::to_string(id)`
unfoldable pub conn_name : Server → ℕ → List ℕ
conn_name s id = s.name ++ ((45 ∷ []) ++ (s.ip_port ++ int_text id))

-- `newConnection`; the overflow of the `int`, which C++ leaves undefined, wraps around here.
unfoldable pub new_connection : ℕ → Server → Server
new_connection sockfd s =
    let (io_loop, p) = get_next_loop s.pool in
    let key = conn_name s s.next_conn_id in
    post io_loop (establish key) (record s {
      pool = p;
      next_conn_id = (s.next_conn_id + 1) % 2 ^ 32;
      connections =
          assign key (record { name = key; sockfd = sockfd; io_loop = io_loop }) s.connections;
    })

-- `Acceptor::handleRead`: `accept` gives a socket or fails; without a callback the socket is closed.
unfoldable pub handle_accept : Bool → Option ℕ → Server → Server
handle_accept has_callback none s = s
handle_accept has_callback (some fd) s =
    if has_callback then new_connection fd s else record s { closed = s.closed ++ (fd ∷ []) }

-- `removeConnection`, the close callback of every connection
unfoldable pub remove_connection : Conn → Server → Server
remove_connection c s = post s.loop (remove c.name) s

-- `removeConnectionInLoop`
unfoldable pub remove_connection_in_loop : Conn → Server → Server
remove_connection_in_loop c s =
    post c.io_loop (destroy c.name) (record s { connections = erase c.name s.connections })

unfoldable pub destroy_all : Map → Server → Server
destroy_all [] s = s
destroy_all ((k, c) ∷ m) s = destroy_all m (post c.io_loop (destroy c.name) s)

-- The destructor lets every connection be destroyed in its own loop.
unfoldable pub destruct : Server → Server
destruct s = destroy_all s.connections s
