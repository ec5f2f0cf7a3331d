-- ===== src/Server/Life.antt =====
-- src/TcpServer.cpp: a connection's way through the server and the loops, as interleaved steps: the
-- server's threads set and started, a socket accepted, the connection
-- established in its own loop, closed, removed in the server's loop, destroyed in its own loop.
use tcp_server.Server.{
  Conn, Server, set_thread_num, start, fresh_server, conn_name, new_connection, remove_connection,
  remove_connection_in_loop,
}
use tcp_server.LoopPool.{get_next_loop}
use tcp_server.Base.{
  Bool, ℕ, ◌+◌, ◌≡◌, Option, none, some, List, [], ◌∷◌, ◌++◌, if◌then◌else◌, same_text,
}

-- The connections by where they are: their `connectEstablished` is queued, they are up, their
-- `removeConnectionInLoop` is queued, their `connectDestroyed` is queued, or it has run. `accepted`
-- counts the sockets that came.
pub record Life : Type 0 where
  pub server : Server
  pub accepted : ℕ
  pub establishing : List Conn
  pub live : List Conn
  pub removing : List Conn
  pub destroying : List Conn
  pub destroyed : List Conn

abbrev pub conn_of : ℕ → Server → Conn
conn_of sockfd s = record {
  name = conn_name s s.next_conn_id;
  sockfd = sockfd;
  io_loop = (get_next_loop s.pool).0;
}

-- A queued functor may run at any time.
pub data Step : Life → Life → Type 0 where
  sets_threads :
      (s : Life) (num_threads : ℕ)
      → Step s (record s { server = set_thread_num num_threads s.server })
  -- `start`, which starts the thread pool on its first call
  starts :
      (s : Life) (start_loop : ℕ → ℕ) (callback : Bool)
      → Step s (record s { server = start start_loop callback s.server })
  accepts :
      (s : Life) (sockfd : ℕ)
      → Step s (record s {
        server = new_connection sockfd s.server;
        accepted = s.accepted + 1;
        establishing = s.establishing ++ (conn_of sockfd s.server ∷ []);
      })
  establishes :
      (s : Life) (before after : List Conn) (c : Conn)
      → s.establishing ≡ before ++ (c ∷ after)
      → Step s (record s { establishing = before ++ after; live = s.live ++ (c ∷ []) })
  -- the close callback of a connection that is up
  closes :
      (s : Life) (before after : List Conn) (c : Conn)
      → s.live ≡ before ++ (c ∷ after)
      → Step s (record s {
        server = remove_connection c s.server;
        live = before ++ after;
        removing = s.removing ++ (c ∷ []);
      })
  removes :
      (s : Life) (before after : List Conn) (c : Conn)
      → s.removing ≡ before ++ (c ∷ after)
      → Step s (record s {
        server = remove_connection_in_loop c s.server;
        removing = before ++ after;
        destroying = s.destroying ++ (c ∷ []);
      })
  destroys :
      (s : Life) (before after : List Conn) (c : Conn)
      → s.destroying ≡ before ++ (c ∷ after)
      → Step s (record s { destroying = before ++ after; destroyed = s.destroyed ++ (c ∷ []) })

abbrev pub begun : Server → Life
begun s = record {
  server = s;
  accepted = 0;
  establishing = [];
  live = [];
  removing = [];
  destroying = [];
  destroyed = [];
}

pub data Reach (loop : ℕ) (ip_port name : List ℕ) : Life → Type 0 where
  here : Reach loop ip_port name (begun (fresh_server loop ip_port name))
  next : {s t : Life} → Reach loop ip_port name s → Step s t → Reach loop ip_port name t

abbrev pub one : List ℕ → Conn → ℕ
one n c = if same_text c.name n then 1 else 0

-- How many of the connections have the name.
abbrev pub count : List ℕ → List Conn → ℕ
count n [] = 0
count n (c ∷ cs) = one n c + count n cs

abbrev pub present : Option Conn → ℕ
present none = 0
present (some c) = 1

abbrev pub total : List ℕ → Life → ℕ
total n s =
    count n s.establishing
    + count n s.live
    + count n s.removing
    + count n s.destroying
    + count n s.destroyed
