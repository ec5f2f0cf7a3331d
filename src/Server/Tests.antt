-- ===== src/Server/Tests.antt =====
-- The theorems about the server at concrete values.
use tcp_server.Base.{suc, false, ℕ, ◌+◌, ◌≡◌, ◌≢◌, some, List, [], ◌∷◌, ◌++◌, length, arith}
use tcp_server.LoopPool.{get_next_loop}
use tcp_server.Server.{
  establish, set_thread_num, start, Conn, Server, find, fresh_server, conn_name, new_connection,
  remove_connection,
}
use tcp_server.Server.Life.{Life, conn_of}
use tcp_server.Server.Names.{IsFresh, fresh_server-IsFresh, new_connection_lem}

abbrev echo : Server
echo = fresh_server 9 (49 ∷ []) (101 ∷ [])

echo-IsFresh : IsFresh echo
echo-IsFresh = fresh_server-IsFresh 9 (49 ∷ []) (101 ∷ [])

new_connection_lem_example :
    let t = new_connection 7 echo in
    let key = conn_name echo echo.next_conn_id in
    let io_loop = (get_next_loop echo.pool).0 in
    (find key t.connections ≡ some (record { name = key; sockfd = 7; io_loop = io_loop }))
    × ((j : List ℕ) → j ≢ key → find j t.connections ≡ find j echo.connections)
    × (length t.connections ≡ length echo.connections + 1)
    × (t.posted ≡ echo.posted ++ ((io_loop, establish key) ∷ []))
    × IsFresh t
unfolding fresh_server
new_connection_lem_example = new_connection_lem 7 echo (omega arith) echo-IsFresh

-- The server with two threads, started; the pool's loops are 1 and 2.
abbrev running : Server
running = start suc false (set_thread_num 2 echo)

abbrev first_up : Conn
first_up = conn_of 7 running

-- One connection, which came, was up, has closed, and is to be removed.
abbrev closing : Life
closing = record {
  server = remove_connection first_up (new_connection 7 running);
  accepted = 1;
  establishing = [];
  live = [];
  removing = first_up ∷ [];
  destroying = [];
  destroyed = [];
}
