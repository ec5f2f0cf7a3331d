-- ===== src/Server/Once.antt =====
-- src/TcpServer.cpp: what the server's map has to do with where its connections are.
use tcp_server.Server.{Server, find, conn_name}
use tcp_server.Server.Life.{Life, count, present, total}
use tcp_server.Base.{◌^◌, ◌<◌, ℕ, ◌+◌, ◌≤◌, ◌≡◌, List}

-- What holds between two steps.
record Inv (s : Life) : Type 0 where
  counted : s.server.next_conn_id ≡ s.accepted + 1
  once : (n : List ℕ) → total n s ≤ 1
  unborn : (i : ℕ) → s.server.next_conn_id ≤ i → i < 2 ^ 31 → total (conn_name s.server i) s ≡ 0
  mapped :
      (n : List ℕ)
      → present (find n s.server.connections)
        ≡ count n s.establishing + count n s.live + count n s.removing
