-- ===== src/Connection/File.antt =====
-- src/TcpConnection.cpp: `sendFile`.
pub mod Requeue
use tcp_server.Base.{
  ℕ, ◌+◌, Bool, not, ◌&&◌, ◌||◌, List, ◌++◌, ltb, ◌==◌, if◌then◌else◌, take, drop, sub_size,
}
use tcp_server.Buffer.{Io, count, fail}
use tcp_server.Poller.{Epoll}
use tcp_server.Connection.{
  is_connected, is_disconnected, epipe, econnreset, send_file_later, Connection, queue_in_loop,
}
use tcp_server.Connection.Send.{took_all, can_write}

module _ {k : Epoll} where
  -- `sendFileInLoop`: `file` is what the descriptor `fd` reads.
  unfoldable pub file_attempt : Connection k → List ℕ → ℕ → ℕ → ℕ → Io → Connection k
  file_attempt c file fd offset n (count sent_bytes) =
      let remaining = sub_size n sent_bytes in
      let d : Connection k =
        took_all remaining (record c { wire = c.wire ++ take sent_bytes (drop offset file) }) in
      if ltb 0 remaining then queue_in_loop (send_file_later fd (offset + sent_bytes) n) d else d
  file_attempt c file fd offset n (fail errno) =
      if not (errno == epipe || errno == econnreset) && ltb 0 n
      then queue_in_loop (send_file_later fd offset n) c
      else c

  unfoldable pub send_file_in_loop : Connection k → List ℕ → ℕ → ℕ → ℕ → Io → Connection k
  send_file_in_loop c file fd offset n reply =
      if is_disconnected c.state
      then c
      else if can_write c
      then file_attempt c file fd offset n reply
      else if ltb 0 n
      then queue_in_loop (send_file_later fd offset n) c
      else c

  -- `sendFile`
  unfoldable pub send_file : Connection k → Bool → List ℕ → ℕ → ℕ → ℕ → Io → Connection k
  send_file c here file fd offset n reply =
      if is_connected c.state
      then (if here
          then send_file_in_loop c file fd offset n reply
          else queue_in_loop (send_file_later fd offset n) c)
      else c
