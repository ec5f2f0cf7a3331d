-- ===== src/Connection/Lifecycle.antt =====
-- src/TcpConnection.cpp: establishing and closing a connection, reading, and the queued functors.
pub mod Closing
pub mod Reading
pub mod Tasks
use tcp_server.Base.{ℕ, Option, none, some, List, [], ◌∷◌, ◌++◌, ltb, if◌then◌else◌}
use tcp_server.Buffer.{Io, count, fail, Arrival, read_fd}
use tcp_server.Channel.{tie, reading, nothing}
use tcp_server.Poller.{Epoll, remove_channel}
use tcp_server.Connection.{
  is_connected, Task, write_complete, high_water, send_later, shutdown_later, send_file_later,
  connection, above_mark, Connection, Handlers, wish, disconnected, connected, message, closed,
  wrote,
}
use tcp_server.Connection.Send.{send_in_loop, shutdown_in_loop}
use tcp_server.Connection.File.{send_file_in_loop}

module _ {k : Epoll} (h : Handlers k) where
  unfoldable pub tell : Connection k → Connection k
  tell c = h.on_connection (record c { seen = c.seen ++ (connection (is_connected c.state) ∷ []) })

  unfoldable pub connect_established : Connection k → Connection k
  connect_established c =
      tell (wish reading (record c { state = connected; channel = tie c.channel }))

  unfoldable pub remove : Connection k → Connection k
  remove c =
      let (p, ch) = remove_channel c.poller c.channel in record c { poller = p; channel = ch }

  unfoldable pub connect_destroyed : Connection k → Connection k
  connect_destroyed c =
      remove (
        if is_connected c.state then tell (wish nothing (record c { state = disconnected })) else c)

  -- `handleClose`: it does not change `state_`.
  unfoldable pub handle_close : Connection k → Connection k
  handle_close c =
      let d = tell (wish nothing c) in h.on_close (record d { seen = d.seen ++ (closed ∷ []) })

  -- `handleError` reads the socket's error and logs it.
  unfoldable pub handle_error : Connection k → Connection k
  handle_error c = c

  unfoldable pub after_read : Connection k → Io → Connection k
  after_read c (count n) =
      if ltb 0 n
      then h.on_message (record c { seen = c.seen ++ (message ∷ []) })
      else handle_close c
  after_read c (fail errno) = handle_error c

  unfoldable pub handle_read : Connection k → Arrival → Connection k
  handle_read c arrival =
      let (n, b) = read_fd c.input arrival in after_read (record c { input = b }) n

  -- What the loop does with a functor of the queue; `none` is the exception of an empty
  -- `std::function`.
  unfoldable pub run_task : Connection k → List ℕ → Task → Io → Option (Connection k)
  run_task c file write_complete reply =
      some (h.on_write_complete (record c { seen = c.seen ++ (wrote ∷ []) }))
  run_task c file (high_water is_set n) reply =
      if is_set
      then some (h.on_high_water n (record c { seen = c.seen ++ (above_mark n ∷ []) }))
      else none
  run_task c file (send_later bytes) reply = some (send_in_loop c bytes reply)
  run_task c file shutdown_later reply = some (shutdown_in_loop c)
  run_task c file (send_file_later fd offset n) reply =
      some (send_file_in_loop c file fd offset n reply)
