-- ===== src/Echo.antt =====
-- src/testserver.cpp: the echo server, which puts the parts together: what it does with a message,
-- and the server that it starts. Its log lines are left out.
pub mod Stream
mod Tests
use tcp_server.Base.{ℕ, true, false, List}
use tcp_server.Buffer.{retrieve_all_as_string, Io}
use tcp_server.Poller.{Epoll}
use tcp_server.Connection.{Connection, Handlers}
use tcp_server.Connection.Send.{send}
use tcp_server.Server.{Server, fresh_server, set_thread_num, start}

-- The callback for readable data: all that the input buffer holds is sent back. `reply` is what the
-- kernel gives to a `write` of some bytes.
module _ {k : Epoll} where
  unfoldable pub on_message : (List ℕ → Io) → Connection k → Connection k
  on_message reply c =
      let (msg, b) = retrieve_all_as_string c.input in
      send (record c { input = b }) true msg (reply msg)

  -- The callback for a connection that came up or went down, which only logs.
  unfoldable pub on_connection : Connection k → Connection k
  on_connection c = c

  -- The callbacks of a connection of the echo server; the server's own close callback is `on_close`.
  unfoldable pub echo_handlers : (List ℕ → Io) → (Connection k → Connection k) → Handlers k
  echo_handlers reply on_close = record {
    on_connection = on_connection;
    on_message = on_message reply;
    on_close = on_close;
    on_write_complete = λ c. c;
    on_high_water = λ n c. c;
  }

pub record EchoServer : Type 0 where
  pub server : Server
  pub loop : ℕ

-- The constructor; the callbacks are `echo_handlers`.
unfoldable pub new_echo_server : ℕ → List ℕ → List ℕ → EchoServer
new_echo_server loop ip_port name = record {
  server = set_thread_num 3 (fresh_server loop ip_port name);
  loop = loop;
}

unfoldable pub start_echo : (ℕ → ℕ) → EchoServer → EchoServer
start_echo start_loop e = record e { server = start start_loop false e.server }
