-- ===== src/Connection/Send.antt =====
-- src/TcpConnection.cpp: sending, the write event, and the half close.
pub mod Stream
pub mod Drain
pub mod History
pub mod Notes
pub mod Shut
pub mod Progress
pub mod Sides
use tcp_server.Base.{
  ℕ, Bool, true, false, not, ◌&&◌, List, ◌++◌, ltb, leb, ◌==◌, if◌then◌else◌, length, take, drop,
  add_size, sub_size,
}
use tcp_server.Buffer.{readable_bytes, peek, retrieve, append, Io, count, fail, write_fd}
use tcp_server.Channel.{is_writing, writing, no_writing}
use tcp_server.Poller.{Epoll}
use tcp_server.Connection.{
  is_connected, is_disconnected, is_fault, write_complete, high_water, send_later, shutdown_later,
  Connection, wish, queue_in_loop, disconnected,
}

-- `size_t remaining`, `ssize_t nwrote` and `faultError` after the direct write.
pub record Attempt (k : Epoll) : Type 0 where
  pub conn : Connection k
  pub nwrote : ℕ
  pub remaining : ℕ
  pub fault : Bool

module _ {k : Epoll} where
  unfoldable pub took_all : ℕ → Connection k → Connection k
  took_all remaining c =
      if remaining == 0 && c.has_write_complete then queue_in_loop write_complete c else c

  unfoldable pub wrote_some : Connection k → List ℕ → Io → Attempt k
  wrote_some c bytes (count n) = record {
    conn = took_all (sub_size (length bytes) n) (record c { wire = c.wire ++ take n bytes });
    nwrote = n;
    remaining = sub_size (length bytes) n;
    fault = false;
  }
  wrote_some c bytes (fail errno) = record {
    conn = c;
    nwrote = 0;
    remaining = length bytes;
    fault = is_fault errno;
  }

  unfoldable pub can_write : Connection k → Bool
  can_write c = not (is_writing c.channel) && readable_bytes c.output == 0

  unfoldable pub attempt : Connection k → List ℕ → Io → Attempt k
  attempt c bytes reply =
      if can_write c
      then wrote_some c bytes reply
      else record { conn = c; nwrote = 0; remaining = length bytes; fault = false }

  -- The test for the high-water mark.
  unfoldable pub crosses : Connection k → ℕ → Bool
  crosses c remaining =
      leb c.high_water_mark (add_size (readable_bytes c.output) remaining)
      && ltb (readable_bytes c.output) c.high_water_mark
      && not (c.high_water_mark == 0)

  unfoldable pub warn_high : ℕ → Connection k → Connection k
  warn_high remaining c =
      if crosses c remaining
      then queue_in_loop
          (high_water c.has_high_water (add_size (readable_bytes c.output) remaining)) c
      else c

  unfoldable pub keep_rest : List ℕ → ℕ → Connection k → Connection k
  keep_rest rest remaining c = record c { output = append c.output (take remaining rest) }

  unfoldable pub watch_write : Connection k → Connection k
  watch_write c = if not (is_writing c.channel) then wish writing c else c

  unfoldable pub finish : List ℕ → Attempt k → Connection k
  finish bytes a =
      if not a.fault && ltb 0 a.remaining
      then watch_write (keep_rest (drop a.nwrote bytes) a.remaining (warn_high a.remaining a.conn))
      else a.conn

  -- `sendInLoop`; `reply` is what `write` gives if it is called.
  unfoldable pub send_in_loop : Connection k → List ℕ → Io → Connection k
  send_in_loop c bytes reply =
      if is_disconnected c.state then c else finish bytes (attempt c bytes reply)

  -- `send`, called in the loop's thread or in another one.
  unfoldable pub send : Connection k → Bool → List ℕ → Io → Connection k
  send c here bytes reply =
      if is_connected c.state
      then (if here then send_in_loop c bytes reply else queue_in_loop (send_later bytes) c)
      else c

  unfoldable pub shutdown_in_loop : Connection k → Connection k
  shutdown_in_loop c = if not (is_writing c.channel) then record c { write_shut = true } else c

  unfoldable pub shutdown : Connection k → Bool → Connection k
  shutdown c here =
      if is_connected c.state
      then (let d : Connection k = record c { state = disconnected } in
          if here then shutdown_in_loop d else queue_in_loop shutdown_later d)
      else c

  -- Nothing is left to send: stop watching, tell the user, and shut down if that was asked for.
  unfoldable pub drained : Connection k → Connection k
  drained c =
      let d = wish no_writing c in
      let e = if d.has_write_complete then queue_in_loop write_complete d else d in
      if is_disconnected e.state then shutdown_in_loop e else e

  unfoldable pub sent : Connection k → ℕ → Connection k
  sent c n =
      let d : Connection k = record c {
        wire = c.wire ++ take n (peek c.output (readable_bytes c.output));
        output = retrieve c.output n;
      } in
      if readable_bytes d.output == 0 then drained d else d

  unfoldable pub after_write : Connection k → Io → Connection k
  after_write c (count n) = if ltb 0 n then sent c n else c
  after_write c (fail errno) = c

  -- `handleWrite`
  unfoldable pub handle_write : Connection k → (List ℕ → Io) → Connection k
  handle_write c kernel =
      if is_writing c.channel then after_write c (write_fd c.output kernel) else c
