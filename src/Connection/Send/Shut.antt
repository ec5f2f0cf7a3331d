-- ===== src/Connection/Send/Shut.antt =====
-- src/TcpConnection.cpp: `shutdown` closes the writing side after the last waiting byte, and the
-- write events bring every waiting byte to the socket.
use tcp_server.Base.{
  ℕ, ◌<◌, ◌≡◌, refl, ap, ◌∙◌, true, false, ◌||◌, List, ◌++◌, arith, ◌==◌, lt→ltb, length,
  length-drop, take_all,
}
use tcp_server.Buffer.{readable_bytes, retrieve, Io, count}
use tcp_server.Buffer.Layout.{contents, length-contents, peek_all, retrieve-IsValid}
use tcp_server.Buffer.Fifo.{contents-retrieve, write_fd_lem}
use tcp_server.Channel.{is_writing, is_reading, no_writing}
use tcp_server.Channel.Masks.{
  Mask, bits, wants_write, switched, is_writing_lem, is_reading_lem, idle, reads, writes, both,
}
use tcp_server.Poller.{Epoll}
use tcp_server.Poller.Sync.{Synced}
use tcp_server.Connection.{
  is_disconnected, Connection, wish, queue_in_loop, disconnected, connected,
}
use tcp_server.Connection.Invariant.{Flow, wish-Wished, Good}
use tcp_server.Connection.Send.{
  shutdown_in_loop, shutdown, drained, sent, after_write, handle_write,
}

module _ {k : Epoll} where
  -- `shutdown` in the loop's thread, on a sound and established connection that waits for input and
  -- whose writing side is open: the connection counts as down at once, no byte moves, and the
  -- socket's writing side is closed now exactly if no byte waits.
  pub shutdown_lem :
      {s : List ℕ} (c : Connection k)
      → Good s c
      → c.state ≡ connected
      → c.write_shut ≡ false
      → is_reading c.channel ≡ true
      → let d = shutdown c true in
        (d.state ≡ disconnected)
        × (d.wire ≡ c.wire)
        × (d.output ≡ c.output)
        × (d.write_shut ≡ (readable_bytes c.output == 0))
  unfolding shutdown shutdown_in_loop
  shutdown_lem c g e o r = by_mask g.inv.mask g.inv.events g.inv.flow
    where
      by_mask :
          (m : Mask)
          → c.channel.events ≡ bits m
          → Flow m (readable_bytes c.output)
          → let d = shutdown c true in
            (d.state ≡ disconnected)
            × (d.wire ≡ c.wire)
            × (d.output ≡ c.output)
            × (d.write_shut ≡ (readable_bytes c.output == 0))
      by_mask idle x f = cc (is_reading_lem c.channel idle x)
      by_mask reads x f = rw (e, is_writing_lem c.channel reads x) (refl, refl, refl, rw f)
      by_mask writes x f = cc (is_reading_lem c.channel writes x)
      by_mask both x f =
          rw (e, is_writing_lem c.channel both x) (refl, refl, refl, o ∙ ground arith)

  drained_lem :
      (c : Connection k) (m : Mask)
      → c.channel.events ≡ bits m
      → Synced c.poller c.channel
      → let d = drained c in
        (d.wire ≡ c.wire)
        × (is_writing d.channel ≡ false)
        × (d.write_shut ≡ (is_disconnected c.state || c.write_shut))
        × (d.output ≡ c.output)
  unfolding drained queue_in_loop shutdown_in_loop
  drained_lem c m e y =
      let w = wish-Wished no_writing m c e y in
      let still : is_writing (wish no_writing c).channel ≡ false =
        is_writing_lem (wish no_writing c).channel (switched no_writing m) w.events ∙ by_mask m in
      ground (arith, w.same.wire, w.same.state, w.same.shut, w.same.output, still)
    where
      by_mask : (n : Mask) → wants_write (switched no_writing n) ≡ false
      by_mask idle = refl
      by_mask reads = refl
      by_mask writes = refl
      by_mask both = refl

  -- The connection after its last waiting byte has gone.
  unfoldable pub emptied : Connection k → Connection k
  emptied c = record c {
    wire = c.wire ++ contents c.output;
    output = retrieve c.output (length (contents c.output));
  }

  pub all_written :
      {s : List ℕ} (c : Connection k) (kernel : List ℕ → Io)
      → Good s c
      → is_writing c.channel ≡ true
      → 0 < length (contents c.output)
      → kernel (contents c.output) ≡ count (length (contents c.output))
      → handle_write c kernel ≡ drained (emptied c)
  unfolding handle_write after_write sent emptied
  all_written c kernel g w p e =
      let b = c.output in
      let valid = retrieve-IsValid c.output (length (contents c.output)) g.inv.output_valid in
      let none_left : (readable_bytes (retrieve c.output (length (contents c.output))) == 0)
          ≡ true =
        ground (
          arith,
          length-contents (retrieve c.output (length (contents c.output))) valid,
          ap length (contents-retrieve c.output (length (contents c.output)) g.inv.output_valid),
          length-drop (length (contents c.output)) (contents c.output),
        ) in
      rw (
        w,
        write_fd_lem c.output kernel g.inv.output_valid,
        e,
        lt→ltb 0 (length (contents c.output)) p,
        none_left,
        peek_all c.output g.inv.output_valid,
        take_all (length (contents c.output)) (contents c.output) (omega arith),
      )

  -- On a sound connection that waits for write events, the event at which the kernel takes all that
  -- waits, which is at least one byte, leaves the whole stream on the wire, stops the watch for
  -- writing, and closes the writing side if `shutdown` was called before.
  pub last_write_lem :
      {s : List ℕ} (c : Connection k) (kernel : List ℕ → Io)
      → Good s c
      → is_writing c.channel ≡ true
      → 0 < length (contents c.output)
      → kernel (contents c.output) ≡ count (length (contents c.output))
      → let d = handle_write c kernel in
        (d.wire ≡ s)
        × (is_writing d.channel ≡ false)
        × (d.write_shut ≡ (is_disconnected c.state || c.write_shut))
  unfolding emptied
  last_write_lem {s} c kernel g w p e =
      let d = drained_lem (emptied c) g.inv.mask g.inv.events g.inv.synced in
      rw (all_written c kernel g w p e) (d.0 ∙ g.accepted, d.1, d.2)
