-- ===== src/Connection/Send/Drain.antt =====
-- src/TcpConnection.cpp: the write event moves bytes from the output buffer to the socket, and the
-- whole of a connection's sending is one stream.
use tcp_server.Base.{
  ℕ, ◌≤◌, ◌<◌, ◌≡◌, refl, sym, ap, ◌∙◌, inl, inr, Bool, true, false, List, [], ◌∷◌, ◌++◌,
  append_assoc, arith, ltb, ◌==◌, if◌then◌else◌, Bool-cases, length, take, drop, take-append-drop,
}
use tcp_server.Buffer.{readable_bytes, peek, retrieve, Io, count, fail}
use tcp_server.Buffer.Layout.{IsValid, contents, peek_all, retrieve-IsValid}
use tcp_server.Buffer.Fifo.{contents-retrieve, write_fd_lem}
use tcp_server.Channel.{is_writing, no_writing}
use tcp_server.Channel.Masks.{
  Mask, bits, wants_write, switched, is_writing_lem, idle, reads, writes, both,
}
use tcp_server.Poller.{Epoll}
use tcp_server.Poller.Sync.{Synced}
use tcp_server.Connection.{
  is_connected, is_disconnected, write_complete, shutdown_later, Connection, wish, queue_in_loop,
  disconnected,
}
use tcp_server.Connection.Invariant.{Flow, stream, wish-Wished, Good, Good-queued, Wished-Good}
use tcp_server.Connection.Send.{
  shutdown_in_loop, shutdown, drained, sent, after_write, handle_write,
}
use tcp_server.Connection.Send.Stream.{Plausible}

module _ {k : Epoll} where
  queue_if-Good :
      {s : List ℕ} (b : Bool) (c : Connection k)
      → Good s c
      → Good s (if b then queue_in_loop write_complete c else c)
        × ((if b then queue_in_loop write_complete c else c).channel ≡ c.channel)
  unfolding queue_in_loop
  queue_if-Good true c g = (Good-queued c _ g, refl)
  queue_if-Good false c g = (g, refl)

  -- The half close changes neither the stream nor what is watched.
  pub shutdown_in_loop-Good :
      {s : List ℕ} (c : Connection k) → Good s c → Good s (shutdown_in_loop c)
  unfolding shutdown_in_loop
  shutdown_in_loop-Good c g = elim (Bool-cases (is_writing c.channel)) [
    | inl e ↦ rw e g
    | inr e ↦ rw e (record {
      inv = record {
        input_valid = g.inv.input_valid;
        output_valid = g.inv.output_valid;
        mask = g.inv.mask;
        events = g.inv.events;
        flow = g.inv.flow;
        synced = g.inv.synced;
      };
      accepted = g.accepted;
    })
  ]

  pub shutdown-Good :
      {s : List ℕ} (c : Connection k) (here : Bool) → Good s c → Good s (shutdown c here)
  unfolding shutdown queue_in_loop
  shutdown-Good {s} c here g = elim (Bool-cases (is_connected c.state)) [
    | inl e ↦ rw e (by_thread here)
    | inr e ↦ rw e g
  ]
    where
      d : Connection k
      d = record c { state = disconnected }

      gd : Good s d
      gd = record {
        inv = record {
          input_valid = g.inv.input_valid;
          output_valid = g.inv.output_valid;
          mask = g.inv.mask;
          events = g.inv.events;
          flow = g.inv.flow;
          synced = g.inv.synced;
        };
        accepted = g.accepted;
      }

      by_thread :
          (b : Bool) → Good s (if b then shutdown_in_loop d else queue_in_loop shutdown_later d)
      by_thread true = shutdown_in_loop-Good d gd
      by_thread false = Good-queued d (c.queued ++ (shutdown_later ∷ [])) gd

  -- A sound connection but for its write event, which is still wanted though nothing waits.
  drained-Good :
      {s : List ℕ} (c : Connection k) (m : Mask)
      → c.channel.events ≡ bits m
      → Synced c.poller c.channel
      → IsValid c.input
      → IsValid c.output
      → readable_bytes c.output ≡ 0
      → stream c ≡ s
      → Good s (drained c)
  unfolding drained
  drained-Good {s} c m e y i o z a =
      let w : Good s (wish no_writing c) =
        Wished-Good no_writing m c _ (wish-Wished no_writing m c e y) i o (by_mask m) a in
      let q = (queue_if-Good (wish no_writing c).has_write_complete (wish no_writing c) w).0 in
      shut_if (is_disconnected _) q
    where
      shut_if :
          {e : Connection k} (b : Bool) → Good s e → Good s (if b then shutdown_in_loop e else e)
      shut_if {e} true q = shutdown_in_loop-Good e q
      shut_if false q = q

      by_mask : (m : Mask) → Flow (switched no_writing m) (readable_bytes c.output)
      by_mask idle = tt
      by_mask reads = z
      by_mask writes = tt
      by_mask both = z

  sent-Good :
      {s : List ℕ} (c : Connection k) (n : ℕ)
      → Good s c
      → is_writing c.channel ≡ true
      → n ≤ length (contents c.output)
      → Good s (sent c n)
  unfolding sent
  sent-Good {s} c n g w h = elim (Bool-cases (readable_bytes (retrieve c.output n) == 0)) [
    | inl none_left ↦ rw none_left (
        drained-Good d g.inv.mask g.inv.events g.inv.synced g.inv.input_valid valid (ground arith)
          moved)
    | inr some_left ↦ rw some_left (record {
      inv = record {
        input_valid = g.inv.input_valid;
        output_valid = valid;
        mask = g.inv.mask;
        events = g.inv.events;
        flow =
            by_mask g.inv.mask (sym (is_writing_lem c.channel g.inv.mask g.inv.events) ∙ w)
              (ground arith);
        synced = g.inv.synced;
      };
      accepted = moved;
    })
  ]
    where
      d : Connection k
      d = record c {
        wire = c.wire ++ take n (peek c.output (readable_bytes c.output));
        output = retrieve c.output n;
      }

      valid : IsValid d.output
      valid = retrieve-IsValid c.output n g.inv.output_valid

      moved : stream d ≡ s
      moved =
          rw (peek_all c.output g.inv.output_valid, contents-retrieve c.output n g.inv.output_valid)
            (append_assoc c.wire (take n (contents c.output)) (drop n (contents c.output))
              ∙ ap (◌++◌ c.wire) (take-append-drop n (contents c.output))
              ∙ g.accepted)

      by_mask :
          (m : Mask)
          → wants_write m ≡ true
          → 0 < readable_bytes d.output
          → Flow m (readable_bytes d.output)
      by_mask idle e p = tt
      by_mask reads e p = cc
      by_mask writes e p = p
      by_mask both e p = p

  after_write-Good :
      {s : List ℕ} (c : Connection k) (reply : Io)
      → Good s c
      → is_writing c.channel ≡ true
      → Plausible (length (contents c.output)) reply
      → Good s (after_write c reply)
  unfolding after_write
  after_write-Good c (fail errno) g w h = g
  after_write-Good c (count n) g w h = elim (Bool-cases (ltb 0 n)) [
    | inl e ↦ rw e (sent-Good c n g w h)
    | inr e ↦ rw e g
  ]

  -- `handleWrite` on a sound connection leaves a sound one with the same stream, whatever part of
  -- the waiting bytes the kernel takes, if it takes no more than it is offered.
  pub handle_write-Good :
      {s : List ℕ} (c : Connection k) (kernel : List ℕ → Io)
      → Good s c
      → Plausible (length (contents c.output)) (kernel (contents c.output))
      → Good s (handle_write c kernel)
  unfolding handle_write
  handle_write-Good c kernel g h = elim (Bool-cases (is_writing c.channel)) [
    | inl e ↦
        rw (e, write_fd_lem c.output kernel g.inv.output_valid)
          (after_write-Good c (kernel (contents c.output)) g e h)
    | inr e ↦ rw e g
  ]
