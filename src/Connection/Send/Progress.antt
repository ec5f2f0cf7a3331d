-- ===== src/Connection/Send/Progress.antt =====
-- src/TcpConnection.cpp: the write events bring every waiting byte to the socket.
use tcp_server.Base.{
  ℕ, ◌-◌, ◌≤◌, ◌<◌, ◌≡◌, refl, ap, ◌∙◌, inl, inr, true, false, List, [], ◌∷◌, ◌++◌, arith, ◌==◌,
  lt→ltb, Bool-cases, length, take, length-drop,
}
use tcp_server.Buffer.{readable_bytes, retrieve, Io, count}
use tcp_server.Buffer.Layout.{contents, length-contents, peek_all, retrieve-IsValid}
use tcp_server.Buffer.Fifo.{contents-retrieve, write_fd_lem}
use tcp_server.Channel.{is_writing}
use tcp_server.Channel.Masks.{Mask, bits, is_writing_lem, idle, reads, writes, both}
use tcp_server.Poller.{Epoll}
use tcp_server.Connection.{Connection}
use tcp_server.Connection.Invariant.{Flow, Good}
use tcp_server.Connection.Send.{sent, after_write, handle_write}
use tcp_server.Connection.Send.Drain.{handle_write-Good}
use tcp_server.Connection.Send.Shut.{last_write_lem}

-- A kernel that takes something of whatever it is offered.
abbrev pub Takes : (List ℕ → Io) → Type 0
Takes kernel =
    (xs : List ℕ) → 0 < length xs → (m : ℕ) × (kernel xs ≡ count m) × (0 < m) × (m ≤ length xs)

abbrev pub AllTake : List (List ℕ → Io) → Type 0
AllTake [] = Unit {0}
AllTake (kernel ∷ ks) = Takes kernel × AllTake ks

module _ {k : Epoll} where
  -- One write event after another, each with what the kernel does on it.
  pub write_events : Connection k → List (List ℕ → Io) → Connection k
  write_events c [] = c
  write_events c (kernel ∷ ks) = write_events (handle_write c kernel) ks

  -- The connection after `m` of its waiting bytes have gone.
  part_gone : Connection k → ℕ → Connection k
  part_gone c m = record c {
    wire = c.wire ++ take m (contents c.output);
    output = retrieve c.output m;
  }

  part_written :
      {s : List ℕ} (c : Connection k) (kernel : List ℕ → Io) (m : ℕ)
      → Good s c
      → is_writing c.channel ≡ true
      → 0 < m
      → m < length (contents c.output)
      → kernel (contents c.output) ≡ count m
      → handle_write c kernel ≡ part_gone c m
  unfolding handle_write after_write sent part_gone
  part_written c kernel m g w p q e =
      let valid = retrieve-IsValid c.output m g.inv.output_valid in
      let some_left : (readable_bytes (retrieve c.output m) == 0) ≡ false = ground (
        arith,
        length-contents (retrieve c.output m) valid,
        ap length (contents-retrieve c.output m g.inv.output_valid),
        length-drop m (contents c.output),
      ) in
      rw (
        w,
        write_fd_lem c.output kernel g.inv.output_valid,
        e,
        lt→ltb 0 m p,
        some_left,
        peek_all c.output g.inv.output_valid,
      )

  still :
      (c : Connection k) (ks : List (List ℕ → Io))
      → is_writing c.channel ≡ false
      → write_events c ks ≡ c
  unfolding write_events handle_write
  still c [] w = refl
  still c (kernel ∷ ks) w = rw w (still c ks w)

  some_wait :
      {s : List ℕ} (c : Connection k)
      → Good s c
      → is_writing c.channel ≡ true
      → 0 < length (contents c.output)
  some_wait c g w = by_mask g.inv.mask g.inv.events g.inv.flow
    where
      by_mask :
          (m : Mask)
          → c.channel.events ≡ bits m
          → Flow m (readable_bytes c.output)
          → 0 < length (contents c.output)
      by_mask idle x f = cc (is_writing_lem c.channel idle x)
      by_mask reads x f = cc (is_writing_lem c.channel reads x)
      by_mask writes x f = omega (arith, length-contents c.output g.inv.output_valid)
      by_mask both x f = omega (arith, length-contents c.output g.inv.output_valid)

  -- On a sound connection that waits for write events, if the kernel takes something at each of
  -- them, then after as many events as bytes wait, at the latest, the socket has taken all that was
  -- accepted, and the connection has stopped asking for write events.
  pub write_events-drain :
      {s : List ℕ} (c : Connection k) (ks : List (List ℕ → Io))
      → Good s c
      → is_writing c.channel ≡ true
      → AllTake ks
      → length (contents c.output) ≤ length ks
      → ((write_events c ks).wire ≡ s) × (is_writing (write_events c ks).channel ≡ false)
  unfolding write_events part_gone
  write_events-drain c [] g w t h = ground (arith, some_wait c g w)
  write_events-drain {s} c (kernel ∷ ks) g w t h =
      let p = some_wait c g w in
      let (m, e, q, r) = t.0 (contents c.output) p in
      elim (Bool-cases (m == length (contents c.output))) [
        | inl all ↦
            let last = last_write_lem c kernel g w p (e ∙ ap count (ground arith)) in
            rw (still (handle_write c kernel) ks last.1) (last.0, last.1)
        | inr part ↦
            let eq = part_written c kernel m g w q (ground arith) e in
            let left : length (contents (handle_write c kernel).output)
                ≡ length (contents c.output) - m =
              ap (λ (d : Connection k). length (contents d.output)) eq
              ∙ ap length (contents-retrieve c.output m g.inv.output_valid)
              ∙ length-drop m (contents c.output) in
            write_events-drain (handle_write c kernel) ks (handle_write-Good c kernel g (rw e r))
              (ap (λ (d : Connection k). is_writing d.channel) eq ∙ w) t.1 (omega arith)
      ]
