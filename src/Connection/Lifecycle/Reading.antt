-- ===== src/Connection/Lifecycle/Reading.antt =====
-- src/TcpConnection.cpp: what `handleRead` does with each answer of the socket.
use tcp_server.Base.{ℕ, ◌<◌, ◌≡◌, refl, ◌∙◌, List, [], ◌∷◌, ◌++◌, append-nil, lt→ltb, length}
use tcp_server.Buffer.{got, broken, read_fd}
use tcp_server.Buffer.Layout.{contents, Fits}
use tcp_server.Buffer.Fifo.{read_fd_lem}
use tcp_server.Poller.{Epoll}
use tcp_server.Connection.{Connection, Handlers, message}
use tcp_server.Connection.Invariant.{Inv, Good}
use tcp_server.Connection.Lifecycle.{handle_close, handle_error, after_read, handle_read}
use tcp_server.Connection.Lifecycle.Closing.{OnlyLooks}

module _ {k : Epoll} where
  -- Bytes, at least one, that arrive on a sound connection and fit in memory are behind those that
  -- the user has not taken, and the message callback runs once; if the callback does nothing
  -- itself, nothing that waits to be sent is touched and the connection stays sound.
  pub handle_read_bytes :
      {s : List ℕ} (h : Handlers k) (c : Connection k) (xs : List ℕ)
      → OnlyLooks h
      → Good s c
      → Fits c.input (length xs)
      → 0 < length xs
      → let d = handle_read h c (got xs) in
        Good s d
        × (contents d.input ≡ contents c.input ++ xs)
        × (d.seen ≡ c.seen ++ (message ∷ []))
        × (d.output ≡ c.output)
        × (d.state ≡ c.state)
  unfolding handle_read after_read
  handle_read_bytes h c xs o g f p =
      let r = read_fd_lem c.input xs g.inv.input_valid f in
      rw (r.0, lt→ltb 0 (length xs) p, o.message _)
        (
          record {
            inv = record {
              input_valid = r.2;
              output_valid = g.inv.output_valid;
              mask = g.inv.mask;
              events = g.inv.events;
              flow = g.inv.flow;
              synced = g.inv.synced;
            };
            accepted = g.accepted;
          },
          r.1,
          refl,
          refl,
          refl,
        )

  -- On a connection with its invariant, the end of the input closes the connection as `handleClose`
  -- does, with the input as it was, and an error leaves it as it was.
  pub handle_read_end :
      (h : Handlers k) (c : Connection k) (errno : ℕ)
      → Inv c
      → Fits c.input 0
      → (handle_read h c (got [])
          ≡ handle_close h (record c { input = (read_fd c.input (got [])).1 }))
        × (contents (read_fd c.input (got [])).1 ≡ contents c.input)
        × (handle_read h c (broken errno) ≡ c)
  unfolding handle_read after_read handle_error read_fd
  handle_read_end h c errno v f =
      let r = read_fd_lem c.input [] v.input_valid f in
      (refl, r.1 ∙ append-nil (contents c.input), refl)
