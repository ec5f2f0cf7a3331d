-- ===== src/Connection/Send/History.antt =====
-- src/TcpConnection.cpp: any sequence of sends, write events and half closes is one stream.
use tcp_server.Base.{
  ℕ, ◌≡◌, refl, sym, subst, inl, inr, Bool, true, false, not, ◌&&◌, List, [], ◌∷◌, ◌++◌, append-nil,
  append_assoc, if◌then◌else◌, Bool-cases, length,
}
use tcp_server.Buffer.{Io}
use tcp_server.Buffer.Layout.{contents, Fits}
use tcp_server.Poller.{Epoll}
use tcp_server.Connection.{is_connected, Connection}
use tcp_server.Connection.Invariant.{Good}
use tcp_server.Connection.Send.{send_in_loop, send, shutdown, handle_write}
use tcp_server.Connection.Send.Stream.{Plausible, refused, send_in_loop-Good}
use tcp_server.Connection.Send.Drain.{shutdown-Good, handle_write-Good}

pub data Call : Type 0 where
  sends : List ℕ → Io → Call
  writable : (List ℕ → Io) → Call
  half_closes : Call

either :
    (s bytes : List ℕ) (b : Bool)
    → (if b then s else s ++ bytes) ≡ s ++ (if true && not b then bytes else [])
either s bytes true = sym (append-nil s)
either s bytes false = refl

module _ {k : Epoll} where
  -- What the loop's thread does with a call or an event.
  pub perform : Connection k → Call → Connection k
  perform c (sends bytes reply) = send c true bytes reply
  perform c (writable kernel) = handle_write c kernel
  perform c half_closes = shutdown c true

  pub perform_all : Connection k → List Call → Connection k
  perform_all c [] = c
  perform_all c (x ∷ xs) = perform_all (perform c x) xs

  -- The bytes that a call adds to the stream: all of them while the connection is up and its socket
  -- is not found broken, and else none.
  abbrev pub adds : Connection k → Call → List ℕ
  adds c (sends bytes reply) = if is_connected c.state && not (refused c reply) then bytes else []
  adds c (writable kernel) = []
  adds c half_closes = []

  abbrev pub adds_all : Connection k → List Call → List ℕ
  adds_all c [] = []
  adds_all c (x ∷ xs) = adds c x ++ adds_all (perform c x) xs

  -- The kernel answers with what it can have done, and the output buffer fits in memory.
  abbrev pub Allowed : Connection k → Call → Type 0
  Allowed c (sends bytes reply) = Fits c.output (length bytes) × Plausible (length bytes) reply
  Allowed c (writable kernel) = Plausible (length (contents c.output)) (kernel (contents c.output))
  Allowed c half_closes = Unit {0}

  abbrev pub AllAllowed : Connection k → List Call → Type 0
  AllAllowed c [] = Unit {0}
  AllAllowed c (x ∷ xs) = Allowed c x × AllAllowed (perform c x) xs

  send-Good :
      {s : List ℕ} (c : Connection k) (bytes : List ℕ) (reply : Io)
      → Good s c
      → Allowed c (sends bytes reply)
      → Good (s ++ adds c (sends bytes reply)) (send c true bytes reply)
  unfolding send
  send-Good {s} c bytes reply g h = elim (Bool-cases (is_connected c.state)) [
    | inl up ↦ rw up (
        subst (λ (t : List ℕ). Good t (send_in_loop c bytes reply))
          (either s bytes (refused c reply)) (send_in_loop-Good c bytes reply g h.0 h.1))
    | inr down ↦ rw (down, append-nil s) g
  ]

  perform-Good :
      {s : List ℕ} (c : Connection k) (x : Call)
      → Good s c
      → Allowed c x
      → Good (s ++ adds c x) (perform c x)
  unfolding perform
  perform-Good c (sends bytes reply) g h = send-Good c bytes reply g h
  perform-Good {s} c (writable kernel) g h = rw (append-nil s) (handle_write-Good c kernel g h)
  perform-Good {s} c half_closes g h = rw (append-nil s) (shutdown-Good c true g)

  -- However sends and half closes by the loop's own thread and write events follow each other on a sound
  -- connection, and
  -- however the kernel cuts the bytes up, if it never takes more than it is offered and what has to
  -- wait fits in memory: what the socket took, with what still waits behind it, is what was
  -- accepted before and the accepted bytes of the sends, in the order of the sends, each once. The
  -- connection stays sound.
  pub perform_all-Good :
      (s : List ℕ) (c : Connection k) (xs : List Call)
      → Good s c
      → AllAllowed c xs
      → Good (s ++ adds_all c xs) (perform_all c xs)
  unfolding perform_all
  perform_all-Good s c [] g h = rw (append-nil s) g
  perform_all-Good s c (x ∷ xs) g h =
      rw (append_assoc s (adds c x) (adds_all (perform c x) xs)) at
        (perform_all-Good (s ++ adds c x) (perform c x) xs (perform-Good c x g h.0) h.1)
