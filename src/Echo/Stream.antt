-- ===== src/Echo/Stream.antt =====
-- src/testserver.cpp with src/TcpConnection.cpp: what comes in goes out.
use tcp_server.Base.{
  ℕ, ◌<◌, ◌≡◌, refl, sym, ap, subst, ◌∙◌, true, false, List, [], ◌∷◌, ◌++◌, append-nil,
  append_assoc, arith, ltb, lt→ltb, if_true, length,
}
use tcp_server.Buffer.{retrieve_all_as_string, Io, got, read_fd}
use tcp_server.Buffer.Layout.{contents, Fits}
use tcp_server.Buffer.Fifo.{retrieve_all_as_string_lem, read_fd_lem}
use tcp_server.Poller.{Epoll}
use tcp_server.Connection.{is_connected, Connection, connected, message}
use tcp_server.Connection.Invariant.{Good}
use tcp_server.Connection.Send.{send_in_loop, send, handle_write}
use tcp_server.Connection.Send.Stream.{Plausible, reports_broken, refused, send_in_loop-Good}
use tcp_server.Connection.Send.Drain.{handle_write-Good}
use tcp_server.Connection.Send.Sides.{send_in_loop-SameSide, handle_write-SameSide}
use tcp_server.Connection.Lifecycle.{after_read, handle_read}
use tcp_server.Echo.{on_message, echo_handlers}

-- What the loop's thread handles: bytes that arrive, with the kernel's answer to the write of the
-- echo, and write events.
pub data Event : Type 0 where
  arrives : List ℕ → (List ℕ → Io) → Event
  writable : (List ℕ → Io) → Event

module _ {k : Epoll} (on_close : Connection k → Connection k) where
  pub serve : Connection k → Event → Connection k
  serve c (arrives xs reply) = handle_read (echo_handlers reply on_close) c (got xs)
  serve c (writable kernel) = handle_write c kernel

  pub serve_all : Connection k → List Event → Connection k
  serve_all c [] = c
  serve_all c (e ∷ es) = serve_all (serve c e) es

  -- The bytes that came in.
  abbrev pub received : List Event → List ℕ
  received [] = []
  received (arrives xs reply ∷ es) = xs ++ received es
  received (writable kernel ∷ es) = received es

  -- Bytes come, they fit in memory, the kernel takes no more than it is offered, and the socket is
  -- not found broken.
  abbrev pub Allowed : Connection k → Event → Type 0
  Allowed c (arrives xs reply) =
      (0 < length xs)
      × Fits c.input (length xs)
      × Fits c.output (length xs)
      × Plausible (length xs) (reply xs)
      × (reports_broken (reply xs) ≡ false)
  Allowed c (writable kernel) = Plausible (length (contents c.output)) (kernel (contents c.output))

  abbrev pub AllAllowed : Connection k → List Event → Type 0
  AllAllowed c [] = Unit {0}
  AllAllowed c (e ∷ es) = Allowed c e × AllAllowed (serve c e) es

  -- A sound, established connection whose input the user has taken.
  pub record Echoing (s : List ℕ) (c : Connection k) : Type 0 where
    pub good : Good s c
    pub up : c.state ≡ connected
    pub taken : contents c.input ≡ []

  arrives-Echoing :
      {s : List ℕ} (c : Connection k) (xs : List ℕ) (reply : List ℕ → Io)
      → Echoing s c
      → Allowed c (arrives xs reply)
      → Echoing (s ++ xs) (serve c (arrives xs reply))
  unfolding serve handle_read after_read read_fd on_message echo_handlers send
  arrives-Echoing {s} c xs reply v h =
      let r = read_fd_lem c.input xs v.good.inv.input_valid h.1 in
      let b = (read_fd c.input (got xs)).1 in
      let t = retrieve_all_as_string_lem b r.2 in
      let whole : (retrieve_all_as_string b).0 ≡ xs =
        t.0 ∙ r.1 ∙ ap (λ (z : List ℕ). z ++ xs) v.taken in
      let d : Connection k = record c {
        input = (retrieve_all_as_string b).1;
        seen = c.seen ++ (message ∷ []);
      } in
      let good : Good s d = record {
        inv = record {
          input_valid = t.2;
          output_valid = v.good.inv.output_valid;
          mask = v.good.inv.mask;
          events = v.good.inv.events;
          flow = v.good.inv.flow;
          synced = v.good.inv.synced;
        };
        accepted = v.good.accepted;
      } in
      let fine : refused d (reply xs) ≡ false = ground (arith, v.up, h.4) in
      let side = send_in_loop-SameSide d xs (reply xs) in
      let sent : Good (s ++ xs) (send_in_loop d xs (reply xs)) =
        rw fine at (send_in_loop-Good d xs (reply xs) good h.2 h.3) in
      let eq : serve c (arrives xs reply) ≡ send_in_loop d xs (reply xs) =
        if_true (ltb 0 (length xs)) (on_message reply (record d { input = b })) _
          (lt→ltb 0 (length xs) h.0)
        ∙ ap (λ (m : List ℕ). send d true m (reply m)) whole
        ∙ if_true (is_connected c.state) (send_in_loop d xs (reply xs)) d (ap is_connected v.up) in
      subst (λ (z : Connection k). Echoing (s ++ xs) z) (sym eq)
        (record { good = sent; up = side.state ∙ v.up; taken = ap contents side.input ∙ t.1 })

  serve-Echoing :
      {s : List ℕ} (c : Connection k) (e : Event)
      → Echoing s c
      → Allowed c e
      → Echoing (s ++ received (e ∷ [])) (serve c e)
  unfolding serve
  serve-Echoing {s} c (arrives xs reply) v h =
      subst (λ (z : List ℕ). Echoing (s ++ z) (serve c (arrives xs reply))) (sym (append-nil xs))
        (arrives-Echoing c xs reply v h)
  serve-Echoing {s} c (writable kernel) v h =
      let side = handle_write-SameSide c kernel in
      rw (append-nil s) (record {
        good = handle_write-Good c kernel v.good h;
        up = side.state ∙ v.up;
        taken = ap contents side.input ∙ v.taken;
      })

  received_cons :
      (e : Event) (es : List Event) → received (e ∷ []) ++ received es ≡ received (e ∷ es)
  received_cons (arrives xs reply) es = ap (λ (z : List ℕ). z ++ received es) (append-nil xs)
  received_cons (writable kernel) es = refl

  -- The echo server sends back what it receives: on a sound, established connection whose input has
  -- been taken, whatever bytes arrive in whatever pieces, and whatever write events come between, if
  -- they fit in memory and the socket stays whole, what the socket took and what still waits behind
  -- it is what was there before and all the bytes that came in, in order and once each. The
  -- connection stays sound and established, and no input is left behind.
  pub echo :
      (s : List ℕ) (c : Connection k) (es : List Event)
      → Echoing s c
      → AllAllowed c es
      → Echoing (s ++ received es) (serve_all c es)
  unfolding serve_all
  echo s c [] v h = rw (append-nil s) v
  echo s c (e ∷ es) v h =
      subst (λ (z : List ℕ). Echoing z (serve_all (serve c e) es))
        (append_assoc s (received (e ∷ [])) (received es) ∙ ap (◌++◌ s) (received_cons e es))
        (echo (s ++ received (e ∷ [])) (serve c e) es (serve-Echoing c e v h.0) h.1)
