-- ===== src/Acceptor/Life.antt =====
-- src/Acceptor.cpp: what the listening socket is for the poller from `listen` to the destructor, and what
-- becomes of the sockets that it accepts.
use tcp_server.Acceptor.{
  Acceptor, new_acceptor, set_new_connection_callback, start_listening, hand_on, handle_read,
  end_acceptor,
}
use tcp_server.Net.{SockAddr, close_socket, accept}
use tcp_server.Poller.{Epoll, Poller}
use tcp_server.Poller.Lives.{Unused, Watched, fresh-Watched, Gone, Watched-Gone}
use tcp_server.Base.{
  ℕ, ◌+◌, ◌≡◌, refl, sym, subst, ◌∙◌, Bool, true, Option, none, some, List, [], ◌∷◌, ◌++◌,
  append-nil, append_assoc, arith, if_true,
}

-- The sockets of the connections that came, in order, without the failures.
abbrev pub came : List (Option (ℕ × SockAddr)) → List (ℕ × SockAddr)
came [] = []
came (none ∷ xs) = came xs
came (some x ∷ xs) = x ∷ came xs

abbrev pub failures : List (Option (ℕ × SockAddr)) → ℕ
failures [] = 0
failures (none ∷ xs) = failures xs + 1
failures (some x ∷ xs) = failures xs

module _ {k : Epoll} where
  abbrev pub handle_all : List (Option (ℕ × SockAddr)) → Acceptor k → Acceptor k
  handle_all [] a = a
  handle_all (x ∷ xs) a = handle_all xs (handle_read x a)

  -- What the connections leave of an acceptor with a callback.
  record Handled (a b : Acceptor k) (xs : List (Option (ℕ × SockAddr))) : Type 0 where
    poller : b.poller ≡ a.poller
    channel : b.accept_channel ≡ a.accept_channel
    opened : b.opened ≡ a.opened ++ came xs
    dropped : b.dropped ≡ a.dropped
    logged : b.logged ≡ a.logged + failures xs

  handle_all-Handled :
      (xs : List (Option (ℕ × SockAddr))) (a : Acceptor k)
      → a.has_callback ≡ true
      → Handled a (handle_all xs a) xs
  unfolding handle_read hand_on accept
  handle_all-Handled [] a h = record {
    poller = refl;
    channel = refl;
    opened = sym (append-nil a.opened);
    dropped = refl;
    logged = omega arith;
  }
  handle_all-Handled (none ∷ xs) a h =
      let r = handle_all-Handled xs (record a { logged = a.logged + 1 }) h in
      record {
        poller = r.poller;
        channel = r.channel;
        opened = r.opened;
        dropped = r.dropped;
        logged = omega (arith, r.logged);
      }
  handle_all-Handled (some (fd, peer) ∷ xs) a h =
      let b : Acceptor k = record a { opened = a.opened ++ ((fd, peer) ∷ []) } in
      let c : Acceptor k = record a { dropped = a.dropped ++ (fd ∷ []) } in
      let r = handle_all-Handled xs b h in
      subst (λ z. Handled a (handle_all xs z) (some (fd, peer) ∷ xs))
        (sym (if_true a.has_callback b c h))
        (record {
          poller = r.poller;
          channel = r.channel;
          opened = r.opened ∙ append_assoc a.opened ((fd, peer) ∷ []) (came xs);
          dropped = r.dropped;
          logged = r.logged;
        })

  -- The acceptor of a server that listens, after some connections.
  abbrev pub serving :
      Poller k → ℕ → ℕ → Bool → Bool → SockAddr → List (Option (ℕ × SockAddr)) → Acceptor k
  serving p self sockfd binds works listen_addr xs = handle_all xs (
      start_listening works
        (set_new_connection_callback (new_acceptor p self sockfd binds listen_addr)))

  pub record Life (p : Poller k) (self sockfd : ℕ) (xs : List (Option (ℕ × SockAddr)))
      (a : Acceptor k) : Type 0 where
    pub watched : Watched p self sockfd (a.poller, a.accept_channel)
    pub opened : a.opened ≡ came xs
    pub dropped : a.dropped ≡ []
    pub logged : a.logged ≡ failures xs
    pub gone : Gone p sockfd (end_acceptor a).poller
    pub closed : (end_acceptor a).accept_socket.closed ≡ true

  -- An acceptor with a callback, whose descriptor the poller does not know yet, is watched for input by
  -- the kernel from `listen` on; it hands every socket that it accepts to the callback once and in
  -- order, drops none, and logs each failure. Its destructor takes the descriptor out of both lists of the
  -- poller, no other descriptor was touched and no `epoll_ctl` refused, and the socket is closed.
  pub serving_lem :
      (p : Poller k) (self sockfd : ℕ) (binds works : Bool) (listen_addr : SockAddr)
      (xs : List (Option (ℕ × SockAddr)))
      → Unused p sockfd
      → Life p self sockfd xs (serving p self sockfd binds works listen_addr xs)
  unfolding start_listening set_new_connection_callback new_acceptor end_acceptor close_socket
  serving_lem p self sockfd binds works listen_addr xs u =
      let start =
        start_listening works
          (set_new_connection_callback (new_acceptor p self sockfd binds listen_addr)) in
      let a = serving p self sockfd binds works listen_addr xs in
      let h = handle_all-Handled xs start refl in
      let w : Watched p self sockfd (start.poller, start.accept_channel) =
        fresh-Watched p self sockfd u in
      let v : Watched p self sockfd (a.poller, a.accept_channel) =
        subst (λ q. Watched p self sockfd (q, a.accept_channel)) (sym h.poller)
          (subst (λ c. Watched p self sockfd (start.poller, c)) (sym h.channel) w) in
      record {
        watched = v;
        opened = h.opened;
        dropped = h.dropped;
        logged = omega (arith, h.logged);
        gone = Watched-Gone p a.poller a.accept_channel self sockfd v;
        closed = refl;
      }
