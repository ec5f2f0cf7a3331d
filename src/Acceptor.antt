-- ===== src/Acceptor.antt =====
-- include/Acceptor.hpp, src/Acceptor.cpp: the listening socket and its channel. The kernel's `epoll` is a
-- parameter, and whether a call on the socket works is an argument.
pub mod Life
mod Tests
use tcp_server.Net.{
  SockAddr, Socket, new_socket, bind_address, listen, set_reuse_addr, set_reuse_port, close_socket,
  accept,
}
use tcp_server.Channel.{Channel, fresh_channel, reading}
use tcp_server.Poller.{Epoll, Poller, set_events}
use tcp_server.Poller.Lives.{take_out}
use tcp_server.Base.{
  ℕ, ◌+◌, Bool, true, false, Option, none, some, List, [], ◌∷◌, ◌++◌, if◌then◌else◌,
}

-- `opened` lists the sockets that were handed to the callback, `dropped` those that were closed because
-- there is none; `logged` counts the log lines about `accept`.
pub record Acceptor (k : Epoll) : Type 0 where
  pub poller : Poller k
  pub accept_socket : Socket
  pub accept_channel : Channel
  pub has_callback : Bool
  pub listenning : Bool
  pub opened : List (ℕ × SockAddr)
  pub dropped : List ℕ
  pub logged : ℕ

-- The address that the peer's is put into: port 0 of 127.0.0.1.
abbrev any_address : SockAddr
any_address = record { sin_family = 2; sin_port = 0; s_addr = 16777343 }

module _ {k : Epoll} where
  -- The constructor, with the socket's descriptor and the address of the channel.
  unfoldable pub new_acceptor : Poller k → ℕ → ℕ → Bool → SockAddr → Acceptor k
  new_acceptor p self sockfd binds listen_addr = record {
    poller = p;
    accept_socket =
        bind_address binds listen_addr
          (set_reuse_port true (set_reuse_addr true (new_socket sockfd)));
    accept_channel = fresh_channel self sockfd;
    has_callback = false;
    listenning = false;
    opened = [];
    dropped = [];
    logged = 0;
  }

  unfoldable pub set_new_connection_callback : Acceptor k → Acceptor k
  set_new_connection_callback a = record a { has_callback = true }

  -- `listen`
  unfoldable pub start_listening : Bool → Acceptor k → Acceptor k
  start_listening works a =
      let (p, c) = set_events reading a.poller a.accept_channel in
      record a {
        poller = p;
        accept_channel = c;
        listenning = true;
        accept_socket = tcp_server.Net.listen works a.accept_socket;
      }

  -- What `handleRead` does with a socket that it got.
  unfoldable pub hand_on : ℕ → SockAddr → Acceptor k → Acceptor k
  hand_on connfd peer_addr a =
      if a.has_callback
      then record a { opened = a.opened ++ ((connfd, peer_addr) ∷ []) }
      else record a { dropped = a.dropped ++ (connfd ∷ []) }

  abbrev by_accept : Option ℕ × SockAddr → Acceptor k → Acceptor k
  by_accept (none, peer_addr) a = record a { logged = a.logged + 1 }
  by_accept (some connfd, peer_addr) a = hand_on connfd peer_addr a

  -- `handleRead`, by what `accept4` gave.
  unfoldable pub handle_read : Option (ℕ × SockAddr) → Acceptor k → Acceptor k
  handle_read got a = by_accept (tcp_server.Net.accept got any_address) a

  -- The destructor, and that of the socket.
  unfoldable pub end_acceptor : Acceptor k → Acceptor k
  end_acceptor a =
      let (p, c) = take_out a.poller a.accept_channel in
      record a { poller = p; accept_channel = c; accept_socket = close_socket a.accept_socket }
