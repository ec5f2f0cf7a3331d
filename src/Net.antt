-- ===== src/Net.antt =====
-- include/InetAddress.hpp, src/InetAddress.cpp, src/Socket.cpp: addresses in the network's byte order, and the calls on a
-- socket. The machine is little-endian, as Linux on x86 is.
pub mod Addresses
mod Tests
use tcp_server.Base.{
  to_string, ℕ, ◌+◌, ◌*◌, ◌/◌, ◌%◌, ◌≤◌, ◌≡◌, Bool, true, false, Option, none, some, List, ◌++◌,
  ltb, if◌then◌else◌, codes, length,
}

-- The address functions of <arpa/inet.h>, as far as the code relies on them: `dotted` says that a text is
-- an address in its usual notation, which is what `inet_ntop` writes, of 15 characters at most.
pub record Inet : Type 1 where
  pub inet_addr : List ℕ → ℕ
  pub inet_ntop : ℕ → List ℕ
  pub dotted : List ℕ → Bool
  pub ntop-addr : (ip : List ℕ) → dotted ip ≡ true → inet_ntop (inet_addr ip) ≡ ip
  pub length-ntop : (a : ℕ) → length (inet_ntop a) ≤ 15

-- `sockaddr_in`
pub record SockAddr : Type 0 where
  pub sin_family : ℕ
  pub sin_port : ℕ
  pub s_addr : ℕ

-- `htons` and `ntohs`, which swap the two bytes.
unfoldable pub swap_bytes : ℕ → ℕ
swap_bytes n = n % 256 * 256 + n / 256 % 256

abbrev pub af_inet : ℕ
af_inet = 2

module _ (inet : Inet) where
  -- The constructor from a port and an address.
  unfoldable pub new_inet_address : ℕ → List ℕ → SockAddr
  new_inet_address port ip = record {
    sin_family = af_inet;
    sin_port = swap_bytes port;
    s_addr = inet.inet_addr ip;
  }

  unfoldable pub to_ip : SockAddr → List ℕ
  to_ip a = inet.inet_ntop a.s_addr

  unfoldable pub to_port : SockAddr → ℕ
  to_port a = swap_bytes a.sin_port

  -- `toIpPort`; `none` is a text that runs over the end of its 64 characters.
  unfoldable pub to_ip_port : SockAddr → Option (List ℕ)
  to_ip_port a =
      let text = inet.inet_ntop a.s_addr ++ (codes ":" ++ to_string (swap_bytes a.sin_port)) in
      if ltb (length text) 64 then some text else none

-- A socket: the options that were set, whether it was bound, listens, has its writing side closed and is
-- closed. `logged` counts the log lines about calls that failed.
pub record Socket : Type 0 where
  pub sockfd : ℕ
  pub bound : Option SockAddr
  pub listens : Bool
  pub shut : Bool
  pub tcp_no_delay : Bool
  pub reuse_addr : Bool
  pub reuse_port : Bool
  pub keep_alive : Bool
  pub closed : Bool
  pub logged : ℕ

unfoldable pub new_socket : ℕ → Socket
new_socket sockfd = record {
  sockfd = sockfd;
  bound = none;
  listens = false;
  shut = false;
  tcp_no_delay = false;
  reuse_addr = false;
  reuse_port = false;
  keep_alive = false;
  closed = false;
  logged = 0;
}

-- Each call says in `works` whether the kernel did it.
unfoldable pub bind_address : Bool → SockAddr → Socket → Socket
bind_address works local_addr s =
    if works then record s { bound = some local_addr } else record s { logged = s.logged + 1 }

unfoldable pub listen : Bool → Socket → Socket
listen works s = if works then record s { listens = true } else record s { logged = s.logged + 1 }

unfoldable pub shutdown_write : Bool → Socket → Socket
shutdown_write works s =
    if works then record s { shut = true } else record s { logged = s.logged + 1 }

unfoldable pub set_tcp_no_delay : Bool → Socket → Socket
set_tcp_no_delay on s = record s { tcp_no_delay = on }

unfoldable pub set_reuse_addr : Bool → Socket → Socket
set_reuse_addr on s = record s { reuse_addr = on }

unfoldable pub set_reuse_port : Bool → Socket → Socket
set_reuse_port on s = record s { reuse_port = on }

unfoldable pub set_keep_alive : Bool → Socket → Socket
set_keep_alive on s = record s { keep_alive = on }

-- The destructor.
unfoldable pub close_socket : Socket → Socket
close_socket s = record s { closed = true }

-- `Accept`: the descriptor, and the address that the caller's variable has afterwards.
unfoldable pub accept : Option (ℕ × SockAddr) → SockAddr → Option ℕ × SockAddr
accept none peer_addr = (none, peer_addr)
accept (some (connfd, client)) peer_addr = (some connfd, client)
