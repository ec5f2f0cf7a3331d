-- ===== src/Net/Addresses.antt =====
-- src/InetAddress.cpp: an address and its parts.
use tcp_server.Net.{Inet, swap_bytes, new_inet_address, to_ip, to_port, to_ip_port}
use tcp_server.Base.{
  to_string, length-to_string, ℕ, ◌^◌, ◌≤◌, ◌<◌, ◌≡◌, subst, true, some, List, ◌++◌, arith, lt→ltb,
  if_true, codes, length, length-append,
}

swap_bytes_twice : (n : ℕ) → n < 2 ^ 16 → swap_bytes (swap_bytes n) ≡ n
unfolding swap_bytes
swap_bytes_twice n h = omega arith

-- An address that is made of a 16-bit port and a text in the usual notation gives back both, whichever
-- byte order the port is kept in, and its text of the two stays inside its 64 characters.
pub new_inet_address_lem :
    (inet : Inet) (port : ℕ) (ip : List ℕ)
    → port < 2 ^ 16
    → inet.dotted ip ≡ true
    → (to_port inet (new_inet_address inet port ip) ≡ port)
      × (to_ip inet (new_inet_address inet port ip) ≡ ip)
      × (to_ip_port inet (new_inet_address inet port ip)
          ≡ some (ip ++ (codes ":" ++ to_string port)))
unfolding new_inet_address to_ip to_port to_ip_port
new_inet_address_lem inet port ip h d =
    let same = swap_bytes_twice port h in
    let text = inet.ntop-addr ip d in
    let short : length (ip ++ (codes ":" ++ to_string port)) < 64 = omega (
      arith,
      length-append ip (codes ":" ++ to_string port),
      length-to_string port h,
      subst (λ (t : List ℕ). length t ≤ 15) text (inet.length-ntop (inet.inet_addr ip)),
    ) in
    (same, text, rw (same, text) (if_true _ _ _ (lt→ltb _ 64 short)))
