-- ===== src/Net/Tests.antt =====
-- The theorem about addresses at a concrete one.
use tcp_server.Net.{Inet, new_inet_address, to_ip, to_port, to_ip_port}
use tcp_server.Net.Addresses.{new_inet_address_lem}
use tcp_server.Base.{
  to_string, ℕ, ◌≡◌, refl, sym, some, List, arith, codes, same_text, same_text_sound,
}

-- Address functions that know the address of the machine itself alone.
abbrev home : List ℕ
home = codes "127.0.0.1"

abbrev one_address : Inet
one_address = record {
  inet_addr = λ ip. 16777343;
  inet_ntop = λ a. home;
  dotted = λ ip. same_text ip home;
  ntop-addr = λ ip e. sym (same_text_sound ip home e);
  length-ntop = λ a. omega arith;
}

new_inet_address_lem_example :
    (to_port one_address (new_inet_address one_address 8080 home) ≡ 8080)
    × (to_ip one_address (new_inet_address one_address 8080 home) ≡ home)
    × (to_ip_port one_address (new_inet_address one_address 8080 home)
        ≡ some (codes "127.0.0.1:8080"))
unfolding to_string
new_inet_address_lem_example = new_inet_address_lem one_address 8080 home (omega arith) refl
