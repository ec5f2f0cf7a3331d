-- ===== src/Echo/Tests.antt =====
-- The theorem about the echo server at a concrete run: two bytes come, of which the kernel takes one
-- at once, and a write event takes the other.
use tcp_server.Base.{ℕ, refl, List, [], ◌∷◌, arith, length}
use tcp_server.Connection.Tests.{up, up-Good, hello, one_byte}
use tcp_server.Connection.Send.Stream.{Plausible}
use tcp_server.Echo.Stream.{Event, arrives, writable, serve_all, Echoing, echo}

up-Echoing : Echoing (λ c. c) [] up
up-Echoing = record { good = up-Good; up = refl; taken = refl }

one_byte-Plausible : (xs : List ℕ) → Plausible (length xs) (one_byte xs)
one_byte-Plausible [] = omega arith
one_byte-Plausible (x ∷ xs) = omega arith

abbrev come_and_go : List Event
come_and_go = arrives hello one_byte ∷ writable one_byte ∷ []

echo_example : Echoing (λ c. c) hello (serve_all (λ c. c) up come_and_go)
echo_example =
    echo (λ c. c) [] up come_and_go up-Echoing
      ((omega arith, omega arith, omega arith, omega arith, refl), (one_byte-Plausible _, tt))
