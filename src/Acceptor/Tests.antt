-- ===== src/Acceptor/Tests.antt =====
-- The theorem about the acceptor at a concrete poller: one connection, one failure, one connection.
use tcp_server.Acceptor.Life.{serving, Life, serving_lem}
use tcp_server.Net.{SockAddr}
use tcp_server.Poller.Tests.{watching}
use tcp_server.Poller.Lives.{Unused}
use tcp_server.Base.{ℕ, refl, true, Option, none, some, List, [], ◌∷◌}

abbrev peer : SockAddr
peer = record { sin_family = 2; sin_port = 20480; s_addr = 16777343 }

abbrev connections : List (Option (ℕ × SockAddr))
connections = some (9, peer) ∷ none ∷ some (10, peer) ∷ []

-- The poller watches the descriptor 7 already, and not 5.
unused : Unused watching 5
unused = record { in_list = refl; in_epoll = refl }

serving_lem_example :
    Life watching 2 5 connections (serving watching 2 5 true true peer connections)
serving_lem_example = serving_lem watching 2 5 true true peer connections unused
