-- ===== src/Server/Starting.antt =====
-- src/TcpServer.cpp: starting more than once, and the destructor.
use tcp_server.Base.{
  ℕ, zero, suc, ◌+◌, ◌^◌, ◌<◌, ◌≡◌, sym, ap, ◌∙◌, Bool, List, [], ◌∷◌, ◌++◌, append-nil,
  append_assoc, arith,
}
use tcp_server.LoopPool.{start_pool}
use tcp_server.Server.{Job, listen, destroy, Map, Server, post, start, destroy_all, destruct}

-- `n` calls of `start`.
pub start_times : ℕ → (ℕ → ℕ) → Bool → Server → Server
start_times zero start_loop callback s = s
start_times (suc n) start_loop callback s =
    start_times n start_loop callback (start start_loop callback s)

-- A server that is running: another call of `start` only counts.
start_again :
    (start_loop : ℕ → ℕ) (callback : Bool) (s : Server)
    → 0 < s.started
    → s.started + 1 < 2 ^ 32
    → start start_loop callback s ≡ record s { started = s.started + 1 }
unfolding start
start_again start_loop callback s p q = ground arith

started_more :
    (n : ℕ) (start_loop : ℕ → ℕ) (callback : Bool) (s : Server)
    → 0 < s.started
    → s.started + n < 2 ^ 32
    → start_times n start_loop callback s ≡ record s { started = s.started + n }
unfolding start_times
started_more zero start_loop callback s p q = ap (λ k. record s { started = k }) (omega arith)
started_more (suc n) start_loop callback s p q =
    ap (start_times n start_loop callback) (start_again start_loop callback s p (omega arith))
    ∙ started_more n start_loop callback (record s { started = s.started + 1 }) (omega arith)
        (omega arith)
    ∙ ap (λ k. record s { started = k }) (omega arith)

start_first :
    (start_loop : ℕ → ℕ) (callback : Bool) (s : Server)
    → s.started ≡ 0
    → start start_loop callback s ≡ record s {
      started = 1;
      pool = (start_pool start_loop callback s.pool).0;
      posted = s.posted ++ ((s.loop, listen) ∷ []);
    }
unfolding start post
start_first start_loop callback s e = ground arith

-- However often `start` is called on a server that is not started, as long as the 32-bit count does
-- not wrap, the pool is started once and one job is handed over: its loop is to listen.
pub start_times_lem :
    (n : ℕ) (start_loop : ℕ → ℕ) (callback : Bool) (s : Server)
    → s.started ≡ 0
    → n + 1 < 2 ^ 32
    → start_times (suc n) start_loop callback s ≡ record s {
      started = suc n;
      pool = (start_pool start_loop callback s.pool).0;
      posted = s.posted ++ ((s.loop, listen) ∷ []);
    }
unfolding start_times
start_times_lem n start_loop callback s e q =
    ap (start_times n start_loop callback) (start_first start_loop callback s e)
    ∙ started_more n start_loop callback _ (omega arith) (omega arith)
    ∙ ap
        (λ k. record s {
          started = k;
          pool = (start_pool start_loop callback s.pool).0;
          posted = s.posted ++ ((s.loop, listen) ∷ []);
        })
        (omega arith)

-- The jobs of the destructor for the entries of a map.
pub farewells : Map → List (ℕ × Job)
farewells [] = []
farewells ((k, c) ∷ m) = (c.io_loop, destroy c.name) ∷ farewells m

destroy_all_lem :
    (m : Map) (s : Server) → destroy_all m s ≡ record s { posted = s.posted ++ farewells m }
unfolding destroy_all post farewells
destroy_all_lem [] s = ap (λ p. record s { posted = p }) (sym (append-nil s.posted))
destroy_all_lem ((k, c) ∷ m) s =
    destroy_all_lem m (post c.io_loop (destroy c.name) s)
    ∙ ap (λ p. record s { posted = p })
        (append_assoc s.posted ((c.io_loop, destroy c.name) ∷ []) (farewells m))

-- The destructor hands each connection of the map to its own loop to be destroyed, once each and in
-- the order of the map, and does nothing else to the server's state.
pub destruct_lem :
    (s : Server) → destruct s ≡ record s { posted = s.posted ++ farewells s.connections }
unfolding destruct
destruct_lem s = destroy_all_lem s.connections s
