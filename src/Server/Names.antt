-- ===== src/Server/Names.antt =====
-- src/TcpServer.cpp: every connection has a name of its own, so that the map never loses one.
use tcp_server.Base.{
  to_string_injective, ℕ, ◌+◌, ◌^◌, ◌<◌, lt→ltb, if_true, ltb, to_string, ◌≤◌, ◌≡◌, refl, sym, ◌∙◌,
  ◌≢◌, Bool, true, false, Option, none, some, List, [], ◌∷◌, ◌++◌, arith, length,
}
use tcp_server.LoopPool.{get_next_loop}
use tcp_server.Server.{
  establish, destroy, Conn, Server, find, post, fresh_server, conn_name, int_text, new_connection,
  handle_accept, remove_connection_in_loop,
}
use tcp_server.Server.Keys.{
  same_text_iff, find-erase, length-assign, find-assign_same, find-assign_other, find-erase-none,
}

append_cancel : (xs ys zs : List ℕ) → xs ++ ys ≡ xs ++ zs → ys ≡ zs
append_cancel [] ys zs e = e
append_cancel (x ∷ xs) ys zs e = append_cancel xs ys zs (cc e)

int_text_positive : (n : ℕ) → n < 2 ^ 31 → int_text n ≡ to_string n
unfolding int_text
int_text_positive n h = if_true (ltb n (2 ^ 31)) _ _ (lt→ltb n (2 ^ 31) h)

-- Different numbers that an `int` holds make different names.
pub conn_name_injective :
    (s : Server) (i j : ℕ) → i < 2 ^ 31 → j < 2 ^ 31 → conn_name s i ≡ conn_name s j → i ≡ j
unfolding conn_name
conn_name_injective s i j h k e = to_string_injective i j (
    sym (int_text_positive i h)
    ∙ append_cancel s.ip_port _ _ (append_cancel (45 ∷ []) _ _ (append_cancel s.name _ _ e))
    ∙ int_text_positive j k)

-- No name that is still to be given out before the `int` overflows is in the map.
pub record IsFresh (s : Server) : Type 0 where
  pub unused : (i : ℕ) → s.next_conn_id ≤ i → i < 2 ^ 31 → find (conn_name s i) s.connections ≡ none

pub fresh_server-IsFresh :
    (loop : ℕ) (ip_port name : List ℕ) → IsFresh (fresh_server loop ip_port name)
unfolding fresh_server find
fresh_server-IsFresh loop ip_port name = record { unused = λ i h k. refl }

-- If the number of the next connection can still be counted up in its `int` and the names to come are
-- unused, `newConnection` puts the connection into the map under a name
-- that no other connection has: every other entry stays, the map is longer by one, and the loop
-- whose turn it is gets the job to establish it; afterwards the names to come are still unused.
pub new_connection_lem :
    (sockfd : ℕ) (s : Server)
    → s.next_conn_id + 1 < 2 ^ 31
    → IsFresh s
    → let t = new_connection sockfd s in
      let key = conn_name s s.next_conn_id in
      let io_loop = (get_next_loop s.pool).0 in
      (find key t.connections ≡ some (record { name = key; sockfd = sockfd; io_loop = io_loop }))
      × ((j : List ℕ) → j ≢ key → find j t.connections ≡ find j s.connections)
      × (length t.connections ≡ length s.connections + 1)
      × (t.posted ≡ s.posted ++ ((io_loop, establish key) ∷ []))
      × IsFresh t
unfolding new_connection post conn_name
new_connection_lem sockfd s b v =
    let key = conn_name s s.next_conn_id in
    let c : Conn = record {
      name = conn_name s s.next_conn_id;
      sockfd = sockfd;
      io_loop = (get_next_loop s.pool).0;
    } in
    (
      find-assign_same key c s.connections,
      λ j n. find-assign_other key j c s.connections (λ e. n (sym e)),
      length-assign (conn_name s s.next_conn_id) c s.connections
          (v.unused s.next_conn_id (omega arith) (omega arith)),
      refl,
      record {
        unused = λ i h k.
            let below : s.next_conn_id < i = omega (arith, h) in
            find-assign_other key (conn_name s i) c s.connections
              (λ e. omega (arith, below, conn_name_injective s s.next_conn_id i (omega arith) k e))
            ∙ v.unused i (omega (arith, below)) k;
      },
    )

-- What can happen to the map: a new socket, or the removal of a connection.
pub data Event : Type 0 where
  accepts : Option ℕ → Event
  removes : Conn → Event

pub serve : Bool → Server → List Event → Server
serve has_callback s [] = s
serve has_callback s (accepts fd ∷ es) = serve has_callback (handle_accept has_callback fd s) es
serve has_callback s (removes c ∷ es) = serve has_callback (remove_connection_in_loop c s) es

handle_accept-IsFresh :
    (has_callback : Bool) (fd : Option ℕ) (s : Server)
    → s.next_conn_id + 1 < 2 ^ 31
    → IsFresh s
    → IsFresh (handle_accept has_callback fd s)
      × ((handle_accept has_callback fd s).next_conn_id ≤ s.next_conn_id + 1)
unfolding handle_accept conn_name
handle_accept-IsFresh has_callback none s b v = (v, omega arith)
handle_accept-IsFresh true (some fd) s b v = ((new_connection_lem fd s b v).4, counted)
  where
    counted : (new_connection fd s).next_conn_id ≤ s.next_conn_id + 1
    counted = unfold new_connection post in omega (arith, b)
handle_accept-IsFresh false (some fd) s b v =
    (record { unused = λ i h k. v.unused i h k }, omega arith)

remove-IsFresh : (c : Conn) (s : Server) → IsFresh s → IsFresh (remove_connection_in_loop c s)
unfolding remove_connection_in_loop post conn_name
remove-IsFresh c s v = record {
  unused = λ i h k. find-erase-none c.name (conn_name s i) s.connections (v.unused i h k);
}

remove-next :
    (c : Conn) (s : Server) → (remove_connection_in_loop c s).next_conn_id ≡ s.next_conn_id
unfolding remove_connection_in_loop post
remove-next c s = refl

-- If no name that is still to be given out is in the map, then none is after whatever sockets
-- arrive and whatever connections go, in any order, as long as the `int` does not overflow.
pub serve-IsFresh :
    (has_callback : Bool) (s : Server) (es : List Event)
    → s.next_conn_id + length es < 2 ^ 31
    → IsFresh s
    → IsFresh (serve has_callback s es)
unfolding serve
serve-IsFresh has_callback s [] b v = v
serve-IsFresh has_callback s (accepts fd ∷ es) b v =
    let (w, n) = handle_accept-IsFresh has_callback fd s (omega arith) v in
    serve-IsFresh has_callback (handle_accept has_callback fd s) es (omega (arith, n, b)) w
serve-IsFresh has_callback s (removes c ∷ es) b v =
    serve-IsFresh has_callback (remove_connection_in_loop c s) es
      (omega (arith, b, remove-next c s)) (remove-IsFresh c s v)

-- `removeConnectionInLoop` takes the entry with the connection's name out of the map and no other,
-- and hands one job to one loop: the connection's own loop is to destroy it.
pub remove_connection_in_loop_lem :
    (c : Conn) (s : Server)
    → let t = remove_connection_in_loop c s in
      (find c.name t.connections ≡ none)
      × ((j : List ℕ) → j ≢ c.name → find j t.connections ≡ find j s.connections)
      × (t.posted ≡ s.posted ++ ((c.io_loop, destroy c.name) ∷ []))
unfolding remove_connection_in_loop post
remove_connection_in_loop_lem c s = (
  ground (arith, find-erase c.name c.name s.connections, same_text_iff c.name c.name),
  λ j n. ground (arith, find-erase c.name j s.connections, same_text_iff c.name j),
  refl,
)
