-- ===== src/Connection/Send/Sides.antt =====
-- src/TcpConnection.cpp: what sending and the write event leave alone.
use tcp_server.Base.{
  ℕ, ◌≡◌, refl, ◌∙◌, inl, inr, Bool, true, false, not, List, ◌++◌, ltb, ◌==◌, if◌then◌else◌,
  Bool-cases, length, take, drop, add_size, sub_size,
}
use tcp_server.Buffer.{readable_bytes, peek, retrieve, Io, count, fail, write_fd}
use tcp_server.Channel.{is_writing, Wish, writing, no_writing}
use tcp_server.Poller.{Epoll}
use tcp_server.Connection.{
  is_disconnected, Task, write_complete, high_water, Connection, wish, queue_in_loop,
}
use tcp_server.Connection.Send.{
  Attempt, took_all, wrote_some, can_write, attempt, crosses, warn_high, keep_rest, watch_write,
  finish, send_in_loop, shutdown_in_loop, drained, sent, after_write, handle_write,
}

module _ {k : Epoll} where
  -- Sending leaves the state and the input of a connection alone.
  pub record SameSide (c d : Connection k) : Type 0 where
    pub state : d.state ≡ c.state
    pub input : d.input ≡ c.input

  same_side : (c : Connection k) → SameSide c c
  same_side c = record { state = refl; input = refl }

  SameSide-trans : {c d e : Connection k} → SameSide c d → SameSide d e → SameSide c e
  SameSide-trans s t = record { state = t.state ∙ s.state; input = t.input ∙ s.input }

  SameSide-if :
      (b : Bool) (c d e : Connection k)
      → SameSide c d
      → SameSide c e
      → SameSide c (if b then d else e)
  SameSide-if true c d e s t = s
  SameSide-if false c d e s t = t

  wish-SameSide : (w : Wish) (c : Connection k) → SameSide c (wish w c)
  unfolding wish
  wish-SameSide w c = record { state = refl; input = refl }

  queue-SameSide : (t : Task) (c : Connection k) → SameSide c (queue_in_loop t c)
  unfolding queue_in_loop
  queue-SameSide t c = record { state = refl; input = refl }

  took_all-SameSide : (r : ℕ) (c : Connection k) → SameSide c (took_all r c)
  unfolding took_all
  took_all-SameSide r c = SameSide-if _ c _ c (queue-SameSide write_complete c) (same_side c)

  attempt-SameSide :
      (c : Connection k) (bytes : List ℕ) (reply : Io) → SameSide c (attempt c bytes reply).conn
  unfolding attempt wrote_some
  attempt-SameSide c bytes reply = elim (Bool-cases (can_write c)) [
    | inl e ↦ rw e (by_reply reply)
    | inr e ↦ rw e (same_side c)
  ]
    where
      by_reply : (r : Io) → SameSide c (wrote_some c bytes r).conn
      by_reply (fail errno) = same_side c
      by_reply (count n) =
          let t =
            took_all-SameSide (sub_size (length bytes) n)
              (record c { wire = c.wire ++ take n bytes }) in
          record { state = t.state; input = t.input }

  finish-SameSide :
      (c : Connection k) (bytes : List ℕ) (a : Attempt k)
      → SameSide c a.conn
      → SameSide c (finish bytes a)
  unfolding finish watch_write keep_rest warn_high
  finish-SameSide c bytes a s =
      let warned =
        SameSide-if (crosses a.conn a.remaining) a.conn _ a.conn
          (queue-SameSide
            (high_water a.conn.has_high_water (add_size (readable_bytes a.conn.output) a.remaining))
            a.conn)
          (same_side a.conn) in
      let kept : SameSide a.conn
          (keep_rest (drop a.nwrote bytes) a.remaining (warn_high a.remaining a.conn)) =
        record { state = warned.state; input = warned.input } in
      let d = keep_rest (drop a.nwrote bytes) a.remaining (warn_high a.remaining a.conn) in
      SameSide-if _ c _ a.conn
        (SameSide-trans (SameSide-trans s kept)
          (SameSide-if (not (is_writing d.channel)) d _ d (wish-SameSide writing d) (same_side d)))
        s

  pub send_in_loop-SameSide :
      (c : Connection k) (bytes : List ℕ) (reply : Io) → SameSide c (send_in_loop c bytes reply)
  unfolding send_in_loop
  send_in_loop-SameSide c bytes reply =
      SameSide-if _ c c _ (same_side c)
        (finish-SameSide c bytes (attempt c bytes reply) (attempt-SameSide c bytes reply))

  drained-SameSide : (c : Connection k) → SameSide c (drained c)
  unfolding drained shutdown_in_loop
  drained-SameSide c =
      let d = wish no_writing c in
      let s = wish-SameSide no_writing c in
      let e = if d.has_write_complete then queue_in_loop write_complete d else d in
      let t =
        SameSide-trans s (
          SameSide-if d.has_write_complete d _ d (queue-SameSide write_complete d) (same_side d)) in
      let u : SameSide e (record e { write_shut = true }) = record { state = refl; input = refl } in
      SameSide-if (is_disconnected e.state) c _ e
        (SameSide-trans t (SameSide-if (not (is_writing e.channel)) e _ e u (same_side e))) t

  pub handle_write-SameSide :
      (c : Connection k) (kernel : List ℕ → Io) → SameSide c (handle_write c kernel)
  unfolding handle_write after_write sent
  handle_write-SameSide c kernel =
      SameSide-if _ c _ c (by_reply (write_fd c.output kernel)) (same_side c)
    where
      by_reply : (r : Io) → SameSide c (after_write c r)
      by_reply (fail errno) = same_side c
      by_reply (count n) =
          let d : Connection k = record c {
            wire = c.wire ++ take n (peek c.output (readable_bytes c.output));
            output = retrieve c.output n;
          } in
          let s : SameSide c d = record { state = refl; input = refl } in
          SameSide-if (ltb 0 n) c _ c
            (SameSide-if (readable_bytes d.output == 0) c _ d
              (SameSide-trans s (drained-SameSide d)) s)
            (same_side c)
