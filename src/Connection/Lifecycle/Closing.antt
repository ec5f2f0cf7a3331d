-- ===== src/Connection/Lifecycle/Closing.antt =====
-- src/TcpConnection.cpp: from the constructor to the destruction of a connection, seen from its
-- channel, its poller and the user's connection callback.
use tcp_server.Base.{
  ℕ, ◌≡◌, refl, ap, ap₂, subst, ◌∙◌, inl, inr, true, false, none, List, [], ◌∷◌, ◌++◌, append_assoc,
  arith, if◌then◌else◌, Bool-cases, length, length-append,
}
use tcp_server.Buffer.{new_buffer, readable_bytes}
use tcp_server.Buffer.Layout.{contents, length-contents, new_buffer-IsValid}
use tcp_server.Channel.{none_event, fresh_channel, tie, reading, nothing}
use tcp_server.Channel.Masks.{Mask, bits, switched, idle, reads, writes, both}
use tcp_server.Poller.{Epoll, Poller, remove_channel}
use tcp_server.Poller.Sync.{Synced, remove_channel-Removed}
use tcp_server.Connection.{
  is_connected, Seen, connection, Connection, Handlers, fresh_connection, wish, disconnected,
  connected, closed,
}
use tcp_server.Connection.Invariant.{Inv, wish-Wished, Good, Wished-Good}
use tcp_server.Connection.Lifecycle.{
  tell, connect_established, remove, connect_destroyed, handle_close,
}

module _ {k : Epoll} where
  -- Callbacks that look at the connection and leave it as it is.
  pub record OnlyLooks (h : Handlers k) : Type 0 where
    pub connection : (c : Connection k) → h.on_connection c ≡ c
    pub message : (c : Connection k) → h.on_message c ≡ c
    pub close : (c : Connection k) → h.on_close c ≡ c

  Good-seen :
      {s : List ℕ} (c : Connection k) (l : List Seen) → Good s c → Good s (record c { seen = l })
  Good-seen c l g = record {
    inv = record {
      input_valid = g.inv.input_valid;
      output_valid = g.inv.output_valid;
      mask = g.inv.mask;
      events = g.inv.events;
      flow = g.inv.flow;
      synced = g.inv.synced;
    };
    accepted = g.accepted;
  }

  tell_lem :
      (h : Handlers k) (c : Connection k)
      → OnlyLooks h
      → tell h c ≡ record c { seen = c.seen ++ (connection (is_connected c.state) ∷ []) }
  unfolding tell
  tell_lem h c o = o.connection _

  -- A new connection has an empty stream, and is sound if its descriptor is new to the poller.
  pub fresh_connection-Good :
      (p : Poller k) (self sockfd : ℕ)
      → p.channels sockfd ≡ none
      → k.interest p.epoll sockfd ≡ none
      → Good [] (fresh_connection p self sockfd)
  unfolding fresh_connection fresh_channel new_buffer
  fresh_connection-Good p self sockfd l w = record {
    inv = record {
      input_valid = new_buffer-IsValid 1024;
      output_valid = new_buffer-IsValid 1024;
      mask = idle;
      events = refl;
      flow = tt;
      synced = record { in_list = l; in_epoll = w };
    };
    accepted = refl;
  }

  -- `connectEstablished` on a sound connection with nothing to send, with callbacks that do nothing
  -- themselves: it counts as connected, is tied to its owner, waits for input and not for output,
  -- the user is told that it is up, and it is sound, so that its descriptor is watched for input.
  pub connect_established_lem :
      (h : Handlers k) (c : Connection k)
      → OnlyLooks h
      → Good [] c
      → c.channel.events ≡ bits idle
      → let d = connect_established h c in
        Good [] d
        × (d.state ≡ connected)
        × (d.channel.tied ≡ true)
        × (d.channel.events ≡ bits reads)
        × (d.seen ≡ c.seen ++ (connection true ∷ []))
  unfolding connect_established tie
  connect_established_lem h c o g e =
      let b : Connection k = record c { state = connected; channel = tie c.channel } in
      let y : Synced b.poller b.channel = record {
        in_list = g.inv.synced.in_list;
        in_epoll = g.inv.synced.in_epoll;
      } in
      let w = wish-Wished reading idle b e y in
      let empty : readable_bytes c.output ≡ 0 = omega (
        arith,
        length-contents c.output g.inv.output_valid,
        length-append c.wire (contents c.output),
        ap length g.accepted,
      ) in
      let sound : Good [] (wish reading b) =
        Wished-Good reading idle b _ w g.inv.input_valid g.inv.output_valid empty g.accepted in
      let told =
        Good-seen (wish reading b)
          ((wish reading b).seen ++ (connection (is_connected (wish reading b).state) ∷ []))
          sound in
      rw (tell_lem h (wish reading b) o) (
        told,
        w.same.state,
        w.tied,
        w.events,
        ap₂ (λ (l : List Seen) t. l ++ (connection (is_connected t) ∷ [])) w.same.seen w.same.state,
      )

  -- `handleClose`: nothing is waited for any more, and the user and the server are told; the user's
  -- callback sees the connection in the state that it was in before.
  pub handle_close_lem :
      (h : Handlers k) (c : Connection k)
      → OnlyLooks h
      → Inv c
      → let d = handle_close h c in
        (d.state ≡ c.state)
        × (d.channel.events ≡ none_event)
        × (d.channel.fd ≡ c.channel.fd)
        × Synced d.poller d.channel
        × (d.seen ≡ c.seen ++ (connection (is_connected c.state) ∷ closed ∷ []))
  unfolding handle_close
  handle_close_lem h c o v =
      let w = wish-Wished nothing v.mask c v.events v.synced in
      let told = tell_lem h (wish nothing c) o in
      rw
        (
          o.close (record (tell h (wish nothing c)) {
            seen = (tell h (wish nothing c)).seen ++ (closed ∷ []);
          }),
          told,
        )
        (
          w.same.state,
          w.events ∙ by_mask v.mask,
          w.fd,
          w.synced,
          rw (w.same.state, w.same.seen)
              (append_assoc c.seen (connection (is_connected c.state) ∷ []) (closed ∷ [])),
        )
    where
      by_mask : (m : Mask) → bits (switched nothing m) ≡ none_event
      by_mask idle = refl
      by_mask reads = refl
      by_mask writes = refl
      by_mask both = refl

  -- `connectDestroyed`, with callbacks that do nothing themselves, on a connection whose channel is
  -- in step with the poller: whatever it waited for, its descriptor is in neither list afterwards;
  -- only a connection that counted as connected goes down here, and only then is the user told.
  pub connect_destroyed_lem :
      (h : Handlers k) (c : Connection k) (m : Mask)
      → OnlyLooks h
      → c.channel.events ≡ bits m
      → Synced c.poller c.channel
      → let d = connect_destroyed h c in
        (d.poller.channels c.channel.fd ≡ none)
        × (k.interest d.poller.epoll c.channel.fd ≡ none)
        × (is_connected d.state ≡ false)
        × (d.seen ≡ (if is_connected c.state then c.seen ++ (connection false ∷ []) else c.seen))
  unfolding connect_destroyed remove
  connect_destroyed_lem h c m o e y = elim (Bool-cases (is_connected c.state)) [
    | inl up ↦
        let b : Connection k = record c { state = disconnected } in
        let w = wish-Wished nothing m b e (record { in_list = y.in_list; in_epoll = y.in_epoll }) in
        let r = remove_channel-Removed (wish nothing b).poller (wish nothing b).channel w.synced in
        let q : Poller k = (remove_channel (wish nothing b).poller (wish nothing b).channel).0 in
        rw (up, tell_lem h (wish nothing b) o)
          (
            subst (λ (j : ℕ). q.channels j ≡ none) w.fd r.gone,
            subst (λ (j : ℕ). k.interest q.epoll j ≡ none) w.fd r.unwatched,
            rw w.same.state refl,
            rw (w.same.state, w.same.seen) refl,
          )
    | inr down ↦
        let r = remove_channel-Removed c.poller c.channel y in
        rw down (r.gone, r.unwatched, down, refl)
  ]

  -- When the peer closes an established connection, whose callbacks do nothing themselves, the
  -- connection callback runs once while the connection still counts as connected, and again, with
  -- the connection down, when the server destroys it.
  pub peer_close_lem :
      (h : Handlers k) (c : Connection k)
      → OnlyLooks h
      → Inv c
      → c.state ≡ connected
      → (connect_destroyed h (handle_close h c)).seen
        ≡ c.seen ++ (connection true ∷ closed ∷ connection false ∷ [])
  peer_close_lem h c o v e =
      let l = handle_close_lem h c o v in
      let d = connect_destroyed_lem h (handle_close h c) idle o l.1 l.3 in
      let up : is_connected (handle_close h c).state ≡ true = rw (l.0, e) refl in
      rw (d.3, up, l.4, e)
        (append_assoc c.seen (connection true ∷ closed ∷ []) (connection false ∷ []))
