-- ===== src/Poller/Lives.antt =====
-- src/EpollPoller.cpp, Channel.hpp: a channel that is watched for input from its making on, and taken out again.
use tcp_server.Channel.{
  none_event, read_event, Channel, fresh_channel, wished, added, reading, nothing,
}
use tcp_server.Poller.{Epoll, Poller, update_channel, remove_channel, set_events}
use tcp_server.Poller.Sync.{Synced, Others, update_channel-Updated, remove_channel-Removed}
use tcp_server.Base.{ℕ, ◌≡◌, sym, ap, subst, ◌∙◌, false, none, some}

-- A channel that waits for input, once the poller knows it.
abbrev pub watching : ℕ → ℕ → Channel
watching self fd = record {
  self = self;
  fd = fd;
  events = read_event;
  revents = 0;
  index = added;
  tied = false;
}

module _ {k : Epoll} where
  -- Nothing is known of the descriptor.
  pub record Unused (p : Poller k) (fd : ℕ) : Type 0 where
    pub in_list : p.channels fd ≡ none
    pub in_epoll : k.interest p.epoll fd ≡ none

  -- The channel is watched for input, and the rest of the poller is that of before.
  pub record Watched (p : Poller k) (self fd : ℕ) (r : Poller k × Channel) : Type 0 where
    pub in_list : r.0.channels fd ≡ some self
    pub in_epoll : k.interest r.0.epoll fd ≡ some read_event
    pub others : Others fd p r.0
    pub quiet : r.0.failed ≡ p.failed
    pub channel : r.1 ≡ watching self fd

  pub fresh-Watched :
      (p : Poller k) (self fd : ℕ)
      → Unused p fd
      → Watched p self fd (set_events reading p (fresh_channel self fd))
  unfolding set_events fresh_channel wished
  fresh-Watched p self fd u =
      let fresh : Synced p (fresh_channel self fd) = record {
        in_list = u.in_list;
        in_epoll = u.in_epoll;
      } in
      let r = update_channel-Updated p (fresh_channel self fd) read_event fresh in
      let q = update_channel p (record (fresh_channel self fd) { events = read_event }) in
      let same : q.1 ≡ watching self fd = r.channel in
      let synced : Synced q.0 (watching self fd) = subst (λ c. Synced q.0 c) same r.synced in
      record {
        in_list = synced.in_list;
        in_epoll = synced.in_epoll;
        others = r.others;
        quiet = r.quiet;
        channel = same;
      }

  -- The poller is rid of the descriptor, and the rest of it is that of before.
  pub record Gone (p : Poller k) (fd : ℕ) (q : Poller k) : Type 0 where
    pub unused : Unused q fd
    pub others : Others fd p q
    pub quiet : q.failed ≡ p.failed

  -- `disbaleAll` and `remove`.
  unfoldable pub take_out : Poller k → Channel → Poller k × Channel
  take_out p c = let (q, d) = set_events nothing p c in remove_channel q d

  pub take_out-Gone :
      (p : Poller k) (self fd : ℕ)
      → p.channels fd ≡ some self
      → k.interest p.epoll fd ≡ some read_event
      → Gone p fd (take_out p (watching self fd)).0
  unfolding take_out set_events wished
  take_out-Gone p self fd l e =
      let synced : Synced p (watching self fd) = record { in_list = l; in_epoll = e } in
      let r = update_channel-Updated p (watching self fd) none_event synced in
      let q = update_channel p (record (watching self fd) { events = none_event }) in
      let s = remove_channel-Removed q.0 q.1 r.synced in
      let same : q.1.fd ≡ fd = ap (λ (c : Channel). c.fd) r.channel in
      let u = (remove_channel q.0 q.1).0 in
      record {
        unused = record {
          in_list = subst (λ n. u.channels n ≡ none) same s.gone;
          in_epoll = subst (λ n. k.interest u.epoll n ≡ none) same s.unwatched;
        };
        others = record {
          channels = λ j n. s.others.channels j (λ e. n (e ∙ same)) ∙ r.others.channels j n;
          interest = λ j n. s.others.interest j (λ e. n (e ∙ same)) ∙ r.others.interest j n;
        };
        quiet = s.quiet ∙ r.quiet;
      }

  -- From the making of a watched channel to its end.
  pub Watched-Gone :
      (p q : Poller k) (c : Channel) (self fd : ℕ)
      → Watched p self fd (q, c)
      → Gone p fd (take_out q c).0
  Watched-Gone p q c self fd w =
      let g = take_out-Gone q self fd w.in_list w.in_epoll in
      subst (λ z. Gone p fd (take_out q z).0) (sym w.channel)
        (record {
          unused = g.unused;
          others = record {
            channels = λ j n. g.others.channels j n ∙ w.others.channels j n;
            interest = λ j n. g.others.interest j n ∙ w.others.interest j n;
          };
          quiet = g.quiet ∙ w.quiet;
        })
