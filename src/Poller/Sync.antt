-- ===== src/Poller/Sync.antt =====
-- src/EpollPoller.cpp: the poller's list, the kernel's interest list and the channel's own index
-- agree.
use tcp_server.Base.{
  ℕ, ◌≡◌, ◌≢◌, refl, true, false, Option, none, some, if◌then◌else◌, ◌==◌, update, inl, inr,
  Bool-cases, ◌∙◌, update_self, update_ne, sym, ==_refl, Bool, ap,
}
use tcp_server.Channel.{Channel, Index, new, added, deleted, is_none_event}
use tcp_server.Poller.{
  Epoll, Poller, Ctl, ctl_add, ctl_mod, ctl_del, entry, fits, update_channel, remove_channel,
  has_channel, ctl_update, register, add_channel, modify_channel, update_at, drop_watch, points_to,
}

abbrev pub listed : Index → ℕ → Option ℕ
listed new self = none
listed _ self = some self

abbrev pub watched : Index → ℕ → Option ℕ
watched added events = some events
watched _ events = none

-- Where an update leaves the channel: it stays watched, unless it was and waits for nothing now.
abbrev pub landed : Index → ℕ → Index
landed added e = if e == 0 then deleted else added
landed _ e = added

abbrev pub known : Index → Bool
known new = false
known _ = true

points_to-listed : (i : Index) (self : ℕ) → points_to (listed i self) self ≡ known i
points_to-listed new self = refl
points_to-listed added self = ==_refl self
points_to-listed deleted self = ==_refl self

module _ {k : Epoll} where
  -- What the channel's index says is what the two lists hold of its descriptor.
  pub record Synced (p : Poller k) (c : Channel) : Type 0 where
    pub in_list : p.channels c.fd ≡ listed c.index c.self
    pub in_epoll : k.interest p.epoll c.fd ≡ watched c.index c.events

  -- Other descriptors keep their entries.
  pub record Others (fd : ℕ) (p q : Poller k) : Type 0 where
    pub channels : (j : ℕ) → j ≢ fd → q.channels j ≡ p.channels j
    pub interest : (j : ℕ) → j ≢ fd → k.interest q.epoll j ≡ k.interest p.epoll j

  ctl_update_lem :
      (op : Ctl) (c : Channel) (p : Poller k)
      → fits op (k.interest p.epoll c.fd) ≡ true
      → (k.interest (ctl_update op c p).epoll c.fd ≡ entry op c.events)
        × ((ctl_update op c p).failed ≡ p.failed)
        × Others c.fd p (ctl_update op c p)
  unfolding ctl_update
  ctl_update_lem op c p h =
      let d = k.ctl_done op c.fd c.events p.epoll h in
      (
        d.1 c.fd ∙ update_self (k.interest p.epoll) c.fd (entry op c.events),
        rw d.0,
        record {
          channels = λ j n. refl;
          interest = λ j n. d.1 j ∙ update_ne (k.interest p.epoll) c.fd j (entry op c.events) n;
        },
      )

  pub record Updated (p : Poller k) (c : Channel) (e : ℕ) (r : Poller k × Channel) : Type 0 where
    pub synced : Synced r.0 r.1
    pub others : Others c.fd p r.0
    pub quiet : r.0.failed ≡ p.failed
    pub channel : r.1 ≡ record c { index = landed c.index e; events = e }

  update_at-Updated :
      (i : Index) (p : Poller k) (c : Channel) (e : ℕ)
      → c.index ≡ i
      → Synced p c
      → Updated p c e (update_at i p (record c { events = e }))
  unfolding update_at add_channel register ctl_update modify_channel is_none_event
  update_at-Updated new p c e x s =
      let c' : Channel = record c { index = added; events = e } in
      let q : Poller k = record p { channels = update p.channels c.fd (some c.self) } in
      let l = ctl_update_lem ctl_add c' q (rw (s.in_epoll, x)) in
      record {
        synced = record { in_list = update_self p.channels c.fd (some c.self); in_epoll = l.0 };
        others = record {
          channels = λ j n. l.2.channels j n ∙ update_ne p.channels c.fd j (some c.self) n;
          interest = λ j n. l.2.interest j n;
        };
        quiet = l.1;
        channel = rw x;
      }
  update_at-Updated deleted p c e x s =
      let l =
        ctl_update_lem ctl_add (record c { index = added; events = e }) p (rw (s.in_epoll, x)) in
      record {
        synced = record { in_list = s.in_list ∙ rw x; in_epoll = l.0 };
        others = l.2;
        quiet = l.1;
        channel = rw x;
      }
  update_at-Updated added p c e x s = elim (Bool-cases (e == 0)) [
    | inl idle ↦
        let l = ctl_update_lem ctl_del (record c { events = e }) p (rw (s.in_epoll, x)) in
        rw idle (record {
          synced = record { in_list = s.in_list ∙ rw x; in_epoll = l.0 };
          others = l.2;
          quiet = l.1;
          channel = rw (x, idle);
        })
    | inr busy ↦
        let l = ctl_update_lem ctl_mod (record c { events = e }) p (rw (s.in_epoll, x)) in
        rw busy (record {
          synced = record { in_list = s.in_list; in_epoll = l.0 ∙ sym (rw x) };
          others = l.2;
          quiet = l.1;
          channel = rw (x, busy);
        })
  ]

  -- After `updateChannel` on a channel whose index is right, whatever its new mask: the index is
  -- right again, the kernel watches the descriptor for exactly that mask (or not at all, if it was
  -- watched and waits for nothing now), no other descriptor is touched, and no `epoll_ctl` fails.
  pub update_channel-Updated :
      (p : Poller k) (c : Channel) (e : ℕ)
      → Synced p c
      → Updated p c e (update_channel p (record c { events = e }))
  unfolding update_channel
  update_channel-Updated p c e s = update_at-Updated c.index p c e refl s

  pub record Removed (p : Poller k) (c : Channel) (r : Poller k × Channel) : Type 0 where
    pub gone : r.0.channels c.fd ≡ none
    pub unwatched : k.interest r.0.epoll c.fd ≡ none
    pub others : Others c.fd p r.0
    pub quiet : r.0.failed ≡ p.failed
    pub channel : r.1 ≡ record c { index = new }

  drop_watch-Removed :
      (i : Index) (p : Poller k) (c : Channel)
      → c.index ≡ i
      → Synced p c
      → Removed p c (
        drop_watch i c (record p { channels = update p.channels c.fd none }),
        record c { index = new },
      )
  unfolding drop_watch ctl_update
  drop_watch-Removed new p c x s = record {
    gone = update_self p.channels c.fd none;
    unwatched = s.in_epoll ∙ rw x;
    others = record {
      channels = λ j n. update_ne p.channels c.fd j none n;
      interest = λ j n. refl;
    };
    quiet = refl;
    channel = refl;
  }
  drop_watch-Removed deleted p c x s = record {
    gone = update_self p.channels c.fd none;
    unwatched = s.in_epoll ∙ rw x;
    others = record {
      channels = λ j n. update_ne p.channels c.fd j none n;
      interest = λ j n. refl;
    };
    quiet = refl;
    channel = refl;
  }
  drop_watch-Removed added p c x s =
      let q : Poller k = record p { channels = update p.channels c.fd none } in
      let l = ctl_update_lem ctl_del c q (rw (s.in_epoll, x)) in
      record {
        gone = update_self p.channels c.fd none;
        unwatched = l.0;
        others = record {
          channels = λ j n. update_ne p.channels c.fd j none n;
          interest = λ j n. l.2.interest j n;
        };
        quiet = l.1;
        channel = refl;
      }

  -- After `removeChannel` on a channel whose index is right, neither list holds the descriptor, no
  -- other descriptor is touched, no `epoll_ctl` fails, and the channel can be added again.
  pub remove_channel-Removed :
      (p : Poller k) (c : Channel) → Synced p c → Removed p c (remove_channel p c)
  unfolding remove_channel
  remove_channel-Removed p c s = drop_watch-Removed c.index p c refl s

  -- `hasChannel` says whether the channel was added and not removed since.
  pub has_channel_lem : (p : Poller k) (c : Channel) → Synced p c → has_channel p c ≡ known c.index
  unfolding has_channel
  has_channel_lem p c s = ap (λ o. points_to o c.self) s.in_list ∙ points_to-listed c.index c.self
