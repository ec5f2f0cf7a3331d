-- ===== src/Poller.antt =====
-- include/Poller.hpp, src/Poller.cpp and src/EpollPoller.cpp: the channels that a loop watches, and
-- the kernel's interest list, which `epoll_ctl` changes. The kernel is a parameter.
pub mod Sync
pub mod Lives
pub mod Wait
pub mod Tests
use Prim.Native.Nat.{◌*◌}
use tcp_server.Base.{
  ◌+◌, ℕ, ◌≡◌, ◌≢◌, Bool, true, false, Option, none, some, List, [], ◌∷◌, ◌++◌, if◌then◌else◌, ◌==◌,
  update, length, map,
}
use tcp_server.Channel.{Channel, Index, new, added, deleted, is_none_event, Wish, wished}

pub data Ctl : Type 0 where
  ctl_add ctl_mod ctl_del : Ctl

-- What `epoll_ctl` makes of the entry of its descriptor.
abbrev pub entry : Ctl → ℕ → Option ℕ
entry ctl_add events = some events
entry ctl_mod events = some events
entry ctl_del events = none

-- Whether the operation fits the entry: EEXIST and ENOENT otherwise.
abbrev pub fits : Ctl → Option ℕ → Bool
fits ctl_add none = true
fits ctl_add (some _) = false
fits _ none = false
fits _ (some _) = true

-- epoll(7), as far as the poller relies on it. `interest` is the mask that a descriptor is watched
-- for; `ctl` says whether the call returned 0.
pub record Epoll : Type 1 where
  pub State : Type 0
  pub ctl : Ctl → ℕ → ℕ → State → State × Bool
  pub interest : State → ℕ → Option ℕ
  pub ctl_done :
      (op : Ctl) (fd events : ℕ) (s : State)
      → fits op (interest s fd) ≡ true
      → ((ctl op fd events s).1 ≡ true)
        × ((j : ℕ) → interest (ctl op fd events s).0 j ≡ update (interest s) fd (entry op events) j)
  pub ctl_refused :
      (op : Ctl) (fd events : ℕ) (s : State)
      → fits op (interest s fd) ≡ false
      → ((ctl op fd events s).1 ≡ false)
        × ((j : ℕ) → interest (ctl op fd events s).0 j ≡ interest s j)

-- What epoll_wait gives: a channel's address and the events that it is ready for.
pub record Ready : Type 0 where
  pub self : ℕ
  pub events : ℕ

pub data Waited : Type 0 where
  ready : List Ready → Waited
  timeout : Waited
  interrupted : ℕ → Waited

-- `fillActiveChannels`: the list of active channels, each with the `revents` that it is given.
fill_active_channels : List Ready → List (ℕ × ℕ) → List (ℕ × ℕ)
fill_active_channels [] active = active
fill_active_channels (r ∷ rs) active = fill_active_channels rs (active ++ ((r.self, r.events) ∷ []))

-- `it != channels_.end() && it->second == channel`
abbrev points_to : Option ℕ → ℕ → Bool
points_to none self = false
points_to (some other) self = other == self

module _ (k : Epoll) where
  -- `capacity` is `events_.size()`; `failed` counts the log lines about a refused `epoll_ctl`.
  pub record Poller : Type 0 where
    pub channels : ℕ → Option ℕ
    pub epoll : k.State
    pub capacity : ℕ
    pub failed : ℕ

module _ {k : Epoll} where
  ctl_update : Ctl → Channel → Poller k → Poller k
  ctl_update op c p =
      let (s, done) = k.ctl op c.fd c.events p.epoll in
      record p { epoll = s; failed = if done then p.failed else p.failed + 1 }

  register : Channel → Poller k → Poller k
  register c p = record p { channels = update p.channels c.fd (some c.self) }

  add_channel : Poller k → Channel → Poller k × Channel
  add_channel p c = let c' = record c { index = added } in (ctl_update ctl_add c' p, c')

  modify_channel : Poller k → Channel → Poller k × Channel
  modify_channel p c =
      if is_none_event c
      then (ctl_update ctl_del c p, record c { index = deleted })
      else (ctl_update ctl_mod c p, c)

  update_at : Index → Poller k → Channel → Poller k × Channel
  update_at new p c = add_channel (register c p) c
  update_at deleted p c = add_channel p c
  update_at added p c = modify_channel p c

  -- `EpollPoller::updateChannel`
  pub update_channel : Poller k → Channel → Poller k × Channel
  update_channel p c = update_at c.index p c

  drop_watch : Index → Channel → Poller k → Poller k
  drop_watch added c p = ctl_update ctl_del c p
  drop_watch _ c p = p

  -- `EpollPoller::removeChannel`
  pub remove_channel : Poller k → Channel → Poller k × Channel
  remove_channel p c = (
    drop_watch c.index c (record p { channels = update p.channels c.fd none }),
    record c { index = new },
  )

  -- `Poller::hasChannel`
  pub has_channel : Poller k → Channel → Bool
  has_channel p c = points_to (p.channels c.fd) c.self

  -- `Channel::enableReading` and its like: change the mask, then `update()`.
  unfoldable pub set_events : Wish → Poller k → Channel → Poller k × Channel
  set_events w p c = update_channel p (record c { events = wished w c.events })

  -- `EpollPoller::poll`
  pub poll : Poller k → Waited → List (ℕ × ℕ) → Poller k × List (ℕ × ℕ)
  poll p (ready []) active = (p, active)
  poll p (ready (r ∷ rs)) active = (
    if length (r ∷ rs) == p.capacity then record p { capacity = p.capacity * 2 } else p,
    fill_active_channels (r ∷ rs) active,
  )
  poll p timeout active = (p, active)
  poll p (interrupted errno) active = (p, active)

abbrev pub init_event_list_size : ℕ
init_event_list_size = 16

-- A poller over a fresh epoll instance.
unfoldable pub fresh_poller : (k : Epoll) → k.State → Poller k
fresh_poller k s = record {
  channels = λ j. none;
  epoll = s;
  capacity = init_event_list_size;
  failed = 0;
}
