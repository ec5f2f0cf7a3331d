-- ===== src/Channel.antt =====
-- include/Channel.hpp and src/Channel.cpp: a descriptor with the events that it waits for, and the
-- dispatch of the events that came. An event mask is the bit pattern of an `int`.
pub mod Dispatch
pub mod Masks
mod Tests
use Prim.Native.Nat.{bit_and, bit_or}
use tcp_server.Base.{
  ℕ, ◌-◌, ◌^◌, Bool, true, false, not, ◌&&◌, Option, none, some, if◌then◌else◌, ◌==◌,
}

-- The EPOLL… constants of <sys/epoll.h>.
abbrev pub epollin : ℕ
epollin = 1

abbrev pub epollpri : ℕ
epollpri = 2

abbrev pub epollout : ℕ
epollout = 4

abbrev pub epollerr : ℕ
epollerr = 8

abbrev pub epollhup : ℕ
epollhup = 16

abbrev pub none_event : ℕ
none_event = 0

abbrev pub read_event : ℕ
read_event = bit_or epollin epollpri

abbrev pub write_event : ℕ
write_event = epollout

-- `index_`: NEW, ADDED and DELETED of EpollPoller.cpp.
pub data Index : Type 0 where
  new added deleted : Index

-- `self` stands for the address of the channel.
pub record Channel : Type 0 where
  pub self : ℕ
  pub fd : ℕ
  pub events : ℕ
  pub revents : ℕ
  pub index : Index
  pub tied : Bool

unfoldable pub fresh_channel : ℕ → ℕ → Channel
fresh_channel self fd = record {
  self = self;
  fd = fd;
  events = none_event;
  revents = 0;
  index = new;
  tied = false;
}

-- `events & mask` as a condition.
abbrev pub has : ℕ → ℕ → Bool
has events mask = not (bit_and events mask == 0)

-- `~mask` of a 32-bit `int`
abbrev complement : ℕ → ℕ
complement mask = 2 ^ 32 - 1 - mask

unfoldable pub is_none_event : Channel → Bool
is_none_event c = c.events == none_event

unfoldable pub is_writing : Channel → Bool
is_writing c = has c.events write_event

unfoldable pub is_reading : Channel → Bool
is_reading c = has c.events read_event

unfoldable pub tie : Channel → Channel
tie c = record c { tied = true }

-- What the five setters do to `events_`, before they call `update()`.
pub data Wish : Type 0 where
  reading no_reading writing no_writing nothing : Wish

unfoldable pub wished : Wish → ℕ → ℕ
wished reading e = bit_or e read_event
wished no_reading e = bit_and e (complement read_event)
wished writing e = bit_or e write_event
wished no_writing e = bit_and e (complement write_event)
wished nothing e = bit_and e none_event

-- The callbacks change the state `S` of what owns the channel; `none` is an empty `std::function`.
pub record Callbacks (S : Type 0) : Type 0 where
  pub close : Option (S → S)
  pub error : Option (S → S)
  pub read : Option (S → S)
  pub write : Option (S → S)

abbrev call {ℓ} : {S : Type ℓ} → Option (S → S) → S → S
call none s = s
call (some f) s = f s

abbrev call_if {ℓ} : {S : Type ℓ} → Bool → Option (S → S) → S → S
call_if b f s = if b then call f s else s

module _ {S : Type 0} (cb : Callbacks S) where
  pub handle_event_with_guard : ℕ → S → S
  handle_event_with_guard revents s =
      let s1 = call_if (has revents epollhup && not (has revents epollin)) cb.close s in
      let s2 = call_if (has revents epollerr) cb.error s1 in
      let s3 = call_if (has revents read_event) cb.read s2 in
      call_if (has revents write_event) cb.write s3

  -- `alive` says whether `tie_.lock()` gives an object.
  pub handle_event : Channel → Bool → S → S
  handle_event c alive s =
      if c.tied
      then (if alive then handle_event_with_guard c.revents s else s)
      else handle_event_with_guard c.revents s
