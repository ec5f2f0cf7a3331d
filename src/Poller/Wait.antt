-- ===== src/Poller/Wait.antt =====
-- src/EpollPoller.cpp: `poll` hands on every event that `epoll_wait` gave, and grows its array.
use tcp_server.Base.{
  ℕ, ◌≤◌, ◌<◌, ◌≡◌, sym, ◌∙◌, List, [], ◌∷◌, ◌++◌, length, map, append-nil, append_assoc, arith,
}
use tcp_server.Poller.{Epoll, Poller, Ready, ready, fill_active_channels, poll}

fill_active_channels_lem :
    (rs : List Ready) (active : List (ℕ × ℕ))
    → fill_active_channels rs active ≡ active ++ map (λ r. (r.self, r.events)) rs
unfolding fill_active_channels
fill_active_channels_lem [] active = sym (append-nil active)
fill_active_channels_lem (r ∷ rs) active =
    fill_active_channels_lem rs (active ++ ((r.self, r.events) ∷ []))
    ∙ append_assoc active ((r.self, r.events) ∷ []) (map (λ r. (r.self, r.events)) rs)

module _ {k : Epoll} where
  -- The active list gets each ready channel once, in the kernel's order and with the events that the
  -- kernel saw; and if the kernel keeps to the array that it is given, the array of the next call
  -- has room for more events than came in this one.
  pub poll-ready :
      (p : Poller k) (rs : List Ready) (active : List (ℕ × ℕ))
      → 0 < p.capacity
      → length rs ≤ p.capacity
      → ((poll p (ready rs) active).1 ≡ active ++ map (λ r. (r.self, r.events)) rs)
        × (length rs < (poll p (ready rs) active).0.capacity)
        × (p.capacity ≤ (poll p (ready rs) active).0.capacity)
  unfolding poll
  poll-ready p [] active h l = (sym (append-nil active), omega arith, omega arith)
  poll-ready p (r ∷ rs) active h l =
      (fill_active_channels_lem (r ∷ rs) active, ground arith, ground arith)
