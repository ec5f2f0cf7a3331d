-- ===== src/Poller/Tests.antt =====
-- A kernel with a table of interests, and the theorems about the poller at concrete values.
use tcp_server.Base.{
  ℕ, refl, Bool, true, false, Option, none, some, List, [], ◌∷◌, if◌then◌else◌, update,
}
use tcp_server.Channel.{Channel, added}
use tcp_server.Poller.{Ctl, entry, fits, Epoll, Ready, Poller, update_channel, remove_channel}
use tcp_server.Poller.Sync.{
  Synced, Updated, update_channel-Updated, Removed, remove_channel-Removed,
}

-- `epoll_ctl` on a table.
abbrev table_ctl : Ctl → ℕ → ℕ → (ℕ → Option ℕ) → (ℕ → Option ℕ) × Bool
table_ctl op fd events s =
    if fits op (s fd) then (update s fd (entry op events), true) else (s, false)

abbrev pub tables : Epoll
tables = record {
  State = ℕ → Option ℕ;
  ctl = table_ctl;
  interest = λ s. s;
  ctl_done = λ op fd events s h. rw h (refl, λ j. refl);
  ctl_refused = λ op fd events s h. rw h (refl, λ j. refl);
}

abbrev pub empty_poller : Poller tables
empty_poller = record { channels = λ j. none; epoll = λ j. none; capacity = 2; failed = 0 }

-- A poller that watches the descriptor 7 for input.
abbrev pub watching : Poller tables
watching = record {
  channels = update (λ j. none) 7 (some 1);
  epoll = update (λ j. none) 7 (some 3);
  capacity = 2;
  failed = 0;
}

abbrev watched_channel : Channel
watched_channel = record { self = 1; fd = 7; events = 3; revents = 0; index = added; tied = true }

watching-Synced : Synced watching watched_channel
watching-Synced = record { in_list = refl; in_epoll = refl }

update_channel-Updated_example :
    Updated watching watched_channel 7
      (update_channel watching (record watched_channel { events = 7 }))
update_channel-Updated_example = update_channel-Updated watching watched_channel 7 watching-Synced

remove_channel-Removed_example :
    Removed watching watched_channel (remove_channel watching watched_channel)
remove_channel-Removed_example = remove_channel-Removed watching watched_channel watching-Synced

abbrev both_ready : List Ready
both_ready = record { self = 1; events = 1 } ∷ record { self = 2; events = 4 } ∷ []
