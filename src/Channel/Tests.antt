-- ===== src/Channel/Tests.antt =====
-- The theorems about masks and dispatch at concrete values.
use tcp_server.Base.{ℕ, ◌≡◌, true, none, some, List, [], ◌∷◌, ◌++◌}
use tcp_server.Channel.{Channel, Callbacks, handle_event, added}
use tcp_server.Channel.Dispatch.{handle_event_lem}

-- Callbacks that write down which of them ran.
abbrev logging : Callbacks (List ℕ)
logging = record {
  close = some (λ s. s ++ (1 ∷ []));
  error = none;
  read = some (λ s. s ++ (2 ∷ []));
  write = some (λ s. s ++ (3 ∷ []));
}

-- A channel that became readable and writable.
abbrev active : Channel
active = record { self = 1; fd = 7; events = 7; revents = 5; index = added; tied = true }

handle_event_lem_example : handle_event logging active true [] ≡ 2 ∷ 3 ∷ []
handle_event_lem_example = handle_event_lem logging active true []
