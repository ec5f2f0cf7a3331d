-- ===== src/Channel/Dispatch.antt =====
-- src/Channel.cpp: which callbacks an event mask leads to, and in which order.
use tcp_server.Base.{
  ℕ, Bool, true, false, not, ◌&&◌, List, [], ◌∷◌, Option, ◌≡◌, refl, if◌then◌else◌, Bool-cases, sym,
  inl, ◌∙◌, inr,
}
use tcp_server.Channel.{
  Channel, Callbacks, has, epollin, epollhup, epollerr, read_event, write_event,
  handle_event_with_guard, handle_event, call, call_if,
}

pub data Called : Type 0 where
  close error read write : Called

-- When each callback is due.
abbrev pub wants : ℕ → Called → Bool
wants revents close = has revents epollhup && not (has revents epollin)
wants revents error = has revents epollerr
wants revents read = has revents read_event
wants revents write = has revents write_event

abbrev pub keep : (Called → Bool) → List Called → List Called
keep p [] = []
keep p (x ∷ xs) = if p x then x ∷ keep p xs else keep p xs

-- The callbacks that are due, in the order in which they run.
abbrev pub due : ℕ → List Called
due revents = keep (wants revents) (close ∷ error ∷ read ∷ write ∷ [])

module _ {S : Type 0} (cb : Callbacks S) where
  abbrev pub slot : Called → Option (S → S)
  slot close = cb.close
  slot error = cb.error
  slot read = cb.read
  slot write = cb.write

  abbrev pub run_all : List Called → S → S
  run_all [] s = s
  run_all (x ∷ xs) s = run_all xs (call (slot x) s)

  call_if-run_all :
      (p : Called → Bool) (x : Called) (xs : List Called) (s : S)
      → run_all (keep p (x ∷ xs)) s ≡ run_all (keep p xs) (call_if (p x) (slot x) s)
  call_if-run_all p x xs s = elim (Bool-cases (p x)) [ inl e ↦ rw e | inr e ↦ rw e ]

  due_lem : (p : ℕ) (s : S) → handle_event_with_guard cb p s ≡ run_all (due p) s
  unfolding handle_event_with_guard
  due_lem p s = sym (
      call_if-run_all (wants p) close (error ∷ read ∷ write ∷ []) s
      ∙ call_if-run_all (wants p) error (read ∷ write ∷ []) _
      ∙ call_if-run_all (wants p) read (write ∷ []) _
      ∙ call_if-run_all (wants p) write [] _)

  guard_lem :
      (t alive : Bool) (r : ℕ) (s : S)
      → (if t
          then (if alive then handle_event_with_guard cb r s else s)
          else handle_event_with_guard cb r s)
        ≡ run_all (if t && not alive then [] else due r) s
  guard_lem true true r s = due_lem r s
  guard_lem true false r s = refl
  guard_lem false alive r s = due_lem r s

  -- `handleEvent` runs each callback that is due once, in the order close, error, read, write, each
  -- on the state that the one before left; none at all if the channel is tied to an object that has
  -- gone.
  pub handle_event_lem :
      (c : Channel) (alive : Bool) (s : S)
      → handle_event cb c alive s ≡ run_all (if c.tied && not alive then [] else due c.revents) s
  unfolding handle_event
  handle_event_lem c alive s = guard_lem c.tied alive c.revents s
