-- ===== src/LoopThread/Handshake.antt =====
-- src/EventLoopThread.cpp: the states of `startLoop` and of the destructor.
use tcp_server.LoopThread.{
  Inside, Owner, EventLoopThread, new_event_loop_thread, init_thread, destroy, unborn, made, told,
  published, looping, left, ended, idle, waiting, holding, joining, over,
}
use tcp_server.LoopThread.Steps.{
  Step, starts, tells, publishes, gets, enters, leaves, clears, quits, destroys, drops, joins,
  Reach, here, next, Steps, done, more,
}
use tcp_server.Base.{
  ℕ, ◌+◌, ◌≡◌, refl, sym, subst, ◌≢◌, inl, inr, Bool, true, false, arith, if◌then◌else◌, Bool-cases,
  if_true, if_false,
}

-- How often the callback has been called, by where the thread is.
abbrev pub Told : Inside → Bool → ℕ → Type 0
Told unborn has_callback n = n ≡ 0
Told made has_callback n = n ≡ 0
Told _ has_callback n = n ≡ (if has_callback then 1 else 0)

-- The pointer is not null exactly while the loop is there for others.
abbrev pub Shown : Inside → Bool → Type 0
Shown published shown = shown ≡ true
Shown looping shown = shown ≡ true
Shown left shown = shown ≡ true
Shown _ shown = shown ≡ false

-- Whoever has the loop got it after it was published.
abbrev pub Held : Owner → Inside → Type 0
Held idle inside = inside ≡ unborn
Held waiting inside = inside ≢ unborn
Held over inside = Unit {0}
Held _ inside = (inside ≢ unborn) × (inside ≢ made) × (inside ≢ told)

record Inv (has_callback : Bool) (s : EventLoopThread) : Type 0 where
  callback : s.has_callback ≡ has_callback
  told_once : Told s.inside has_callback s.init_calls
  shown : Shown s.inside s.loop_
  held : Held s.owner s.inside

start-Inv : (b : Bool) → Inv b (new_event_loop_thread b)
unfolding new_event_loop_thread
start-Inv b = record { callback = refl; told_once = refl; shown = refl; held = refl }

-- A thread goes on from one place to another.
moved :
    (o : Owner) (p q : Inside)
    → p ≢ unborn
    → q ≢ unborn
    → q ≢ made
    → (q ≡ told → p ≡ made)
    → Held o p
    → Held o q
moved idle p q a b c d h = absurd (a h)
moved waiting p q a b c d h = b
moved over p q a b c d h = tt
moved holding p q a b c d h = (b, c, λ e. h.1 (d e))
moved joining p q a b c d h = (b, c, λ e. h.1 (d e))

from_made : (p : Inside) (b : Bool) (n : ℕ) → p ≡ made → Told p b n → n ≡ 0
from_made p b n e h = subst (λ z. Told z b n) e h

counted : (c b : Bool) (n : ℕ) → c ≡ b → n ≡ 0 → (if c then n + 1 else n) ≡ (if b then 1 else 0)
counted true true n e h = omega arith
counted true false n e h = cc e
counted false true n e h = cc e
counted false false n e h = h

Shown-past : (p : Inside) → Shown p true → Held holding p
Shown-past unborn h = cc h
Shown-past made h = cc h
Shown-past told h = cc h
Shown-past published h = (λ x. cc x, λ x. cc x, λ x. cc x)
Shown-past looping h = (λ x. cc x, λ x. cc x, λ x. cc x)
Shown-past left h = (λ x. cc x, λ x. cc x, λ x. cc x)
Shown-past ended h = cc h

destroy-Inv : (b : Bool) (s : EventLoopThread) → Inv b s → Inv b (destroy s)
unfolding destroy
destroy-Inv b s v = elim (Bool-cases s.loop_) [
  | inl e ↦
      subst (λ z. Inv b z) (sym (if_true s.loop_ _ _ e))
        (record {
          callback = v.callback;
          told_once = v.told_once;
          shown = v.shown;
          held = Shown-past s.inside (subst (λ z. Shown s.inside z) e v.shown);
        })
  | inr e ↦
      subst (λ z. Inv b z) (sym (if_false s.loop_ _ _ e))
        (record { callback = v.callback; told_once = v.told_once; shown = v.shown; held = tt })
]

Step-Inv : (b : Bool) {s t : EventLoopThread} → Step s t → Inv b s → Inv b t
unfolding init_thread destroy
Step-Inv b (starts s e) v =
    let first : s.inside ≡ unborn = subst (λ z. Held z s.inside) e v.held in
    record {
      callback = v.callback;
      told_once = subst (λ z. Told z b s.init_calls) first v.told_once;
      shown = subst (λ z. Shown z s.loop_) first v.shown;
      held = λ x. cc x;
    }
Step-Inv b (tells s e) v = record {
  callback = v.callback;
  told_once =
      counted s.has_callback b s.init_calls v.callback
        (from_made s.inside b s.init_calls e v.told_once);
  shown = subst (λ z. Shown z s.loop_) e v.shown;
  held = moved s.owner s.inside told (λ x. cc (e, x)) (λ x. cc x) (λ x. cc x) (λ x. e) v.held;
}
Step-Inv b (publishes s e) v = record {
  callback = v.callback;
  told_once = subst (λ z. Told z b s.init_calls) e v.told_once;
  shown = refl;
  held =
      moved s.owner s.inside published (λ x. cc (e, x)) (λ x. cc x) (λ x. cc x) (λ x. cc x) v.held;
}
Step-Inv b (gets s e f) v = record {
  callback = v.callback;
  told_once = v.told_once;
  shown = v.shown;
  held = Shown-past s.inside (subst (λ z. Shown s.inside z) f v.shown);
}
Step-Inv b (enters s e) v = record {
  callback = v.callback;
  told_once = subst (λ z. Told z b s.init_calls) e v.told_once;
  shown = subst (λ z. Shown z s.loop_) e v.shown;
  held = moved s.owner s.inside looping (λ x. cc (e, x)) (λ x. cc x) (λ x. cc x) (λ x. cc x) v.held;
}
Step-Inv b (leaves s e f) v = record {
  callback = v.callback;
  told_once = subst (λ z. Told z b s.init_calls) e v.told_once;
  shown = subst (λ z. Shown z s.loop_) e v.shown;
  held = moved s.owner s.inside left (λ x. cc (e, x)) (λ x. cc x) (λ x. cc x) (λ x. cc x) v.held;
}
Step-Inv b (clears s e) v = record {
  callback = v.callback;
  told_once = subst (λ z. Told z b s.init_calls) e v.told_once;
  shown = refl;
  held = moved s.owner s.inside ended (λ x. cc (e, x)) (λ x. cc x) (λ x. cc x) (λ x. cc x) v.held;
}
Step-Inv b (quits s e) v = record {
  callback = v.callback;
  told_once = v.told_once;
  shown = v.shown;
  held = v.held;
}
Step-Inv b (destroys s e) v = destroy-Inv b s v
Step-Inv b (drops s e) v = destroy-Inv b s v
Step-Inv b (joins s e f) v = record {
  callback = v.callback;
  told_once = v.told_once;
  shown = v.shown;
  held = tt;
}

Reach-Inv : (b : Bool) {s : EventLoopThread} → Reach b s → Inv b s
Reach-Inv b here = start-Inv b
Reach-Inv b (next r t) = Step-Inv b t (Reach-Inv b r)

past_callback :
    (p : Inside) (b : Bool) (n : ℕ) → Held holding p → Told p b n → n ≡ (if b then 1 else 0)
past_callback unborn b n h t = absurd (h.0 refl)
past_callback made b n h t = absurd (h.1 refl)
past_callback told b n h t = absurd (h.2 refl)
past_callback published b n h t = t
past_callback looping b n h t = t
past_callback left b n h t = t
past_callback ended b n h t = t

-- When `startLoop` has returned, and until the destructor is called, the new thread has called the
-- callback exactly once, if there is one, and has published its loop.
pub start_loop_returns :
    (b : Bool) (s : EventLoopThread)
    → Reach b s
    → s.owner ≡ holding
    → (s.init_calls ≡ (if b then 1 else 0))
      × (s.inside ≢ unborn)
      × (s.inside ≢ made)
      × (s.inside ≢ told)
start_loop_returns b s r e =
    let v = Reach-Inv b r in
    let h : Held holding s.inside = subst (λ z. Held z s.inside) e v.held in
    (past_callback s.inside b s.init_calls h v.told_once, h.0, h.1, h.2)

-- The destructor waits for a thread whose loop has forgotten the `quit`.
pub record Stuck (s : EventLoopThread) : Type 0 where
  pub owner : s.owner ≡ joining
  pub inside : s.inside ≡ looping
  pub quit : s.quit ≡ false

Stuck-Step : {s t : EventLoopThread} → Step s t → Stuck s → Stuck t
Stuck-Step (starts s e) k = cc (e, k.owner)
Stuck-Step (tells s e) k = cc (e, k.inside)
Stuck-Step (publishes s e) k = cc (e, k.inside)
Stuck-Step (gets s e f) k = cc (e, k.owner)
Stuck-Step (enters s e) k = cc (e, k.inside)
Stuck-Step (leaves s e f) k = cc (f, k.quit)
Stuck-Step (clears s e) k = cc (e, k.inside)
Stuck-Step (quits s e) k = cc (e, k.owner)
Stuck-Step (destroys s e) k = cc (e, k.owner)
Stuck-Step (drops s e) k = cc (e, k.owner)
Stuck-Step (joins s e f) k = cc (f, k.inside)

Stuck-Steps : {s t : EventLoopThread} → Steps s t → Stuck s → Stuck t
Stuck-Steps (done s) k = k
Stuck-Steps (more r x) k = Stuck-Step x (Stuck-Steps r k)

-- The destructor has run after `startLoop` and before the new thread was in `loop`.
abbrev pub hung : Bool → EventLoopThread
hung b = record {
  loop_ = true;
  exiting = true;
  quit = false;
  has_callback = b;
  init_calls = if b then 0 + 1 else 0;
  inside = looping;
  owner = joining;
}

-- A destructor that runs after `startLoop` and before the new thread is in `loop` never returns: there
-- is a run to that state, and whatever steps follow, the destructor still waits in `join` and the loop
-- still runs.
pub destructor_hangs :
    (b : Bool) (t : EventLoopThread)
    → Steps (hung b) t
    → Reach b (hung b) × (t.owner ≡ joining) × (t.inside ≡ looping)
unfolding new_event_loop_thread init_thread destroy
destructor_hangs b t x =
    let r : Reach b (hung b) =
      next
        (next
          (next (next (next (next here (starts _ refl)) (tells _ refl)) (publishes _ refl))
            (gets _ refl refl))
          (destroys _ refl))
        (enters _ refl) in
    let z = Stuck-Steps x (record { owner = refl; inside = refl; quit = refl }) in
    (r, z.owner, z.inside)
