-- ===== src/Worker/Clean.antt =====
-- log_system/logs_code/AsyncWorker.hpp: where the bytes and the waiting producers can be in each
-- phase of the worker's thread.
use tcp_server.Worker.{
  AsyncType, Phase, Worker, must_wait, async_safe, async_unsafe, waiting, handling, returned,
}
use tcp_server.Base.{ℕ, ◌≡◌, refl, sym, ◌∙◌, Bool, true, false, List, [], ◌∷◌, ◌++◌}

-- The worker's thread holds bytes only while it is at the callback.
abbrev pub Idle : Phase → List ℕ → Type 0
Idle waiting xs = xs ≡ []
Idle handling xs = Unit {0}
Idle returned xs = xs ≡ []

abbrev pub Over : Phase → Bool → Type 0
Over returned stop = stop ≡ true
Over _ stop = Unit {0}

-- An unsafe worker has no waiting producer, and leaves no byte behind.
abbrev pub Clean : AsyncType → Phase → List (List ℕ) → List ℕ → Type 0
Clean async_safe phase blocked xs = Unit {0}
Clean async_unsafe returned blocked xs = (blocked ≡ []) × (xs ≡ [])
Clean async_unsafe _ blocked xs = blocked ≡ []

-- While it is not stopped, a worker may have any bytes to come.
pub Clean-any :
    (a : AsyncType) (p : Phase) (stop : Bool) (blocked : List (List ℕ)) (xs ys : List ℕ)
    → Over p stop
    → stop ≡ false
    → Clean a p blocked xs
    → Clean a p blocked ys
Clean-any async_safe p stop blocked xs ys o e c = tt
Clean-any async_unsafe waiting stop blocked xs ys o e c = c
Clean-any async_unsafe handling stop blocked xs ys o e c = c
Clean-any async_unsafe returned stop blocked xs ys o e c = cc (o, e)

pub waits-Clean :
    (a : AsyncType) (p : Phase) (blocked more : List (List ℕ)) (xs src : List ℕ) (w : Worker)
    → w.async_type ≡ a
    → must_wait w src ≡ true
    → Clean a p blocked xs
    → Clean a p more xs
unfolding must_wait
waits-Clean async_safe p blocked more xs src w e h c = tt
waits-Clean async_unsafe p blocked more xs src w e h c = cc (rw e at h)

abbrev pub Free : AsyncType → List (List ℕ) → Type 0
Free async_safe blocked = Unit {0}
Free async_unsafe blocked = blocked ≡ []

pub free :
    (a : AsyncType) (p : Phase) (blocked : List (List ℕ)) (xs : List ℕ)
    → Clean a p blocked xs
    → Free a blocked
free async_safe p blocked xs c = tt
free async_unsafe waiting blocked xs c = c
free async_unsafe handling blocked xs c = c
free async_unsafe returned blocked xs c = c.0

pub Clean-waiting :
    (a : AsyncType) (blocked : List (List ℕ)) (xs : List ℕ)
    → Free a blocked
    → Clean a waiting blocked xs
Clean-waiting async_safe blocked xs f = tt
Clean-waiting async_unsafe blocked xs f = f

pub Clean-handling :
    (a : AsyncType) (blocked : List (List ℕ)) (xs : List ℕ)
    → Free a blocked
    → Clean a handling blocked xs
Clean-handling async_safe blocked xs f = tt
Clean-handling async_unsafe blocked xs f = f

pub Clean-returned :
    (a : AsyncType) (blocked : List (List ℕ)) (xs : List ℕ)
    → Free a blocked
    → xs ≡ []
    → Clean a returned blocked xs
Clean-returned async_safe blocked xs f e = tt
Clean-returned async_unsafe blocked xs f e = (f, e)

pub some_wait :
    {B : Type 0} (before after : List (List ℕ)) (src : List ℕ) → before ++ (src ∷ after) ≡ [] → B
some_wait [] after src e = cc e
some_wait (b ∷ bs) after src e = cc e

-- An unsafe worker has no waiting producer to wake.
pub Clean-woken :
    (a : AsyncType) (p : Phase) (blocked before after : List (List ℕ)) (src xs ys : List ℕ)
    → blocked ≡ before ++ (src ∷ after)
    → Clean a p blocked xs
    → Clean a p blocked ys × Clean a p (before ++ after) ys
Clean-woken async_safe p blocked before after src xs ys e c = (tt, tt)
Clean-woken async_unsafe p blocked before after src xs ys e c =
    some_wait before after src (sym e ∙ free async_unsafe p blocked xs c)

pub Over-stop : (p : Phase) → Over p true
Over-stop waiting = tt
Over-stop handling = tt
Over-stop returned = refl
