-- ===== src/LoopThread/Naming.antt =====
-- src/Thread.cpp, src/CurrentThread.cpp: the names of threads, their ends, and the cached number of a thread.
use tcp_server.LoopThread.{set_default_name, new_thread, tid}
use tcp_server.Base.{
  to_string, to_string_injective, ℕ, zero, suc, ◌+◌, ◌<◌, ◌≡◌, refl, sym, ap, ◌∙◌, false, some,
  List, [], ◌∷◌, ◌++◌, arith, ◌==◌, codes, get_elem?, drop, replicate, ◌≢◌,
}

-- One thread after another, with the names that were asked for.
abbrev pub new_threads : ℕ → List (List ℕ) → List (List ℕ)
new_threads num_created [] = []
new_threads num_created (n ∷ ns) =
    (new_thread num_created n).0.name ∷ new_threads (new_thread num_created n).1 ns

-- The name of the thread that is the `i`th of them.
new_threads_lem :
    (num_created : ℕ) (ns : List (List ℕ)) (i : ℕ)
    → get_elem? ns i ≡ some []
    → get_elem? (new_threads num_created ns) i
      ≡ some (codes "Thread" ++ to_string (num_created + i + 1))
unfolding new_thread set_default_name
new_threads_lem num_created [] i e = cc e
new_threads_lem num_created ([] ∷ ns) zero e =
    ap (λ n. some (codes "Thread" ++ to_string n)) (omega arith)
new_threads_lem num_created ((c ∷ cs) ∷ ns) zero e = cc e
new_threads_lem num_created ([] ∷ ns) (suc i) e =
    new_threads_lem (num_created + 1) ns i e
    ∙ ap (λ n. some (codes "Thread" ++ to_string n)) (omega arith)
new_threads_lem num_created ((c ∷ cs) ∷ ns) (suc i) e =
    new_threads_lem (num_created + 1) ns i e
    ∙ ap (λ n. some (codes "Thread" ++ to_string n)) (omega arith)

after_thread : (m n : ℕ) → codes "Thread" ++ to_string m ≡ codes "Thread" ++ to_string n → m ≡ n
after_thread m n e = to_string_injective m n (ap (drop 6) e)

-- Of threads that are created one after another, those that ask for no name get names that differ from
-- each other.
pub unnamed_differ :
    (num_created : ℕ) (ns : List (List ℕ)) (i j : ℕ)
    → get_elem? ns i ≡ some []
    → get_elem? ns j ≡ some []
    → i ≢ j
    → get_elem? (new_threads num_created ns) i ≢ get_elem? (new_threads num_created ns) j
unnamed_differ num_created ns i j e f d g =
    let same : some (codes "Thread" ++ to_string (num_created + i + 1))
        ≡ some (codes "Thread" ++ to_string (num_created + j + 1)) =
      sym (new_threads_lem num_created ns i e) ∙ g ∙ new_threads_lem num_created ns j f in
    d (omega (arith, after_thread (num_created + i + 1) (num_created + j + 1) (cc same)))

-- The calls of `tid` one after another: what they give, and how often the kernel was asked.
abbrev pub tids : ℕ → ℕ → ℕ → List ℕ × ℕ
tids gettid cached zero = ([], 0)
tids gettid cached (suc n) =
    let (id, cache, asked) = tid gettid cached in
    let (ids, more) = tids gettid cache n in (id ∷ ids, asked + more)

tids_cached : (g n : ℕ) → 0 < g → tids g g n ≡ (replicate n g, 0)
unfolding tid
tids_cached g zero h = refl
tids_cached g (suc n) h =
    let known : (g == 0) ≡ false = ground (arith, h) in rw (known, tids_cached g n h) refl

-- However often a thread asks for its number, it gets the kernel's, and the kernel is asked once.
pub tids_lem : (g n : ℕ) → 0 < g → tids g 0 (suc n) ≡ (replicate (suc n) g, 1)
unfolding tid
tids_lem g n h = rw (tids_cached g n h) refl
