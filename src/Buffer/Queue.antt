-- ===== src/Buffer/Queue.antt =====
-- include/Buffer.hpp and src/Buffer.cpp: the buffer is a queue of bytes.
use tcp_server.Base.{
  ℕ, ◌≤◌, ◌≡◌, refl, ap, ap₂, ◌∙◌, List, [], ◌∷◌, ◌++◌, arith, length, take, drop,
}
use tcp_server.Buffer.{
  Buffer, retrieve, retrieve_as_string, retrieve_all_as_string, append, got, read_fd,
}
use tcp_server.Buffer.Layout.{
  IsValid, contents, Fits, length-contents, retrieve-IsValid, append-IsValid,
}
use tcp_server.Buffer.Fifo.{
  contents-append, contents-retrieve, retrieve_as_string_lem, retrieve_all_as_string_lem,
  read_fd_lem,
}

-- What the code does with a buffer; `takes` is `retrieveAsString`, `takes_all` `retrieveAllAsString`.
pub data Op : Type 0 where
  appends : List ℕ → Op
  reads : List ℕ → Op
  retrieves : ℕ → Op
  takes : ℕ → Op
  takes_all : Op

-- The buffer after an operation, with the bytes that the operation hands over.
pub perform : Buffer → Op → Buffer × List ℕ
perform b (appends src) = (append b src, [])
perform b (reads xs) = ((read_fd b (got xs)).1, [])
perform b (retrieves n) = (retrieve b n, [])
perform b (takes n) = let (xs, c) = retrieve_as_string b n in (c, xs)
perform b takes_all = let (xs, c) = retrieve_all_as_string b in (c, xs)

pub perform_all : Buffer → List Op → Buffer × List ℕ
perform_all b [] = (b, [])
perform_all b (o ∷ os) =
    let (c, xs) = perform b o in let (d, ys) = perform_all c os in (d, xs ++ ys)

-- The same on a queue of bytes.
abbrev pub on_queue : List ℕ → Op → List ℕ × List ℕ
on_queue q (appends src) = (q ++ src, [])
on_queue q (reads xs) = (q ++ xs, [])
on_queue q (retrieves n) = (drop n q, [])
on_queue q (takes n) = (drop n q, take n q)
on_queue q takes_all = ([], q)

abbrev pub all_on_queue : List ℕ → List Op → List ℕ × List ℕ
all_on_queue q [] = (q, [])
all_on_queue q (o ∷ os) =
    ((all_on_queue (on_queue q o).0 os).0, (on_queue q o).1 ++ (all_on_queue (on_queue q o).0 os).1)

-- What is added fits in memory, and no more is taken than there is.
abbrev pub Allowed : Buffer → Op → Type 0
Allowed b (appends src) = Fits b (length src)
Allowed b (reads xs) = Fits b (length xs)
Allowed b (retrieves n) = Unit {0}
Allowed b (takes n) = n ≤ length (contents b)
Allowed b takes_all = Unit {0}

abbrev pub AllAllowed : Buffer → List Op → Type 0
AllAllowed b [] = Unit {0}
AllAllowed b (o ∷ os) = Allowed b o × AllAllowed (perform b o).0 os

perform_lem :
    (b : Buffer) (o : Op)
    → IsValid b
    → Allowed b o
    → IsValid (perform b o).0
      × ((contents (perform b o).0, (perform b o).1) ≡ on_queue (contents b) o)
unfolding perform retrieve_as_string retrieve_all_as_string
perform_lem b (appends src) v h =
    ((append-IsValid b src v h).0, ap (λ (q : List ℕ). (q, [])) (contents-append b src v h))
perform_lem b (reads xs) v h =
    let r = read_fd_lem b xs v h in (r.2, ap (λ (q : List ℕ). (q, [])) r.1)
perform_lem b (retrieves n) v h =
    (retrieve-IsValid b n v, ap (λ (q : List ℕ). (q, [])) (contents-retrieve b n v))
perform_lem b (takes n) v h =
    let r = retrieve_as_string_lem b n v (omega (arith, length-contents b v)) in
    (retrieve-IsValid b n v, ap₂ (λ (q xs : List ℕ). (q, xs)) r.1 r.0)
perform_lem b takes_all v h =
    let r = retrieve_all_as_string_lem b v in (r.2, ap₂ (λ (q xs : List ℕ). (q, xs)) r.1 r.0)

-- A buffer refines a queue of bytes: over any sequence of appends, reads, retrievals and takings that
-- fits in memory and takes no more than there is, the bytes handed over and the bytes left are those
-- of the queue, however the vector was compacted or grew, and the indices stay valid.
pub perform_all_lem :
    (b : Buffer) (os : List Op)
    → IsValid b
    → AllAllowed b os
    → IsValid (perform_all b os).0
      × ((contents (perform_all b os).0, (perform_all b os).1) ≡ all_on_queue (contents b) os)
unfolding perform_all
perform_all_lem b [] v h = (v, refl)
perform_all_lem b (o ∷ os) v h =
    let (valid, one) = perform_lem b o v h.0 in
    let (ends, rest) = perform_all_lem (perform b o).0 os valid h.1 in
    (
      ends,
      ap (λ (r : List ℕ × List ℕ). (r.0, (perform b o).1 ++ r.1)) rest
          ∙ ap (λ (p : List ℕ × List ℕ). ((all_on_queue p.0 os).0, p.1 ++ (all_on_queue p.0 os).1))
              one,
    )
