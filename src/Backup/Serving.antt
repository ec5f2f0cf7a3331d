-- ===== src/Backup/Serving.antt =====
-- log_system/logs_code/backlog/ServerBackuplog.hpp: what the file has got and where the clients are.
use tcp_server.Backup.{buf_size, c_string, backup_log, received, keep}
use tcp_server.Base.{
  ltb, tally, tally-append, ℕ, ◌+◌, ◌≡◌, refl, sym, ap, ◌∙◌, inl, inr, Bool, true, false, Option,
  none, some, List, [], ◌∷◌, ◌++◌, append-nil, append_assoc, arith, Bool-cases, if_true, if_false,
  length,
}
use tcp_server.Backup.Steps.{
  ThreadData, BackupServer, accept_round, client_info, after_read, after_write, end_routine, Step,
  Reach, accepts, reads, writes, ends, here, next,
}

-- What the file gets for the messages, one after another.
abbrev pub lines : List (ThreadData × List ℕ) → List ℕ
lines [] = []
lines ((td, got) ∷ es) = (client_info td ++ c_string got) ++ lines es

abbrev pub clients : List (ThreadData × List ℕ) → List ThreadData
clients [] = []
clients ((td, got) ∷ es) = td ∷ clients es

lines-append : (xs ys : List (ThreadData × List ℕ)) → lines (xs ++ ys) ≡ lines xs ++ lines ys
lines-append [] ys = refl
lines-append ((td, got) ∷ xs) ys =
    ap (◌++◌ (client_info td ++ c_string got)) (lines-append xs ys)
    ∙ sym (append_assoc (client_info td ++ c_string got) (lines xs) (lines ys))

tally-clients :
    (p : ThreadData → Bool) (xs ys : List (ThreadData × List ℕ))
    → tally p (clients (xs ++ ys)) ≡ tally p (clients xs) + tally p (clients ys)
tally-clients p [] ys = omega arith
tally-clients p ((td, got) ∷ xs) ys = omega (arith, tally-clients p xs ys)

taken {ℓ} :
    {A : Type ℓ} (p : A → Bool) (xs before after : List A) (x : A)
    → xs ≡ before ++ (x ∷ after)
    → tally p xs ≡ tally p (before ++ after) + tally p (x ∷ [])
taken p xs before after x e =
    omega (arith, ap (tally p) e, tally-append p before (x ∷ after), tally-append p before after)

taken_client :
    (p : ThreadData → Bool) (xs before after : List (ThreadData × List ℕ)) (td : ThreadData)
    (got : List ℕ)
    → xs ≡ before ++ ((td, got) ∷ after)
    → tally p (clients xs) ≡ tally p (clients (before ++ after)) + tally p (td ∷ [])
taken_client p xs before after td got e = omega (
  arith,
  ap (λ z. tally p (clients z)) e,
  tally-clients p before ((td, got) ∷ after),
  tally-clients p before after,
)

record Inv (file : List ℕ) (s : BackupServer) : Type 0 where
  content : s.file ≡ file ++ lines s.kept
  messages : (p : ThreadData × List ℕ → Bool) → tally p s.took ≡ tally p s.writing + tally p s.kept
  sockets :
      (p : ThreadData → Bool)
      → tally p s.accepted
        ≡ tally p s.reading
          + tally p (clients s.writing)
          + tally p s.closing
          + tally p s.closed
          + tally p s.failed

keep_lem :
    (file info got out : List ℕ)
    → keep file info got ≡ some out
    → out ≡ file ++ (info ++ c_string got)
unfolding keep backup_log
keep_lem file info got out e = elim (Bool-cases (ltb (length got) buf_size)) [
  | inl fits ↦
      cc (if_true (ltb (length got) buf_size) (some (file ++ (info ++ c_string got))) none fits, e)
  | inr over ↦
      cc (if_false (ltb (length got) buf_size) (some (file ++ (info ++ c_string got))) none over, e)
]

read-Inv :
    (file : List ℕ) (s : BackupServer) (before after : List ThreadData) (td : ThreadData)
    (got : Option (List ℕ))
    → s.reading ≡ before ++ (td ∷ after)
    → Inv file s
    → Inv file (after_read td (before ++ after) got s)
unfolding after_read
read-Inv file s before after td none e v = record {
  content = v.content;
  messages = v.messages;
  sockets = λ p.
      omega (
        arith,
        v.sockets p,
        taken p s.reading before after td e,
        tally-append p s.closing (td ∷ []),
      );
}
read-Inv file s before after td (some got) e v = record {
  content = v.content;
  messages = λ p. omega (
    arith,
    v.messages p,
    tally-append p s.took ((td, got) ∷ []),
    tally-append p s.writing ((td, got) ∷ []),
  );
  sockets = λ p. omega (
    arith,
    v.sockets p,
    taken p s.reading before after td e,
    tally-clients p s.writing ((td, got) ∷ []),
  );
}

Step-Inv : (file : List ℕ) {s t : BackupServer} → Step s t → Inv file s → Inv file t
unfolding accept_round after_write end_routine
Step-Inv file (accepts s created none) v = v
Step-Inv file (accepts s true (some td)) v = record {
  content = v.content;
  messages = v.messages;
  sockets = λ p.
      omega (
        arith,
        v.sockets p,
        tally-append p s.accepted (td ∷ []),
        tally-append p s.reading (td ∷ []),
      );
}
Step-Inv file (accepts s false (some td)) v = record {
  content = v.content;
  messages = v.messages;
  sockets = λ p.
      omega (
        arith,
        v.sockets p,
        tally-append p s.accepted (td ∷ []),
        tally-append p s.failed (td ∷ []),
      );
}
Step-Inv file (reads s before after td came e) v =
    read-Inv file s before after td (received came) e v
Step-Inv file (writes s before after td got out e k) v = record {
  content =
      keep_lem s.file (client_info td) got out k
      ∙ ap (λ (z : List ℕ). z ++ (client_info td ++ c_string got)) v.content
      ∙ append_assoc file (lines s.kept) (client_info td ++ c_string got)
      ∙ ap (λ (z : List ℕ). file ++ (lines s.kept ++ z))
          (sym (append-nil (client_info td ++ c_string got)))
      ∙ ap (◌++◌ file) (sym (lines-append s.kept ((td, got) ∷ [])));
  messages = λ p. omega (
    arith,
    v.messages p,
    taken p s.writing before after (td, got) e,
    tally-append p s.kept ((td, got) ∷ []),
  );
  sockets = λ p. omega (
    arith,
    v.sockets p,
    taken_client p s.writing before after td got e,
    tally-append p s.closing (td ∷ []),
  );
}
Step-Inv file (ends s before after td e) v = record {
  content = v.content;
  messages = v.messages;
  sockets = λ p.
      omega (
        arith,
        v.sockets p,
        taken p s.closing before after td e,
        tally-append p s.closed (td ∷ []),
      );
}

Reach-Inv : (file : List ℕ) {s : BackupServer} → Reach file s → Inv file s
Reach-Inv file here = record {
  content = sym (append-nil file);
  messages = λ p. omega arith;
  sockets = λ p. omega arith;
}
Reach-Inv file (next r x) = Step-Inv file x (Reach-Inv file r)

-- However the clients' threads are interleaved, while none writes behind its array: the file is what it
-- was, with the messages that were written behind it, each whole and after its client's address, in the
-- order of the writes; what the reads took is what was written and what is still to be written, as often
-- as it was; and every client that was accepted is with its thread, closed, or, where no thread could be
-- made, left with an open socket.
pub backup_serves :
    (file : List ℕ) (s : BackupServer)
    → Reach file s
    → (s.file ≡ file ++ lines s.kept)
      × ((p : ThreadData × List ℕ → Bool) → tally p s.took ≡ tally p s.writing + tally p s.kept)
      × ((p : ThreadData → Bool)
          → tally p s.accepted
            ≡ tally p s.reading
              + tally p (clients s.writing)
              + tally p s.closing
              + tally p s.closed
              + tally p s.failed)
backup_serves file s r = let v = Reach-Inv file r in (v.content, v.messages, v.sockets)
