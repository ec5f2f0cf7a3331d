-- ===== src/Backup/Tests.antt =====
-- The theorems about the backup at concrete values: a server that answers the third attempt, one that
-- never does, and more bytes than the array holds.
use tcp_server.Backup.{start_backup, backup_log, keep, thread_routine}
use tcp_server.Backup.Client.{FirstOf, start_backup_lem}
use tcp_server.Backup.Keeping.{NoNul, backup_arrives}
use tcp_server.Backup.Serving.{lines, clients, backup_serves}
use tcp_server.Backup.Steps.{
  ThreadData, BackupServer, accept_round, after_read, after_write, end_routine, accepts, reads,
  writes, ends, Reach, here, next,
}
use tcp_server.Base.{
  to_string, tally, ◌++◌, true, ◌<◌, ◌⊎◌, ℕ, ◌+◌, ◌≡◌, refl, Bool, false, some, List, [], ◌∷◌,
  arith, ltb, le→ltb, codes,
}

-- The attempts from the third on succeed.
abbrev third : ℕ → Bool
third n = ltb 1 n

third-FirstOf : FirstOf third 0 2
third-FirstOf = (omega arith, refl, λ i h k. le→ltb 1 i (omega (arith, k)))

abbrev message : List ℕ
message = codes "hello"

start_backup_lem_example :
    ((n : ℕ) × FirstOf (λ i. false) 0 n
      × (n < 6)
      × (start_backup true (λ n. false) 5 message
          ≡ record { attempts = n + 1; sent = codes "hello"; open_socket = false }))
    ⊎ (((i : ℕ) → i < 6 → ◌≡◌ {A = Bool} false false)
        × (start_backup true (λ n. false) 5 message
            ≡ record { attempts = 6; sent = []; open_socket = true }))
start_backup_lem_example = start_backup_lem true (λ n. false) 5 message

message-NoNul : NoNul message
message-NoNul = (omega arith, (omega arith, (omega arith, (omega arith, (omega arith, tt)))))

backup_arrives_example :
    thread_routine
      (codes "x")
      (codes "127.0.0.1")
      80
      (some (start_backup true third 9 message).sent)
    ≡ some (codes "x127.0.0.1:80hello")
unfolding to_string
backup_arrives_example =
    backup_arrives third 2 9 (codes "x") (codes "127.0.0.1") message 80 third-FirstOf (omega arith)
      (omega arith) message-NoNul (omega arith) (omega arith)

abbrev client : ThreadData
client = record { sock = 4; client_ip = codes "10.0.0.1"; client_port = 7 }

abbrev unlucky : ThreadData
unlucky = record { sock = 5; client_ip = codes "10.0.0.2"; client_port = 8 }

-- One client has been served, and another, for which no thread could be made, has come meanwhile.
abbrev served : BackupServer
served = record {
  file = codes "x10.0.0.1:7hello";
  reading = [];
  writing = [];
  closing = [];
  closed = client ∷ [];
  failed = unlucky ∷ [];
  accepted = client ∷ unlucky ∷ [];
  took = (client, message) ∷ [];
  kept = (client, message) ∷ [];
}

served-Reach : Reach (codes "x") served
unfolding accept_round after_read after_write end_routine keep backup_log to_string
served-Reach =
    next
      (next
        (next
          (next (next here (accepts _ true (some client)))
            (reads _ [] [] client (some message) refl))
          (accepts _ false (some unlucky)))
        (writes _ [] [] client message (codes "x10.0.0.1:7hello") refl refl))
      (ends _ [] [] client refl)

backup_serves_example :
    (served.file ≡ codes "x" ++ lines served.kept)
    × ((p : ThreadData × List ℕ → Bool)
        → tally p served.took ≡ tally p served.writing + tally p served.kept)
    × ((p : ThreadData → Bool)
        → tally p served.accepted
          ≡ tally p served.reading
            + tally p (clients served.writing)
            + tally p served.closing
            + tally p served.closed
            + tally p served.failed)
backup_serves_example = backup_serves (codes "x") served served-Reach
