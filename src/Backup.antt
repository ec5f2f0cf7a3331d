-- ===== src/Backup.antt =====
-- log_system/logs_code/backlog/CliBackupLog.cpp, ServerBackuplog.hpp, ServerBackuplog.cpp: the client that sends a
-- line of the log to the backup server, and the server that keeps it. A text is a list of codes.
pub mod Client
pub mod Keeping
pub mod Steps
pub mod Serving
mod Tests
use tcp_server.Base.{
  to_string, ℕ, zero, suc, ◌+◌, Bool, true, false, Option, none, some, List, [], ◌∷◌, ◌++◌, ◌&&◌,
  ltb, ◌==◌, if◌then◌else◌, codes, length, take,
}

-- What a call of `start_backup` did: how often it called `connect`, the bytes that the kernel took, and
-- whether it has an open socket.
pub record Sending : Type 0 where
  pub attempts : ℕ
  pub sent : List ℕ
  pub open_socket : Bool

-- The loop around `connect`, with `cnt` attempts left after this one; `connects n` says whether the
-- attempt number `n` succeeds. The result is whether one did, and the number of attempts.
unfoldable pub connect_loop : (ℕ → Bool) → ℕ → ℕ → Bool × ℕ
connect_loop connects zero n = (connects n, n + 1)
connect_loop connects (suc cnt) n =
    let rest = connect_loop connects cnt (n + 1) in if connects n then (true, n + 1) else rest

-- `close(sock)`
unfoldable pub close_socket : Sending → Sending
close_socket s = record s { open_socket = false }

-- The rest of `start_backup`: it returns at once if no attempt succeeded, or else writes and closes. The
-- kernel takes the bytes of the message up to `takes`; a refused write is one of nothing.
unfoldable pub send_message : ℕ → List ℕ → Bool × ℕ → Sending → Sending
send_message takes message (true, n) s =
    close_socket (record s { attempts = n; sent = take takes message })
send_message takes message (false, n) s = record s { attempts = n }

-- `start_backup`; a failure of `socket`, where `made` is false, is only reported, and `connect` on the
-- number that it gave fails.
unfoldable pub start_backup : Bool → (ℕ → Bool) → ℕ → List ℕ → Sending
start_backup made connects takes message =
    send_message takes message (connect_loop (λ n. made && connects n) 5 0)
      (record { attempts = 0; sent = []; open_socket = made })

abbrev pub buf_size : ℕ
buf_size = 1024

-- A C string's codes, up to the first 0.
abbrev pub c_string : List ℕ → List ℕ
c_string [] = []
c_string (c ∷ cs) = let rest = c_string cs in if c == 0 then [] else c ∷ rest

-- `backup_log`, on the bytes of the log file, which can be opened and written.
unfoldable pub backup_log : List ℕ → List ℕ → List ℕ
backup_log file message = file ++ message

-- The rest of `service` once `read` gave bytes. The terminating 0 is written behind them; `none` is that
-- write behind the array's end.
unfoldable pub keep : List ℕ → List ℕ → List ℕ → Option (List ℕ)
keep file client_info got =
    if ltb (length got) buf_size then some (backup_log file (client_info ++ c_string got)) else none

-- What `read` gives of the bytes that have come: those that fit; no byte is the end of the stream, and
-- `none` in place of the bytes is an error.
abbrev pub received : Option (List ℕ) → Option (List ℕ)
received none = none
received (some []) = none
received (some (c ∷ cs)) = some (take buf_size (c ∷ cs))

-- `service`, on the bytes that have come.
unfoldable pub service : List ℕ → List ℕ → Option (List ℕ) → Option (List ℕ)
service file client_info came = elim (received came) [
  | none ↦ some file
  | some got ↦ keep file client_info got
]

-- `threadRoutine`: the client's address before what it sent.
unfoldable pub thread_routine : List ℕ → List ℕ → ℕ → Option (List ℕ) → Option (List ℕ)
thread_routine file client_ip client_port came =
    service file (client_ip ++ (codes ":" ++ to_string client_port)) came
