-- ===== src/Backup/Steps.antt =====
-- log_system/logs_code/backlog/ServerBackuplog.hpp: the thread that accepts and the threads of the clients as
-- interleaved steps, between which another thread may go on.
use tcp_server.Backup.{received, keep}
use tcp_server.Base.{
  to_string, codes, ℕ, ◌≡◌, Bool, true, false, Option, none, some, List, [], ◌∷◌, ◌++◌,
}

-- `ThreadData`
pub record ThreadData : Type 0 where
  pub sock : ℕ
  pub client_ip : List ℕ
  pub client_port : ℕ

-- The log file, and the clients by where they are: their thread has not read yet, it has read something
-- and not written it yet, it has only to close the socket, and the socket is closed. The code keeps none
-- of the next: `failed` are those for which no thread could be made, `accepted` all that came, `took` what
-- a `read` gave, and `kept` what was written, in that order.
pub record BackupServer : Type 0 where
  pub file : List ℕ
  pub reading : List ThreadData
  pub writing : List (ThreadData × List ℕ)
  pub closing : List ThreadData
  pub closed : List ThreadData
  pub failed : List ThreadData
  pub accepted : List ThreadData
  pub took : List (ThreadData × List ℕ)
  pub kept : List (ThreadData × List ℕ)

-- A round of `start_service`, by what `accept` gave; a failure is only reported. Whether
-- `pthread_create` makes the thread is not looked at.
unfoldable pub accept_round : Bool → Option ThreadData → BackupServer → BackupServer
accept_round created none s = s
accept_round true (some td) s = record s {
  reading = s.reading ++ (td ∷ []);
  accepted = s.accepted ++ (td ∷ []);
}
accept_round false (some td) s = record s {
  failed = s.failed ++ (td ∷ []);
  accepted = s.accepted ++ (td ∷ []);
}

-- `client_info`
abbrev pub client_info : ThreadData → List ℕ
client_info td = td.client_ip ++ (codes ":" ++ to_string td.client_port)

-- The `read` of a client's thread; the other clients that have not read are `rest`.
unfoldable pub after_read :
    ThreadData → List ThreadData → Option (List ℕ) → BackupServer → BackupServer
after_read td rest none s = record s { reading = rest; closing = s.closing ++ (td ∷ []) }
after_read td rest (some got) s = record s {
  reading = rest;
  writing = s.writing ++ ((td, got) ∷ []);
  took = s.took ++ ((td, got) ∷ []);
}

-- Its call of `backup_log`, which made the file `file`.
unfoldable pub after_write :
    ThreadData → List ℕ → List (ThreadData × List ℕ) → List ℕ → BackupServer → BackupServer
after_write td got rest file s = record s {
  file = file;
  writing = rest;
  closing = s.closing ++ (td ∷ []);
  kept = s.kept ++ ((td, got) ∷ []);
}

-- The end of a client's thread: its socket is closed.
unfoldable pub end_routine : ThreadData → List ThreadData → BackupServer → BackupServer
end_routine td rest s = record s { closing = rest; closed = s.closed ++ (td ∷ []) }

abbrev pub idle_server : List ℕ → BackupServer
idle_server file = record {
  file = file;
  reading = [];
  writing = [];
  closing = [];
  closed = [];
  failed = [];
  accepted = [];
  took = [];
  kept = [];
}

-- The steps, for as long as no thread writes behind its array.
pub data Step : BackupServer → BackupServer → Type 0 where
  accepts :
      (s : BackupServer) (created : Bool) (got : Option ThreadData)
      → Step s (accept_round created got s)
  -- a client's thread reads, with the bytes that have come
  reads :
      (s : BackupServer) (before after : List ThreadData) (td : ThreadData) (came : Option (List ℕ))
      → s.reading ≡ before ++ (td ∷ after)
      → Step s (after_read td (before ++ after) (received came) s)
  writes :
      (s : BackupServer) (before after : List (ThreadData × List ℕ)) (td : ThreadData)
      (got file : List ℕ)
      → s.writing ≡ before ++ ((td, got) ∷ after)
      → keep s.file (client_info td) got ≡ some file
      → Step s (after_write td got (before ++ after) file s)
  ends :
      (s : BackupServer) (before after : List ThreadData) (td : ThreadData)
      → s.closing ≡ before ++ (td ∷ after)
      → Step s (end_routine td (before ++ after) s)

pub data Reach (file : List ℕ) : BackupServer → Type 0 where
  here : Reach file (idle_server file)
  next : {s t : BackupServer} → Reach file s → Step s t → Reach file t
