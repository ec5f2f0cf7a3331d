-- ===== src/Backup/Keeping.antt =====
-- log_system/logs_code/backlog: what the client sends, as the server gets it.
use tcp_server.Backup.{
  Sending, start_backup, buf_size, c_string, backup_log, keep, service, thread_routine, true,
}
use tcp_server.Backup.Client.{FirstOf, start_backup_sends}
use tcp_server.Base.{
  to_string, ℕ, ◌≤◌, ◌<◌, ◌≡◌, refl, ap, ◌∙◌, ◌≢◌, Bool, none, some, List, [], ◌∷◌, ◌++◌, arith,
  ltb, ◌==◌, lt→ltb, le→ltb, if_true, if_false, codes, length, take, length-take, take_all,
}

-- No code is 0.
abbrev pub NoNul : List ℕ → Type 0
NoNul [] = Unit {0}
NoNul (c ∷ cs) = (c ≢ 0) × NoNul cs

c_string_lem : (s : List ℕ) → NoNul s → c_string s ≡ s
c_string_lem [] h = refl
c_string_lem (c ∷ cs) h =
    if_false (c == 0) [] (c ∷ c_string cs) (ground (arith, h.0)) ∙ ap (◌∷◌ c) (c_string_lem cs h.1)

service_keeps :
    (file client_info message : List ℕ)
    → NoNul message
    → 0 < length message
    → length message < buf_size
    → service file client_info (some message) ≡ some (file ++ (client_info ++ message))
unfolding service keep backup_log
service_keeps file client_info [] v h k = absurd (omega arith)
service_keeps file client_info (c ∷ cs) v h k =
    let whole : take buf_size (c ∷ cs) ≡ c ∷ cs = take_all buf_size (c ∷ cs) (omega arith) in
    ap (keep file client_info) whole
    ∙ if_true (ltb (length (c ∷ cs)) buf_size) _ none (lt→ltb _ _ k)
    ∙ ap (λ z. some (file ++ (client_info ++ z))) (c_string_lem (c ∷ cs) v)

-- A line of less than 1024 codes, none of them 0, that a client with a socket sends with one of its six attempts and
-- the kernels move whole, is at the end of the server's file afterwards, behind the client's address and
-- port; what was in the file stays.
pub backup_arrives :
    (connects : ℕ → Bool) (n takes : ℕ) (file client_ip message : List ℕ) (client_port : ℕ)
    → FirstOf connects 0 n
    → n < 6
    → length message ≤ takes
    → NoNul message
    → 0 < length message
    → length message < buf_size
    → thread_routine file client_ip client_port
        (some (start_backup true connects takes message).sent)
      ≡ some (file ++ ((client_ip ++ (codes ":" ++ to_string client_port)) ++ message))
unfolding thread_routine
backup_arrives connects n takes file client_ip message client_port f h t v k l =
    let info = client_ip ++ (codes ":" ++ to_string client_port) in
    let sent : (start_backup true connects takes message).sent ≡ message =
      ap (λ (s : Sending). s.sent) (start_backup_sends true connects takes message n f h)
      ∙ take_all takes message t in
    ap (λ z. service file info (some z)) sent ∙ service_keeps file info message v k l

-- When 1024 bytes or more have come before `service` reads, it writes behind the end of its array.
pub service_overruns :
    (file client_info came : List ℕ)
    → buf_size ≤ length came
    → service file client_info (some came) ≡ none
unfolding service keep
service_overruns file client_info [] h = absurd (omega arith)
service_overruns file client_info (c ∷ cs) h =
    if_false (ltb (length (take buf_size (c ∷ cs))) buf_size) _ none
      (le→ltb _ _ (omega (arith, length-take buf_size (c ∷ cs))))
