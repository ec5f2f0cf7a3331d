-- ===== src/Backup/Client.antt =====
-- log_system/logs_code/backlog/CliBackupLog.cpp: how often a connection is tried, and what becomes of the
-- socket.
use tcp_server.Backup.{connect_loop, close_socket, send_message, start_backup}
use tcp_server.Base.{
  ℕ, zero, suc, ◌+◌, ◌≤◌, ◌<◌, ◌≡◌, sym, ap, ap₂, subst, ◌∙◌, ◌⊎◌, ◌&&◌, inl, inr, Bool, true,
  false, List, [], arith, ◌==◌, Bool-cases, if_true, if_false, take,
}

-- The first attempt that succeeds.
abbrev pub FirstOf : (ℕ → Bool) → ℕ → ℕ → Type 0
FirstOf connects from n =
    (from ≤ n) × (connects n ≡ true) × ((i : ℕ) → from ≤ i → i < n → connects i ≡ false)

connect_loop_first :
    (connects : ℕ → Bool) (cnt from n : ℕ)
    → FirstOf connects from n
    → n ≤ from + cnt
    → connect_loop connects cnt from ≡ (true, n + 1)
unfolding connect_loop
connect_loop_first connects zero from n f h =
    let same : n ≡ from = omega (arith, f.0) in
    subst (λ (z : ℕ). ◌≡◌ {A = Bool × ℕ} (connects z, z + 1) (true, n + 1)) same
      (ap (λ (b : Bool). (b, n + 1)) f.1)
connect_loop_first connects (suc cnt) from n f h = elim (Bool-cases (from == n)) [
  | inl here ↦
      let same : n ≡ from = ground (arith, here) in
      if_true (connects from) _ _ (sym (ap connects same) ∙ f.1)
      ∙ ap (λ (z : ℕ). (true, z + 1)) (sym same)
  | inr later ↦
      let less : from < n = ground (arith, later, f.0) in
      if_false (connects from) _ _ (f.2 from (omega arith) less)
      ∙ connect_loop_first connects cnt (from + 1) n
          (omega (arith, less), f.1, λ i g k. f.2 i (omega (arith, g)) k) (omega (arith, h))
]

connect_loop_none :
    (connects : ℕ → Bool) (cnt from : ℕ)
    → ((i : ℕ) → from ≤ i → i ≤ from + cnt → connects i ≡ false)
    → connect_loop connects cnt from ≡ (false, from + cnt + 1)
unfolding connect_loop
connect_loop_none connects zero from h =
    ap₂ (λ (b : Bool) (z : ℕ). (b, z)) (h from (omega arith) (omega arith)) (omega arith)
connect_loop_none connects (suc cnt) from h =
    if_false (connects from) _ _ (h from (omega arith) (omega arith))
    ∙ connect_loop_none connects cnt (from + 1) (λ i g k. h i (omega (arith, g)) (omega (arith, k)))
    ∙ ap (λ (z : ℕ). (false, z)) (omega arith)

-- Of any attempts in a row, either one is the first that succeeds or none does.
first_or_none :
    (connects : ℕ → Bool) (cnt from : ℕ)
    → ((n : ℕ) × FirstOf connects from n × (n ≤ from + cnt))
      ⊎ ((i : ℕ) → from ≤ i → i ≤ from + cnt → connects i ≡ false)
first_or_none connects zero from = elim (Bool-cases (connects from)) [
  | inl yes_now ↦ inl (from, (omega arith, yes_now, λ i h k. absurd (omega arith)), omega arith)
  | inr not_now ↦ inr (λ i h k. ap connects (omega (arith, h, k)) ∙ not_now)
]
first_or_none connects (suc cnt) from = elim (Bool-cases (connects from)) [
  | inl yes_now ↦ inl (from, (omega arith, yes_now, λ i h k. absurd (omega arith)), omega arith)
  | inr not_now ↦ later not_now (first_or_none connects cnt (from + 1))
]
  where
    extend : (P : ℕ → Type 0) (i : ℕ) → (i ≡ from → P i) → (from + 1 ≤ i → P i) → from ≤ i → P i
    extend P i now then_on h = elim (Bool-cases (i == from)) [
      | inl e ↦ now (ground (arith, e))
      | inr e ↦ then_on (ground (arith, e, h))
    ]

    later :
        connects from ≡ false
        → ((n : ℕ) × FirstOf connects (from + 1) n × (n ≤ from + 1 + cnt))
          ⊎ ((i : ℕ) → from + 1 ≤ i → i ≤ from + 1 + cnt → connects i ≡ false)
        → ((n : ℕ) × FirstOf connects from n × (n ≤ from + suc cnt))
          ⊎ ((i : ℕ) → from ≤ i → i ≤ from + suc cnt → connects i ≡ false)
    later not_now (inl (n, f, h)) = inl (
      n,
      (
        omega (arith, f.0),
        f.1,
        λ i g k.
            extend (λ z. connects z ≡ false) i (λ e. ap connects e ∙ not_now) (λ x. f.2 i x k) g,
      ),
      omega (arith, h),
    )
    later not_now (inr all) = inr (λ i g k.
        extend (λ z. connects z ≡ false) i (λ e. ap connects e ∙ not_now)
          (λ x. all i x (omega (arith, k))) g)

-- The message goes out with the first of at most six attempts that succeeds, and the socket is closed
-- after it.
pub start_backup_sends :
    (made : Bool) (connects : ℕ → Bool) (takes : ℕ) (message : List ℕ) (n : ℕ)
    → FirstOf (λ i. made && connects i) 0 n
    → n < 6
    → start_backup made connects takes message
      ≡ record { attempts = n + 1; sent = take takes message; open_socket = false }
unfolding start_backup send_message close_socket
start_backup_sends made connects takes message n f h =
    ap (λ x. send_message takes message x (record { attempts = 0; sent = []; open_socket = made }))
      (connect_loop_first (λ i. made && connects i) 5 0 n f (omega arith))

-- A backup always ends, after at most six attempts. Either one of them is the first that succeeds: the
-- message is sent with it and the socket is closed. Or all six are refused, as they are where there is
-- no socket: nothing is sent, and if a socket was made it is left open.
pub start_backup_lem :
    (made : Bool) (connects : ℕ → Bool) (takes : ℕ) (message : List ℕ)
    → ((n : ℕ) × FirstOf (λ i. made && connects i) 0 n
        × (n < 6)
        × (start_backup made connects takes message
            ≡ record { attempts = n + 1; sent = take takes message; open_socket = false }))
      ⊎ (((i : ℕ) → i < 6 → (made && connects i) ≡ false)
          × (start_backup made connects takes message
              ≡ record { attempts = 6; sent = []; open_socket = made }))
unfolding start_backup send_message
start_backup_lem made connects takes message =
    by_attempts (first_or_none (λ i. made && connects i) 5 0)
  where
    by_attempts :
        ((n : ℕ) × FirstOf (λ i. made && connects i) 0 n × (n ≤ 0 + 5))
          ⊎ ((i : ℕ) → 0 ≤ i → i ≤ 0 + 5 → (made && connects i) ≡ false)
        → ((n : ℕ) × FirstOf (λ i. made && connects i) 0 n
            × (n < 6)
            × (start_backup made connects takes message
                ≡ record { attempts = n + 1; sent = take takes message; open_socket = false }))
          ⊎ (((i : ℕ) → i < 6 → (made && connects i) ≡ false)
              × (start_backup made connects takes message
                  ≡ record { attempts = 6; sent = []; open_socket = made }))
    by_attempts (inl (n, f, h)) =
        let small : n < 6 = omega (arith, h) in
        inl (n, f, small, start_backup_sends made connects takes message n f small)
    by_attempts (inr refused) = inr (
      (λ i h. refused i (omega arith) (omega (arith, h))),
      ap
          (λ x.
            send_message takes message x (record { attempts = 0; sent = []; open_socket = made }))
          (connect_loop_none (λ i. made && connects i) 5 0 refused),
    )
