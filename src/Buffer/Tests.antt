-- ===== src/Buffer/Tests.antt =====
-- Runs of the buffer, and the theorems at concrete buffers.
use tcp_server.Base.{ℕ, ◌+◌, ◌≤◌, ◌≡◌, refl, List, [], ◌∷◌, arith, length, add_size, sub_size}
use tcp_server.Buffer.{
  Buffer, writable_bytes, prependable_bytes, make_space, ensure_writable_bytes, write_bytes, append,
}
use tcp_server.Buffer.Layout.{IsValid, contents, append-IsValid}
use tcp_server.Buffer.Queue.{Op, reads, retrieves, takes_all, perform_all, perform_all_lem}

-- A vector of twelve places with two bytes to read; two more fit behind them.
abbrev pub two_waiting : Buffer
two_waiting = record {
  bytes = 0 ∷ 0 ∷ 0 ∷ 0 ∷ 0 ∷ 0 ∷ 0 ∷ 0 ∷ 65 ∷ 66 ∷ 0 ∷ 0 ∷ [];
  reader_index = 8;
  writer_index = 10;
}

pub two_waiting-IsValid : IsValid two_waiting
two_waiting-IsValid = record {
  front = omega arith;
  order = omega arith;
  inside = omega arith;
  small = omega arith;
}

-- Three bytes are more than the two places behind the window.
abbrev three : List ℕ
three = 67 ∷ 68 ∷ 69 ∷ []

append_runs :
    (append two_waiting three).bytes ≡ 0 ∷ 0 ∷ 0 ∷ 0 ∷ 0 ∷ 0 ∷ 0 ∷ 0 ∷ 65 ∷ 66 ∷ 67 ∷ 68 ∷ 69 ∷ []
unfolding append write_bytes ensure_writable_bytes make_space writable_bytes prependable_bytes
    tcp_server.Base.sub_size tcp_server.Base.add_size
append_runs = refl

append-IsValid_example :
    let e = ensure_writable_bytes two_waiting (length three) in
    IsValid (append two_waiting three)
    × (e.writer_index + length three ≤ length e.bytes)
    × (length (append two_waiting three).bytes ≤ length two_waiting.bytes + length three)
append-IsValid_example = append-IsValid two_waiting three two_waiting-IsValid (omega arith)

abbrev some_work : List Op
some_work = reads three ∷ retrieves 1 ∷ takes_all ∷ []

perform_all_lem_example :
    IsValid (perform_all two_waiting some_work).0
    × (◌≡◌ {A = List ℕ × List ℕ}
        (contents (perform_all two_waiting some_work).0, (perform_all two_waiting some_work).1)
        ([], 66 ∷ 67 ∷ 68 ∷ 69 ∷ []))
perform_all_lem_example =
    perform_all_lem two_waiting some_work two_waiting-IsValid (omega arith, (tt, (tt, tt)))
