-- ===== src/Connection/Send/Notes.antt =====
-- src/TcpConnection.cpp: which callbacks `sendInLoop` leaves in the loop's queue.
use tcp_server.Base.{
  ℕ, ◌+◌, ◌-◌, ◌<◌, ◌≡◌, sym, ◌∙◌, inl, inr, Bool, false, not, ◌&&◌, List, [], ◌∷◌, ◌++◌,
  append-nil, append_assoc, arith, ltb, leb, ◌==◌, if◌then◌else◌, ltb→lt, Bool-cases, length, take,
  drop, size_mod, add_size_exact, sub_size_exact,
}
use tcp_server.Buffer.{readable_bytes, Io, count, fail}
use tcp_server.Buffer.Window.{length-window}
use tcp_server.Buffer.Layout.{Fits, length-contents}
use tcp_server.Channel.{is_writing}
use tcp_server.Poller.{Epoll}
use tcp_server.Connection.{
  is_disconnected, is_fault, Task, write_complete, high_water, Connection, wish, queue_in_loop,
}
use tcp_server.Connection.Invariant.{Good}
use tcp_server.Connection.Send.{
  took_all, wrote_some, can_write, attempt, crosses, warn_high, keep_rest, watch_write, finish,
  send_in_loop,
}
use tcp_server.Connection.Send.Stream.{Plausible, reports_broken, refused}

-- How many bytes the kernel took.
abbrev pub took : Io → ℕ
took (count n) = n
took (fail errno) = 0

-- Whether the kernel took all `n` bytes.
abbrev pub took_whole : ℕ → Io → Bool
took_whole n (count m) = n == m
took_whole n (fail errno) = false

abbrev first_note : Bool → List Task
first_note b = if b then write_complete ∷ [] else []

module _ {k : Epoll} where
  -- Whether nothing stands in the way of a direct write.
  abbrev pub direct : Connection k → Bool
  direct c = not (is_writing c.channel) && (readable_bytes c.output == 0)

  -- How many of `n` bytes have to wait.
  abbrev pub left_over : Connection k → ℕ → Io → ℕ
  left_over c n reply = if direct c then n - took reply else n

  -- The mark is crossed from below by `more` bytes.
  abbrev pub passes : Connection k → ℕ → Bool
  passes c more =
      ltb 0 more
      && leb c.high_water_mark (readable_bytes c.output + more)
      && ltb (readable_bytes c.output) c.high_water_mark

  abbrev pub notes : Connection k → ℕ → Io → List Task
  notes c n reply =
      (if direct c && took_whole n reply && c.has_write_complete then write_complete ∷ [] else [])
      ++ (if passes c (left_over c n reply)
          then high_water c.has_high_water (readable_bytes c.output + left_over c n reply) ∷ []
          else [])

  warn_high_queued :
      (r : ℕ) (c : Connection k)
      → 0 < r
      → readable_bytes c.output + r < size_mod
      → (warn_high r c).queued
        ≡ c.queued
          ++ (if passes c r
              then high_water c.has_high_water (readable_bytes c.output + r) ∷ []
              else [])
  unfolding warn_high crosses queue_in_loop
  warn_high_queued r c p h =
      let exact = add_size_exact (readable_bytes c.output) r h in
      let same : crosses c r ≡ passes c r = rw exact (ground arith) in
      elim (Bool-cases (passes c r)) [
        | inl e ↦ rw (same, e, exact)
        | inr e ↦ rw (same, e) (sym (append-nil c.queued))
      ]

  watch_write_queued : (c : Connection k) → (watch_write c).queued ≡ c.queued
  unfolding watch_write wish
  watch_write_queued c = elim (Bool-cases (is_writing c.channel)) [ inl e ↦ rw e | inr e ↦ rw e ]

  -- What `finish` adds to the queue.
  finish_queued :
      (c : Connection k) (bytes : List ℕ) (r w : ℕ)
      → readable_bytes c.output + r < size_mod
      → (finish bytes (record { conn = c; nwrote = w; remaining = r; fault = false })).queued
        ≡ c.queued
          ++ (if passes c r
              then high_water c.has_high_water (readable_bytes c.output + r) ∷ []
              else [])
  unfolding finish keep_rest
  finish_queued c bytes r w h = elim (Bool-cases (ltb 0 r)) [
    | inl e ↦ rw e (
        rw e at (
          watch_write_queued (keep_rest (drop w bytes) r (warn_high r c))
          ∙ warn_high_queued r c (ltb→lt 0 r e) h))
    | inr e ↦ rw e (sym (append-nil c.queued))
  ]

  abbrev second_note : Connection k → ℕ → List Task
  second_note c r =
      if passes c r then high_water c.has_high_water (readable_bytes c.output + r) ∷ [] else []

  -- After a direct write that left `r` bytes.
  took_all_queued :
      (c : Connection k) (bytes : List ℕ) (r w : ℕ)
      → readable_bytes c.output + r < size_mod
      → (finish bytes
          (record { conn = took_all r c; nwrote = w; remaining = r; fault = false })).queued
        ≡ c.queued ++ (first_note (r == 0 && c.has_write_complete) ++ second_note c r)
  unfolding took_all queue_in_loop
  took_all_queued c bytes r w h = elim (Bool-cases (r == 0 && c.has_write_complete)) [
    | inl e ↦
        let d : Connection k = record c { queued = c.queued ++ (write_complete ∷ []) } in
        rw e (
          finish_queued d bytes r w h
          ∙ append_assoc c.queued (write_complete ∷ []) (second_note c r))
    | inr e ↦ rw e (finish_queued c bytes r w h)
  ]

  attempt_queued :
      (c : Connection k) (bytes : List ℕ) (reply : Io)
      → readable_bytes c.output + length bytes < size_mod
      → Plausible (length bytes) reply
      → (direct c && reports_broken reply) ≡ false
      → (finish bytes (attempt c bytes reply)).queued ≡ c.queued ++ notes c (length bytes) reply
  unfolding attempt wrote_some can_write is_fault
  attempt_queued c bytes (count m) f h n = elim (Bool-cases (direct c)) [
    | inl e ↦
        let exact = sub_size_exact (length bytes) m h (omega arith) in
        let same : (length bytes == m) ≡ (length bytes - m == 0) = ground arith in
        rw (e, same, exact)
          (took_all_queued (record c { wire = c.wire ++ take m bytes }) bytes (length bytes - m) m
            (omega arith))
    | inr e ↦ rw e (finish_queued c bytes (length bytes) 0 f)
  ]
  attempt_queued c bytes (fail errno) f h n = elim (Bool-cases (direct c)) [
    | inl e ↦
        let fine : is_fault errno ≡ false = ground arith in
        let whole : length bytes - 0 ≡ length bytes = omega arith in
        rw (e, fine, whole) (finish_queued c bytes (length bytes) 0 f)
    | inr e ↦ rw e (finish_queued c bytes (length bytes) 0 f)
  ]

  -- `sendInLoop` on a sound connection that does not refuse the bytes, which fit in memory, and
  -- with a kernel that takes no more than it is offered, leaves these in the queue, in this order
  -- and nothing else: the write-complete callback, if one is set and the kernel took all the bytes
  -- at once; the high-water callback, as it is set then, with the new number of waiting bytes, if this send brings that
  -- number from below the mark to the mark or above it.
  pub send_in_loop_queued :
      {s : List ℕ} (c : Connection k) (bytes : List ℕ) (reply : Io)
      → Good s c
      → Fits c.output (length bytes)
      → Plausible (length bytes) reply
      → refused c reply ≡ false
      → (send_in_loop c bytes reply).queued ≡ c.queued ++ notes c (length bytes) reply
  unfolding send_in_loop
  send_in_loop_queued c bytes reply g f h n =
      let up : is_disconnected c.state ≡ false = ground arith in
      let fine : (direct c && reports_broken reply) ≡ false = ground arith in
      let size = length-contents c.output g.inv.output_valid in
      let room =
        length-window c.output.bytes c.output.reader_index c.output.writer_index
          g.inv.output_valid.order g.inv.output_valid.inside in
      rw up (attempt_queued c bytes reply (omega arith) h fine)
