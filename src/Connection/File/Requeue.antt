-- ===== src/Connection/File/Requeue.antt =====
-- src/TcpConnection.cpp: what `sendFileInLoop` sends, and what it asks for afterwards.
use tcp_server.Base.{
  ℕ, ◌+◌, ◌-◌, ◌≤◌, ◌<◌, ◌≡◌, refl, ap, ◌∙◌, true, false, List, [], ◌∷◌, ◌++◌, append-nil, arith,
  ltb, ◌==◌, if◌then◌else◌, length, take, drop, length-append, length-take, length-drop, size_mod,
  sub_size, sub_size_exact,
}
use tcp_server.Buffer.{count}
use tcp_server.Poller.{Epoll}
use tcp_server.Connection.{
  is_disconnected, write_complete, send_file_later, Connection, queue_in_loop,
}
use tcp_server.Connection.Send.{took_all, can_write}
use tcp_server.Connection.File.{file_attempt, send_file_in_loop}

module _ {k : Epoll} (c : Connection k) (file : List ℕ) (fd offset n : ℕ)
    (up : is_disconnected c.state ≡ false) (free : can_write c ≡ true) (small : n < size_mod) where
  -- When `sendfile` takes fewer bytes than it was asked for, those go to the wire and the loop's
  -- queue gets a request for the whole count once more, from behind the bytes that were sent. Nothing
  -- else changes.
  pub part_lem :
      (m : ℕ)
      → m < n
      → send_file_in_loop c file fd offset n (count m) ≡ record c {
        wire = c.wire ++ take m (drop offset file);
        queued = c.queued ++ (send_file_later fd (offset + m) n ∷ []);
      }
  unfolding send_file_in_loop file_attempt took_all queue_in_loop
  part_lem m h =
      let r = sub_size_exact n m (omega arith) small in
      let pos : ltb 0 (n - m) ≡ true = ground arith in
      let nonzero : (n - m == 0) ≡ false = ground arith in rw (up, free, r, pos, nonzero)

  -- When it takes all, the bytes of the file from the offset on are on the wire, the user is told if
  -- a callback is set, and nothing is asked for again.
  pub whole_lem :
      0 < n
      → send_file_in_loop c file fd offset n (count n) ≡ record c {
        wire = c.wire ++ take n (drop offset file);
        queued = if c.has_write_complete then c.queued ++ (write_complete ∷ []) else c.queued;
      }
  unfolding send_file_in_loop file_attempt took_all queue_in_loop
  whole_lem h =
      let r : sub_size n n ≡ 0 = sub_size_exact n n (omega arith) small ∙ omega arith in
      rw (up, free, r) (ground arith)

  -- At the end of the file `sendfile` takes nothing, and the same request goes back to the queue.
  pub end_lem :
      0 < n
      → send_file_in_loop c file fd offset n (count 0)
        ≡ record c { queued = c.queued ++ (send_file_later fd offset n ∷ []) }
  end_lem h = part_lem 0 h ∙ ground (arith, append-nil c.wire)

module _ {k : Epoll} where
  -- A transfer that the kernel cuts once sends more than it was asked for: `m` bytes of the `n`, and
  -- then `n` bytes more, if the file has them and the kernel takes them.
  pub overrun :
      (c : Connection k) (file : List ℕ) (fd offset n m : ℕ)
      → is_disconnected c.state ≡ false
      → can_write c ≡ true
      → n < size_mod
      → 0 < m
      → m < n
      → offset + m + n ≤ length file
      → let d = send_file_in_loop c file fd offset n (count m) in
        (d.queued ≡ c.queued ++ (send_file_later fd (offset + m) n ∷ []))
        × (length (send_file_in_loop d file fd (offset + m) n (count n)).wire
            ≡ length c.wire + m + n)
  unfolding can_write
  overrun c file fd offset n m up free small p h room =
      let first = take m (drop offset file) in
      let second = take n (drop (offset + m) file) in
      let d : Connection k = record c {
        wire = c.wire ++ take m (drop offset file);
        queued = c.queued ++ (send_file_later fd (offset + m) n ∷ []);
      } in
      rw (part_lem c file fd offset n up free small m h) (
        refl,
        ap (λ (e : Connection k). length e.wire)
              (whole_lem d file fd (offset + m) n up free small (omega arith))
            ∙ omega (
              arith,
              length-append (c.wire ++ take m (drop offset file)) (take n (drop (offset + m) file)),
              length-append c.wire (take m (drop offset file)),
              length-take m (drop offset file),
              length-drop offset file,
              length-take n (drop (offset + m) file),
              length-drop (offset + m) file,
            ),
      )
