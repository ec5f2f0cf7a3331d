-- ===== src/Connection/Send/Stream.antt =====
-- src/TcpConnection.cpp: no byte is lost, doubled or reordered between `send` and the socket.
use tcp_server.Base.{
  ℕ, ◌-◌, ◌≤◌, ◌<◌, ◌≡◌, refl, sym, ap, subst, ◌∙◌, inl, inr, Bool, true, false, not, ◌&&◌, ◌||◌,
  List, [], ◌∷◌, ◌++◌, append-nil, append_assoc, arith, ltb, ◌==◌, if◌then◌else◌, ltb→lt, ltb→le,
  Bool-cases, length, take, drop, length-append, length-drop, take-append-drop, take-zero_of,
  take_all, size_mod, add_size, sub_size, sub_size_exact,
}
use tcp_server.Buffer.{readable_bytes, append, Io, count, fail}
use tcp_server.Buffer.Layout.{IsValid, contents, Fits, length-contents, append-IsValid}
use tcp_server.Buffer.Fifo.{contents-append}
use tcp_server.Channel.{is_writing, writing}
use tcp_server.Channel.Masks.{Mask, bits, is_writing_lem, idle, reads, writes, both}
use tcp_server.Poller.{Epoll}
use tcp_server.Connection.{
  is_disconnected, epipe, econnreset, is_fault, write_complete, high_water, Connection,
  queue_in_loop,
}
use tcp_server.Connection.Invariant.{
  contents_empty, stream, wish-Wished, Good, Good-queued, Wished-Good,
}
use tcp_server.Connection.Send.{
  Attempt, took_all, wrote_some, can_write, attempt, crosses, warn_high, keep_rest, watch_write,
  finish, send_in_loop,
}

-- What the kernel may answer to a write of `n` bytes.
abbrev pub Plausible : ℕ → Io → Type 0
Plausible n (count m) = m ≤ n
Plausible n (fail errno) = Unit {0}

abbrev pub reports_broken : Io → Bool
reports_broken (count m) = false
reports_broken (fail errno) = errno == epipe || errno == econnreset

module _ {k : Epoll} where
  took_all-Good :
      {s : List ℕ} (r : ℕ) (c : Connection k)
      → Good s c
      → Good s (took_all r c) × ((took_all r c).output ≡ c.output)
  unfolding took_all queue_in_loop
  took_all-Good r c g = elim (Bool-cases (r == 0 && c.has_write_complete)) [
    | inl e ↦ rw e (Good-queued c (c.queued ++ (write_complete ∷ [])) g, refl)
    | inr e ↦ rw e (g, refl)
  ]

  warn_high-Good :
      {s : List ℕ} (r : ℕ) (c : Connection k)
      → Good s c
      → Good s (warn_high r c) × ((warn_high r c).output ≡ c.output)
  unfolding warn_high queue_in_loop
  warn_high-Good r c g = elim (Bool-cases (crosses c r)) [
    | inl e ↦ rw e (
      Good-queued c
          (c.queued ++ (high_water c.has_high_water (add_size (readable_bytes c.output) r) ∷ [])) g,
      refl,
    )
    | inr e ↦ rw e (g, refl)
  ]

  -- Bytes behind the output buffer, and the write event wanted.
  keep_rest-Good :
      {s : List ℕ} (c : Connection k) (rest : List ℕ)
      → Good s c
      → Fits c.output (length rest)
      → 0 < length rest
      → Good (s ++ rest) (watch_write (record c { output = append c.output rest }))
  unfolding watch_write
  keep_rest-Good {s} c rest g f h = by_mask g.inv.mask g.inv.events
    where
      d : Connection k
      d = record c { output = append c.output rest }

      valid : IsValid d.output
      valid = (append-IsValid c.output rest g.inv.output_valid f).0

      grown : contents d.output ≡ contents c.output ++ rest
      grown = contents-append c.output rest g.inv.output_valid f

      waiting : 0 < readable_bytes d.output
      waiting = omega (
        arith,
        length-contents d.output valid,
        ap length grown,
        length-append (contents c.output) rest,
      )

      more : stream d ≡ s ++ rest
      more =
          ap (◌++◌ c.wire) grown
          ∙ sym (append_assoc c.wire (contents c.output) rest)
          ∙ ap (λ (t : List ℕ). t ++ rest) g.accepted

      by_mask : (m : Mask) → c.channel.events ≡ bits m → Good (s ++ rest) (watch_write d)
      by_mask idle e = rw (is_writing_lem c.channel idle e) (
          Wished-Good writing idle d _ (wish-Wished writing idle d e g.inv.synced) g.inv.input_valid
            valid waiting more)
      by_mask reads e = rw (is_writing_lem c.channel reads e) (
          Wished-Good writing reads d _ (wish-Wished writing reads d e g.inv.synced)
            g.inv.input_valid valid waiting more)
      by_mask writes e = rw (is_writing_lem c.channel writes e) (record {
        inv = record {
          input_valid = g.inv.input_valid;
          output_valid = valid;
          mask = writes;
          events = e;
          flow = waiting;
          synced = g.inv.synced;
        };
        accepted = more;
      })
      by_mask both e = rw (is_writing_lem c.channel both e) (record {
        inv = record {
          input_valid = g.inv.input_valid;
          output_valid = valid;
          mask = both;
          events = e;
          flow = waiting;
          synced = g.inv.synced;
        };
        accepted = more;
      })

  -- What the direct write leaves: the bytes that it took are on the wire, and `remaining` counts
  -- the others.
  record Attempted (s : List ℕ) (c : Connection k) (bytes : List ℕ) (a : Attempt k) : Type 0 where
    good : Good (s ++ take a.nwrote bytes) a.conn
    output : a.conn.output ≡ c.output
    counted : a.remaining ≡ length bytes - a.nwrote
    bounded : a.nwrote ≤ length bytes
    faulty : a.fault ≡ true → a.nwrote ≡ 0

  none_written :
      {s : List ℕ} (c : Connection k) (bytes : List ℕ) (b : Bool)
      → Good s c
      → Attempted s c bytes (record { conn = c; nwrote = 0; remaining = length bytes; fault = b })
  none_written {s} c bytes b g = record {
    good = rw (append-nil s) g;
    output = refl;
    counted = omega arith;
    bounded = omega arith;
    faulty = λ e. refl;
  }

  wrote_some-Attempted :
      {s : List ℕ} (c : Connection k) (bytes : List ℕ) (reply : Io)
      → Good s c
      → readable_bytes c.output ≡ 0
      → length bytes < size_mod
      → Plausible (length bytes) reply
      → Attempted s c bytes (wrote_some c bytes reply)
  unfolding wrote_some
  wrote_some-Attempted {s} c bytes (fail errno) g e f h = none_written c bytes (is_fault errno) g
  wrote_some-Attempted {s} c bytes (count n) g e f h =
      let d : Connection k = record c { wire = c.wire ++ take n bytes } in
      let empty : contents c.output ≡ [] = contents_empty c.output g.inv.output_valid e in
      let more : stream d ≡ s ++ take n bytes =
        ap (◌++◌ (c.wire ++ take n bytes)) empty
        ∙ append-nil (c.wire ++ take n bytes)
        ∙ ap (λ (v : List ℕ). v ++ take n bytes)
            (sym (append-nil c.wire) ∙ sym (ap (◌++◌ c.wire) empty) ∙ g.accepted) in
      let gd : Good (s ++ take n bytes) d = record {
        inv = record {
          input_valid = g.inv.input_valid;
          output_valid = g.inv.output_valid;
          mask = g.inv.mask;
          events = g.inv.events;
          flow = g.inv.flow;
          synced = g.inv.synced;
        };
        accepted = more;
      } in
      let t = took_all-Good (sub_size (length bytes) n) d gd in
      record {
        good = t.0;
        output = t.1;
        counted = sub_size_exact (length bytes) n h f;
        bounded = h;
        faulty = λ x. cc;
      }

  attempt-Attempted :
      {s : List ℕ} (c : Connection k) (bytes : List ℕ) (reply : Io)
      → Good s c
      → length bytes < size_mod
      → Plausible (length bytes) reply
      → Attempted s c bytes (attempt c bytes reply)
  unfolding attempt can_write
  attempt-Attempted c bytes reply g f h =
      elim (Bool-cases (not (is_writing c.channel) && readable_bytes c.output == 0)) [
        | inl e ↦ rw e (wrote_some-Attempted c bytes reply g (ground arith) f h)
        | inr e ↦ rw e (none_written c bytes false g)
      ]

  finish-Good :
      {s : List ℕ} (c : Connection k) (bytes : List ℕ) (a : Attempt k)
      → Attempted s c bytes a
      → Fits c.output (length bytes)
      → a.fault ≡ false
      → Good (s ++ bytes) (finish bytes a)
  unfolding finish keep_rest
  finish-Good {s} c bytes a t f e = elim (Bool-cases (ltb 0 a.remaining)) [
    | inl more ↦
        let w = warn_high-Good a.remaining a.conn t.good in
        let l = length-drop a.nwrote bytes in
        let all : take a.remaining (drop a.nwrote bytes) ≡ drop a.nwrote bytes =
          take_all a.remaining (drop a.nwrote bytes) (omega (arith, t.counted)) in
        let same : (warn_high a.remaining a.conn).output ≡ c.output = w.1 ∙ t.output in
        let room : Fits (warn_high a.remaining a.conn).output (length (drop a.nwrote bytes)) =
          rw same (omega arith) in
        let whole : (s ++ take a.nwrote bytes) ++ drop a.nwrote bytes ≡ s ++ bytes =
          append_assoc s (take a.nwrote bytes) (drop a.nwrote bytes)
          ∙ ap (◌++◌ s) (take-append-drop a.nwrote bytes) in
        rw (e, more, all)
          (rw whole at (
            keep_rest-Good (warn_high a.remaining a.conn) (drop a.nwrote bytes) w.0 room
              (omega (arith, t.counted, ltb→lt 0 a.remaining more))))
    | inr done ↦
        let all : take a.nwrote bytes ≡ bytes =
          take_all a.nwrote bytes (omega (arith, t.counted, ltb→le 0 a.remaining done)) in
        rw (e, done) (rw all at t.good)
  ]

  finish_fault :
      {s : List ℕ} (c : Connection k) (bytes : List ℕ) (a : Attempt k)
      → Attempted s c bytes a
      → a.fault ≡ true
      → Good s (finish bytes a)
  unfolding finish
  finish_fault {s} c bytes a t e =
      rw e (rw (take-zero_of a.nwrote bytes (t.faulty e), append-nil s) at t.good)

  -- Whether `sendInLoop` gives up on the bytes: the connection is down, or a write was tried and
  -- the socket turned out to be broken.
  abbrev pub refused : Connection k → Io → Bool
  refused c reply =
      is_disconnected c.state
      || (not (is_writing c.channel) && (readable_bytes c.output == 0) && reports_broken reply)

  attempt_fault :
      (c : Connection k) (bytes : List ℕ) (reply : Io)
      → (attempt c bytes reply).fault
        ≡ (not (is_writing c.channel) && (readable_bytes c.output == 0) && reports_broken reply)
  unfolding attempt can_write wrote_some is_fault
  attempt_fault c bytes (count n) = ground arith
  attempt_fault c bytes (fail errno) = ground arith

  finish-either :
      {s : List ℕ} (c : Connection k) (bytes : List ℕ) (a : Attempt k)
      → Attempted s c bytes a
      → Fits c.output (length bytes)
      → Good (if a.fault then s else s ++ bytes) (finish bytes a)
  finish-either {s} c bytes a t f =
      let goal : Bool → Type 0 = λ b. Good (if b then s else s ++ bytes) (finish bytes a) in
      elim (Bool-cases a.fault) [
        | inl bad ↦ subst goal (sym bad) (finish_fault c bytes a t bad)
        | inr fine ↦ subst goal (sym fine) (finish-Good c bytes a t f fine)
      ]

  -- `sendInLoop` on a sound connection, for bytes that fit in memory and a kernel that takes no
  -- more than it is offered, leaves a sound connection, whose stream is the old one with the given
  -- bytes behind it, however many of them the kernel took at once; or, if the bytes are refused,
  -- the old one.
  pub send_in_loop-Good :
      {s : List ℕ} (c : Connection k) (bytes : List ℕ) (reply : Io)
      → Good s c
      → Fits c.output (length bytes)
      → Plausible (length bytes) reply
      → Good (if refused c reply then s else s ++ bytes) (send_in_loop c bytes reply)
  unfolding send_in_loop
  send_in_loop-Good c bytes reply g f h = elim (Bool-cases (is_disconnected c.state)) [
    | inl down ↦ rw down g
    | inr up ↦
        rw (up, ← attempt_fault c bytes reply)
          (finish-either c bytes (attempt c bytes reply)
            (attempt-Attempted c bytes reply g (omega arith) h) f)
  ]
