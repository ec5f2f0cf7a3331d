-- ===== src/LogBuffer/Growth.antt =====
-- log_system/logs_code/AsyncBuffer.hpp: when a push fits, and what it adds.
use tcp_server.LogBuffer.{
  Config, LogBuffer, writeable_size, through_int, grown_size, to_be_enough, copy_in, push,
}
use tcp_server.Base.{
  ℕ, ◌+◌, ◌-◌, ◌*◌, ◌^◌, ◌≤◌, ◌<◌, ◌≡◌, refl, ap, ◌∙◌, inl, inr, true, false, none, some, List,
  ◌++◌, arith, ltb, leb, if◌then◌else◌, Bool-cases, length, replicate, copy_to, length-copy_to,
  size_mod, add_size, add_size_exact, sub_size_exact,
}
use tcp_server.Buffer.Window.{window, window_copy, window_grow}
use tcp_server.Buffer.Layout.{length-resize}

-- The indices are in order and inside the vector, and the vector is small enough for the `int`.
pub record IsValid (b : LogBuffer) : Type 0 where
  pub order : b.read_pos ≤ b.write_pos
  pub inside : b.write_pos ≤ length b.bytes
  pub small : length b.bytes < 2 ^ 31

-- The bytes that were pushed and not yet read.
abbrev pub contents : LogBuffer → List ℕ
contents b = window b.bytes b.read_pos b.write_pos

-- The vector's size at the copy of a push of `len` bytes, without wrap-around.
abbrev pub size_for : Config → LogBuffer → ℕ → ℕ
size_for cfg b len =
    if ltb (b.write_pos + len) (length b.bytes)
    then length b.bytes
    else if ltb (length b.bytes) cfg.threadhold
    then 3 * length b.bytes
    else cfg.linear_growth + length b.bytes

grown_size_exact :
    (cfg : Config) (size : ℕ)
    → size < 2 ^ 31
    → cfg.linear_growth < 2 ^ 31
    → grown_size cfg size ≡ (if ltb size cfg.threadhold then 3 * size else cfg.linear_growth + size)
unfolding grown_size through_int add_size
grown_size_exact cfg size h k = ground arith

-- What `ToBeEnough` leaves.
record Enough (cfg : Config) (b : LogBuffer) (len : ℕ) (e : LogBuffer) : Type 0 where
  size : length e.bytes ≡ size_for cfg b len
  write_pos : e.write_pos ≡ b.write_pos
  read_pos : e.read_pos ≡ b.read_pos
  same : contents e ≡ contents b

to_be_enough-Enough :
    (cfg : Config) (b : LogBuffer) (len : ℕ)
    → IsValid b
    → cfg.linear_growth < 2 ^ 31
    → Enough cfg b len (to_be_enough cfg b len)
unfolding to_be_enough writeable_size
to_be_enough-Enough cfg b len v g =
    let exact = sub_size_exact (length b.bytes) b.write_pos v.inside (omega (arith, v.small)) in
    let new_size = grown_size_exact cfg (length b.bytes) v.small g in
    let n = grown_size cfg (length b.bytes) in
    elim (Bool-cases (leb (length b.bytes - b.write_pos) len)) [
      | inl full ↦
          let grows : length b.bytes ≤ n = ground (arith, v.small) in
          rw (exact, full)
            (record {
              size = length-resize b.bytes n grows ∙ ground (arith, v.inside);
              write_pos = refl;
              read_pos = refl;
              same =
                  window_grow b.bytes (replicate (n - length b.bytes) 0) b.read_pos b.write_pos n
                    v.order v.inside grows;
            })
      | inr room ↦
          rw (exact, room)
            (record {
              size = ground (arith, v.inside);
              write_pos = refl;
              read_pos = refl;
              same = refl;
            })
    ]

-- What a push that fits leaves.
pub record Pushed (cfg : Config) (b : LogBuffer) (src : List ℕ) (c : LogBuffer) : Type 0 where
  pub done : push cfg b src ≡ some c
  pub more : contents c ≡ contents b ++ src
  pub read_pos : c.read_pos ≡ b.read_pos
  pub write_pos : c.write_pos ≡ b.write_pos + length src
  pub inside : c.write_pos ≤ length c.bytes
  pub size : length c.bytes ≡ size_for cfg b (length src)

-- On a valid buffer and with a linear growth below 2 GiB, a push for which the vector, after it has
-- grown at most once, has the room adds the bytes behind those that wait, and the vector has the
-- size that was reckoned.
pub push_fits :
    (cfg : Config) (b : LogBuffer) (src : List ℕ)
    → IsValid b
    → cfg.linear_growth < 2 ^ 31
    → b.write_pos + length src ≤ size_for cfg b (length src)
    → (c : LogBuffer) × Pushed cfg b src c
unfolding push copy_in
push_fits cfg b src v g h =
    let e = to_be_enough-Enough cfg b (length src) v g in
    let t = to_be_enough cfg b (length src) in
    let fits : leb (t.write_pos + length src) (length t.bytes) ≡ true =
      ground (arith, e.size, e.write_pos) in
    let below : t.write_pos + length src < size_mod =
      ground (arith, e.size, e.write_pos, v.small) in
    let room : t.write_pos + length src ≤ length t.bytes = ground (arith, e.size, e.write_pos) in
    (
      record t {
        bytes = copy_to t.bytes t.write_pos src;
        write_pos = add_size t.write_pos (length src);
      },
      record {
        done = rw fits;
        more = rw (add_size_exact t.write_pos (length src) below) (
            window_copy t.bytes t.read_pos t.write_pos src
              (omega (arith, e.write_pos, e.read_pos, v.order)) room
            ∙ ap (λ (x : List ℕ). x ++ src) e.same);
        read_pos = e.read_pos;
        write_pos =
            add_size_exact t.write_pos (length src) below ∙ ap (λ n. n + length src) e.write_pos;
        inside = omega (
          arith,
          length-copy_to t.bytes t.write_pos src (omega arith),
          add_size_exact t.write_pos (length src) below,
        );
        size = length-copy_to t.bytes t.write_pos src (omega arith) ∙ e.size;
      },
    )

-- On a valid buffer and with a linear growth below 2 GiB, a push for which the vector has not
-- enough room after it has grown once runs over its end.
pub push_overruns :
    (cfg : Config) (b : LogBuffer) (src : List ℕ)
    → IsValid b
    → cfg.linear_growth < 2 ^ 31
    → size_for cfg b (length src) < b.write_pos + length src
    → push cfg b src ≡ none
unfolding push copy_in
push_overruns cfg b src v g h =
    let e = to_be_enough-Enough cfg b (length src) v g in
    let t = to_be_enough cfg b (length src) in
    let over : leb (t.write_pos + length src) (length t.bytes) ≡ false =
      ground (arith, e.size, e.write_pos) in
    rw over

-- A producer that waited for the room, as the worker makes it in its safe mode, never runs over the
-- end.
pub push_waited :
    (cfg : Config) (b : LogBuffer) (src : List ℕ)
    → IsValid b
    → cfg.linear_growth < 2 ^ 31
    → length src ≤ writeable_size b
    → (c : LogBuffer) × Pushed cfg b src c
unfolding writeable_size
push_waited cfg b src v g h = push_fits cfg b src v g (
    ground (
      arith,
      sub_size_exact (length b.bytes) b.write_pos v.inside (omega (arith, v.small)),
      v.inside,
    ))
