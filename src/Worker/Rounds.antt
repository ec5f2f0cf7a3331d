-- ===== src/Worker/Rounds.antt =====
-- log_system/logs_code/AsyncWorker.hpp: what a round of the worker's thread does with the bytes.
use tcp_server.Worker.{Worker, begin, call_back, exchange, leave, returned}
use tcp_server.LogBuffer.{LogBuffer, readable_size, is_empty, swap, reset}
use tcp_server.LogBuffer.Growth.{IsValid, contents}
use tcp_server.Base.{
  ℕ, ◌≡◌, refl, sym, ap, ◌∙◌, inl, inr, true, List, [], ◌++◌, append-nil, append_assoc, arith,
  Bool-cases, length, take, drop, sub_size_exact,
}
use tcp_server.Buffer.Window.{length-window, window_empty}

-- The buffers are sound, and the bytes that were pushed are those that were handed over, then those
-- at the callback, then those in the producers' buffer.
pub record Carried (w : Worker) : Type 0 where
  pub productor_valid : IsValid w.productor
  pub consumer_valid : IsValid w.consumer
  pub in_order : w.pushed ≡ w.handed ++ (contents w.consumer ++ contents w.productor)

-- What a round does not touch.
pub record SameRest (w v : Worker) : Type 0 where
  pub async_type : v.async_type ≡ w.async_type
  pub stop : v.stop ≡ w.stop
  pub blocked : v.blocked ≡ w.blocked

is_empty→contents : (b : LogBuffer) → is_empty b ≡ true → contents b ≡ []
unfolding is_empty
is_empty→contents b e = window_empty b.bytes b.read_pos b.write_pos (ground arith)

pub contents→is_empty : (b : LogBuffer) → IsValid b → contents b ≡ [] → is_empty b ≡ true
unfolding is_empty
contents→is_empty b v e =
    ground
      (arith, length-window b.bytes b.read_pos b.write_pos v.order v.inside, ap length e, v.order)

begin_lem : (b : LogBuffer) → IsValid b → begin b ≡ contents b
unfolding begin readable_size
begin_lem b v =
    ap (λ n. take n (drop b.read_pos b.bytes))
      (sub_size_exact b.write_pos b.read_pos v.order (omega (arith, v.inside, v.small)))

reset-IsValid : (b : LogBuffer) → IsValid b → IsValid (reset b)
unfolding reset
reset-IsValid b v = record { order = omega arith; inside = omega arith; small = v.small }

pub call_back-Carried :
    (w : Worker)
    → Carried w
    → Carried (call_back w)
      × (contents (call_back w).consumer ≡ [])
      × ((call_back w).productor ≡ w.productor)
      × SameRest w (call_back w)
unfolding call_back reset
call_back-Carried w c = (
  record {
    productor_valid = c.productor_valid;
    consumer_valid = reset-IsValid w.consumer c.consumer_valid;
    in_order =
        c.in_order
        ∙ sym (append_assoc w.handed (contents w.consumer) (contents w.productor))
        ∙ ap (λ (z : List ℕ). (w.handed ++ z) ++ contents w.productor)
            (sym (begin_lem w.consumer c.consumer_valid));
  },
  refl,
  refl,
  record { async_type = refl; stop = refl; blocked = refl },
)

pub exchange-Carried :
    (w : Worker)
    → Carried w
    → contents w.consumer ≡ []
    → Carried (exchange w) × (contents (exchange w).productor ≡ []) × SameRest w (exchange w)
unfolding exchange swap
exchange-Carried w c e = elim (Bool-cases (is_empty w.productor)) [
  | inl none_new ↦ rw none_new (
    c,
    is_empty→contents w.productor none_new,
    record { async_type = refl; stop = refl; blocked = refl },
  )
  | inr some_new ↦ rw some_new (
    record {
      productor_valid = c.consumer_valid;
      consumer_valid = c.productor_valid;
      in_order =
          c.in_order
          ∙ ap (λ (z : List ℕ). w.handed ++ (z ++ contents w.productor)) e
          ∙ ap (◌++◌ w.handed)
              (sym (append-nil (contents w.productor)) ∙ ap (◌++◌ (contents w.productor)) (sym e));
    },
    e,
    record { async_type = refl; stop = refl; blocked = refl },
  )
]

pub leave-Carried :
    (w : Worker)
    → Carried w
    → Carried (leave w)
      × (contents (leave w).consumer ≡ [])
      × ((leave w).productor ≡ w.productor)
      × ((leave w).phase ≡ returned)
      × SameRest w (leave w)
unfolding leave
leave-Carried w c = elim (Bool-cases (is_empty w.consumer)) [
  | inl e ↦ rw e (
    record {
      productor_valid = c.productor_valid;
      consumer_valid = c.consumer_valid;
      in_order = c.in_order;
    },
    is_empty→contents w.consumer e,
    refl,
    refl,
    record { async_type = refl; stop = refl; blocked = refl },
  )
  | inr e ↦
      let (d, gone, kept, rest) = call_back-Carried w c in
      rw e (
        record {
          productor_valid = d.productor_valid;
          consumer_valid = d.consumer_valid;
          in_order = d.in_order;
        },
        gone,
        kept,
        refl,
        record { async_type = rest.async_type; stop = rest.stop; blocked = rest.blocked },
      )
]
