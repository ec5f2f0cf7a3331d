-- ===== src/Connection/Invariant.antt =====
-- src/TcpConnection.cpp: what holds of a connection between two calls.
use tcp_server.Base.{ℕ, ◌<◌, ◌≡◌, refl, ap, ap₂, ◌∙◌, List, [], ◌++◌, arith}
use tcp_server.Buffer.{Buffer, readable_bytes}
use tcp_server.Buffer.Window.{window_empty}
use tcp_server.Buffer.Layout.{IsValid, contents, readable_bytes_exact}
use tcp_server.Channel.{Channel, is_writing, Wish, wished}
use tcp_server.Channel.Masks.{
  Mask, bits, wants_write, switched, wished-bits, is_writing_lem, idle, reads, writes, both,
}
use tcp_server.Poller.{Epoll, set_events}
use tcp_server.Poller.Sync.{Synced, Others, update_channel-Updated}
use tcp_server.Connection.{Task, Connection, wish}

-- Whether the mask agrees with the output buffer: bytes that wait are waited for, and the write
-- event is wanted only while bytes wait. A mask of nothing, as before the connection is
-- established and after it is closed, says nothing of the buffer.
abbrev pub Flow : Mask → ℕ → Type 0
Flow idle waiting = Unit {0}
Flow reads waiting = waiting ≡ 0
Flow writes waiting = 0 < waiting
Flow both waiting = 0 < waiting

-- An output buffer with nothing to read has no contents.
pub contents_empty : (b : Buffer) → IsValid b → readable_bytes b ≡ 0 → contents b ≡ []
contents_empty b v e =
    window_empty b.bytes b.reader_index b.writer_index (omega (arith, readable_bytes_exact b v))

module _ {k : Epoll} where
  pub record Inv (c : Connection k) : Type 0 where
    pub input_valid : IsValid c.input
    pub output_valid : IsValid c.output
    pub mask : Mask
    pub events : c.channel.events ≡ bits mask
    pub flow : Flow mask (readable_bytes c.output)
    pub synced : Synced c.poller c.channel

  -- All that was accepted for sending: what the kernel took, and what waits behind it.
  abbrev pub stream : Connection k → List ℕ
  stream c = c.wire ++ contents c.output

  -- What a connection is apart from its channel and poller.
  pub record SameBut (c d : Connection k) : Type 0 where
    pub state : d.state ≡ c.state
    pub input : d.input ≡ c.input
    pub output : d.output ≡ c.output
    pub wire : d.wire ≡ c.wire
    pub queued : d.queued ≡ c.queued
    pub seen : d.seen ≡ c.seen
    pub shut : d.write_shut ≡ c.write_shut
    pub complete : d.has_write_complete ≡ c.has_write_complete

  -- A setter of the channel changes the mask as it is asked to, and keeps the poller in step.
  pub record Wished (w : Wish) (m : Mask) (c d : Connection k) : Type 0 where
    pub events : d.channel.events ≡ bits (switched w m)
    pub synced : Synced d.poller d.channel
    pub same : SameBut c d
    pub others : Others c.channel.fd c.poller d.poller
    pub quiet : d.poller.failed ≡ c.poller.failed
    pub tied : d.channel.tied ≡ c.channel.tied
    pub fd : d.channel.fd ≡ c.channel.fd

  pub wish-Wished :
      (w : Wish) (m : Mask) (c : Connection k)
      → c.channel.events ≡ bits m
      → Synced c.poller c.channel
      → Wished w m c (wish w c)
  unfolding wish set_events
  wish-Wished w m c e s =
      let u = update_channel-Updated c.poller c.channel (wished w c.channel.events) s in
      record {
        events = ap (λ (ch : Channel). ch.events) u.channel ∙ ap (wished w) e ∙ wished-bits w m;
        synced = u.synced;
        same = record {
          state = refl;
          input = refl;
          output = refl;
          wire = refl;
          queued = refl;
          seen = refl;
          shut = refl;
          complete = refl;
        };
        others = u.others;
        quiet = u.quiet;
        tied = ap (λ (ch : Channel). ch.tied) u.channel;
        fd = ap (λ (ch : Channel). ch.fd) u.channel;
      }

  pub is_writing_iff : (c : Connection k) (v : Inv c) → is_writing c.channel ≡ wants_write v.mask
  is_writing_iff c v = is_writing_lem c.channel v.mask v.events

  -- A sound connection that has accepted exactly `s` for sending.
  pub record Good (s : List ℕ) (c : Connection k) : Type 0 where
    pub inv : Inv c
    pub accepted : stream c ≡ s

  pub Good-queued :
      {s : List ℕ} (c : Connection k) (q : List Task) → Good s c → Good s (record c { queued = q })
  Good-queued c q g = record {
    inv = record {
      input_valid = g.inv.input_valid;
      output_valid = g.inv.output_valid;
      mask = g.inv.mask;
      events = g.inv.events;
      flow = g.inv.flow;
      synced = g.inv.synced;
    };
    accepted = g.accepted;
  }

  pub Wished-Good :
      {s : List ℕ} (w : Wish) (m : Mask) (c d : Connection k)
      → Wished w m c d
      → IsValid c.input
      → IsValid c.output
      → Flow (switched w m) (readable_bytes c.output)
      → stream c ≡ s
      → Good s d
  Wished-Good w m c d x i o f e = record {
    inv = record {
      input_valid = rw x.same.input i;
      output_valid = rw x.same.output o;
      mask = switched w m;
      events = x.events;
      flow = rw x.same.output f;
      synced = x.synced;
    };
    accepted = ap₂ (λ (v : List ℕ) b. v ++ contents b) x.same.wire x.same.output ∙ e;
  }
