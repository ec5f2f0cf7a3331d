-- ===== src/Connection/Lifecycle/Tasks.antt =====
-- src/TcpConnection.cpp: what becomes of the functors that a connection leaves in the queue.
use tcp_server.Base.{
  ℕ, ◌+◌, ◌≡◌, refl, some, if◌then◌else◌, ap, ◌∙◌, true, false, none, List, [], ◌∷◌, ◌++◌, length,
}
use tcp_server.Buffer.{readable_bytes, Io}
use tcp_server.Buffer.Layout.{Fits}
use tcp_server.Channel.{is_writing}
use tcp_server.Poller.{Epoll}
use tcp_server.Connection.{Task, above_mark, high_water, Connection, Handlers}
use tcp_server.Connection.Invariant.{Good}
use tcp_server.Connection.Send.{send_in_loop}
use tcp_server.Connection.Send.Stream.{Plausible, refused}
use tcp_server.Connection.Send.Notes.{passes, send_in_loop_queued}
use tcp_server.Connection.Lifecycle.{run_task}

module _ {k : Epoll} where
  -- A sound connection that waits for write events and whose output reaches the mark by a send that
  -- fits leaves one more functor in the queue. Whatever connection it is called on, and whether that
  -- has a high-water callback by then or not, the call is decided by what was set when the bytes were
  -- sent: the callback with the size that the output had reached, or else the exception of an empty
  -- `std::function`.
  pub unset_mark_lem :
      {s : List ℕ} (h : Handlers k) (c e : Connection k) (bytes file : List ℕ) (reply answer : Io)
      → Good s c
      → Fits c.output (length bytes)
      → Plausible (length bytes) reply
      → refused c reply ≡ false
      → is_writing c.channel ≡ true
      → passes c (length bytes) ≡ true
      → (t : Task) × ((send_in_loop c bytes reply).queued ≡ c.queued ++ (t ∷ []))
        × (run_task h e file t answer ≡ (
            if c.has_high_water
            then some (
                h.on_high_water (readable_bytes c.output + length bytes) (record e {
                  seen = e.seen ++ (above_mark (readable_bytes c.output + length bytes) ∷ []);
                }))
            else none))
  unfolding run_task
  unset_mark_lem h c e bytes file reply answer g f p r w x = (
    high_water c.has_high_water (readable_bytes c.output + length bytes),
    send_in_loop_queued c bytes reply g f p r ∙ ap (◌++◌ c.queued) (rw (w, x)),
    refl,
  )
