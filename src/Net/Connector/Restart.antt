-- ===== src/Net/Connector/Restart.antt =====
-- A failed connection attempt: `handleWrite` restarts the connector, and the queued `resetEvent` runs
-- behind it.
use cpptool_box.Base.{
  ℕ, suc, ◌≡◌, ◌≢◌, refl, ap, arith, Bool, Option, if◌then◌else◌, eq_ℤ, ◌∙◌, true, none, some, ℤ,
  ok, ◌>>=◌, map_ok,
}
use cpptool_box.Event.Poller.Fresh.{Unused}
use cpptool_box.Net.Connector.{
  disconnected, Dial, opened, socket_error, emit, logs, re_start, reported, reset_event,
  handle_write, write_in,
}
use cpptool_box.Net.Connector.Channel.{IsDialing, remove_channel_lem, start-IsDialing, unchanneled}

unused_after :
    (b : Bool) (x y : Option ℕ) (id : ℕ) → y ≡ (if b then none else x) → x ≢ some id → y ≢ some id
unused_after b x y id h n = ground arith

free_after : (b : Bool) (x y : Option ℕ) → y ≡ (if b then none else x) → x ≡ none → y ≡ none
free_after b x y h n = ground arith

-- When the socket reports an error and the new attempt opens a descriptor, the task that was queued
-- for the old event resets the new one: the map still names an event that the connector, its owner, has let go.
pub restart-resets :
    (d : Dial) (id new : ℕ) (fd fd' : ℤ)
    → IsDialing d id fd
    → Unused d.poller new
    → d.poller.fd_event_maps fd' ≡ none
    → (e : Dial) × (handle_write socket_error (opened fd' new) d ≡ ok e)
      × IsDialing e new fd'
      × (e.resets ≡ suc d.resets)
      × ((reset_event e).connector.event ≡ none)
      × ((reset_event e).poller.fd_event_maps fd' ≡ some new)
unfolding handle_write re_start reset_event
restart-resets d id new fd fd' c u n =
    let (q, r, f) = remove_channel_lem d id fd c in
    let t = emit logs (unchanneled d q) in
    let b : Dial = record t {
      connector = record t.connector { state = disconnected; connect = true };
    } in
    let (e, s, _, k, g) =
      start-IsDialing b fd' new refl f.valid
        (λ k.
          unused_after (eq_ℤ fd k) (d.poller.fd_event_maps k) (q.fd_event_maps k) new (f.others k)
            (u k))
        (free_after (eq_ℤ fd fd') (d.poller.fd_event_maps fd') (q.fd_event_maps fd') (f.others fd')
          n) in
    (
      e,
      ap (λ x. write_in x socket_error (opened fd' new) d) c.waiting
          ∙ ap (λ x. x >>= reported socket_error (opened fd' new)) r
          ∙ ap (map_ok (λ (b, e). e)) s,
      g,
      k,
      refl,
      g.entry,
    )
