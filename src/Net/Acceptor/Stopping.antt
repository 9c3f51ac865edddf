-- ===== src/Net/Acceptor/Stopping.antt =====
-- The acceptor: its start on every path, and what `stop` leaves.
use cpptool_box.Base.{ℕ, ◌≡◌, refl, ap, ◌∙◌, true, false, none, some, inr, ok}
use cpptool_box.Event.Poller.{is_added, disable_reading}
use cpptool_box.Event.Poller.Valid.{IsValid, interest}
use cpptool_box.Event.Poller.Updates.{with_mask-total}
use cpptool_box.Net.Acceptor.{
  started, Listener, Attempt, start, start_with, stop, stop_in, disable, emit, logs,
}

-- The acceptor runs, and its event `id` waits for the descriptor `fd` to be readable and for nothing else.
pub record IsListening (l : Listener) (id : ℕ) : Type 0 where
  pub running : l.acceptor.state ≡ started
  pub channel : l.acceptor.event ≡ some id
  pub valid : IsValid l.poller
  pub entry : l.poller.fd_event_maps (l.poller.event id).fd ≡ some id
  pub added : (l.poller.event id).index ≡ is_added
  pub reading : (l.poller.event id).events ≡ record { reads = true; writes = false }

-- A stopped acceptor takes no more connections, and a later `start` returns true without letting epoll
-- watch the descriptor again: the state never leaves `started`.
pub stop-start_deaf :
    (l : Listener) (id : ℕ) (a : Attempt)
    → IsListening l id
    → (k : Listener) × (stop l ≡ ok k)
      × (start a k ≡ ok (true, emit logs k))
      × IsValid k.poller
      × (interest k.poller.ctl (l.poller.event id).fd ≡ none)
unfolding stop start disable_reading
stop-start_deaf l id a c =
    let (q, e, v, _, _, i, _) =
      with_mask-total l.poller id (record (l.poller.event id).events { reads = false }) c.valid
        (inr c.entry) in
    (
      record l { poller = q },
      ap (λ x. stop_in x l) c.running ∙ ap (λ o. disable o l) c.channel ∙ rw e refl,
      ap (λ x. start_with x a (record l { poller = q })) c.running,
      v,
      i ∙ rw (c.added, c.reading) refl,
    )
