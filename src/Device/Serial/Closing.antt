-- ===== src/Device/Serial/Closing.antt =====
-- What stopping and closing a running device leaves.
use cpptool_box.Base.{ℕ, ◌≡◌, refl, ap, ◌∙◌, false, none, some, inr, ok, map_ok, subst}
use cpptool_box.Event.Poller.{Poller, none_event, disable_all}
use cpptool_box.Event.Poller.Valid.{IsValid}
use cpptool_box.Event.Poller.Updates.{with_mask-total}
use cpptool_box.Device.Serial.{
  k_none, k_running, SerialDevice, start, start_in, stop, stop_in, close, cleanup, reset_state,
  with_event, with_poller,
}

-- A running device, with its event `id` in the poller.
pub record IsRunning (s : SerialDevice) (id : ℕ) : Type 0 where
  pub running : s.state ≡ k_running
  pub channel : s.serial_event ≡ some id
  pub valid : IsValid s.poller
  pub entry : s.poller.fd_event_maps (s.poller.event id).fd ≡ some id

stop_lem :
    (s : SerialDevice) (id : ℕ)
    → IsRunning s id
    → (q : Poller) × (stop s ≡ ok (with_poller s q))
      × IsValid q
      × (q.fd_event_maps (s.poller.event id).fd ≡ some id)
unfolding stop disable_all
stop_lem s id r =
    let (q, e, v, n, _, _, f) = with_mask-total s.poller id none_event r.valid (inr r.entry) in
    (
      q,
      ap (λ x. stop_in x s) r.running ∙ ap (λ o. with_event disable_all o s) r.channel ∙ rw e refl,
      v,
      subst (λ k. q.fd_event_maps k ≡ some id) (f id) n,
    )

-- A device that is stopped cannot be started again: its state stays `k_running`.
pub stop-start_refused :
    (s : SerialDevice) (id : ℕ)
    → IsRunning s id
    → (t : SerialDevice) × (stop s ≡ ok t) × (start t ≡ ok (false, t))
unfolding start
stop-start_refused s id r =
    let (q, e, _, _) = stop_lem s id r in
    (with_poller s q, e, ap (λ x. start_in x (with_poller s q)) r.running)

-- `close` deletes the event of a running device, but the poller keeps the entry that names it.
pub close-dangles :
    (s : SerialDevice) (id : ℕ)
    → IsRunning s id
    → (t : SerialDevice) × (close s ≡ ok t)
      × (t.state ≡ k_none)
      × (t.serial_event ≡ none)
      × (t.poller.fd_event_maps (s.poller.event id).fd ≡ some id)
unfolding close cleanup
close-dangles s id r =
    let (q, e, _, n) = stop_lem s id r in
    (
      reset_state (cleanup (with_poller s q)),
      ap (map_ok (λ t. reset_state (cleanup t))) e,
      refl,
      refl,
      n,
    )
