-- ===== src/Net/Connector/Channel.antt =====
-- The channel of a connector: its event from `start` to `handleWrite` or `stop`.
use cpptool_box.Base.{
  ℕ, suc, ◌≡◌, refl, sym, subst, ap, ◌∙◌, [], ◌∷◌, ◌++◌, Bool, true, false, Option, none, some,
  if◌then◌else◌, ℤ, eq_ℤ, ==_refl, inr, ok, ◌>>=◌,
}
use cpptool_box.Event.Poller.{
  Poller, persist, new_event, set_event, none_event, enable_writing, disable_all,
}
use cpptool_box.Event.Poller.Valid.{IsValid, interest}
use cpptool_box.Event.Poller.Updates.{Usable, with_mask-total, with_mask-frame}
use cpptool_box.Event.Poller.Removal.{remove-total, remove-frame}
use cpptool_box.Event.Poller.Fresh.{Unused, fresh-IsValid, fresh-Usable}
use cpptool_box.Net.Connector.{
  disconnected, connecting, connected, Dial, hands_over, closes_socket, Attempt, opened, fine, emit,
  with_state, start, start_with, reset_event, stop, stop_in, remove_and_reset_channel,
  remove_channel, handle_write, write_in, reported,
}

-- The connector waits for the descriptor `fd` of its event `id` to be writable.
pub record IsDialing (d : Dial) (id : ℕ) (fd : ℤ) : Type 0 where
  pub waiting : d.connector.state ≡ connecting
  pub channel : d.connector.event ≡ some id
  pub valid : IsValid d.poller
  pub descriptor : (d.poller.event id).fd ≡ fd
  pub entry : d.poller.fd_event_maps fd ≡ some id

-- From `p` to `q` the poller has forgotten the descriptor, and nothing else.
pub record IsForgotten (p q : Poller) (fd : ℤ) : Type 0 where
  pub valid : IsValid q
  pub unmapped : q.fd_event_maps fd ≡ none
  pub unwatched : interest q.ctl fd ≡ none
  pub others : (k : ℤ) → q.fd_event_maps k ≡ (if eq_ℤ fd k then none else p.fd_event_maps k)

fresh-fd :
    (p : Poller) (id : ℕ) (fd : ℤ) → ((set_event p id (new_event fd persist)).event id).fd ≡ fd
unfolding new_event
fresh-fd p id fd = rw (==_refl id) refl

-- Where `start` opens a descriptor without an entry, it returns true, and the connector waits for it.
pub start-IsDialing :
    (d : Dial) (fd : ℤ) (id : ℕ)
    → d.connector.state ≡ disconnected
    → IsValid d.poller
    → Unused d.poller id
    → d.poller.fd_event_maps fd ≡ none
    → (e : Dial) × (start (opened fd id) d ≡ ok (true, e))
      × (e.effects ≡ d.effects)
      × (e.resets ≡ d.resets)
      × IsDialing e id fd
unfolding start enable_writing
start-IsDialing d fd id s v u n =
    let p = set_event d.poller id (new_event fd persist) in
    let (q, e, w, m, _, _, f) =
      with_mask-total p id (record (p.event id).events { writes = true })
        (fresh-IsValid d.poller id fd persist v u) (fresh-Usable d.poller id fd persist n) in
    let g : (q.event id).fd ≡ fd = f id ∙ fresh-fd d.poller id fd in
    (
      record d {
        connector = record d.connector { event = some id; state = connecting };
        poller = q;
      },
      ap (λ x. start_with x (opened fd id) d) s ∙ rw e refl,
      refl,
      refl,
      record {
        waiting = refl;
        channel = refl;
        valid = w;
        descriptor = g;
        entry = subst (λ k. q.fd_event_maps k ≡ some id) g m;
      },
    )

-- The connector after its channel is gone.
abbrev pub unchanneled : Dial → Poller → Dial
unchanneled d q = record d { poller = q; resets = suc d.resets }

kept_entries :
    (b : Bool) (x y : Option ℕ) (id : ℕ)
    → x ≡ (if b then some id else y)
    → (if b then none else x) ≡ (if b then none else y)
kept_entries true x y id h = refl
kept_entries false x y id h = h

pub remove_channel_lem :
    (d : Dial) (id : ℕ) (fd : ℤ)
    → IsDialing d id fd
    → (q : Poller) × (remove_and_reset_channel d ≡ ok (unchanneled d q)) × IsForgotten d.poller q fd
unfolding remove_and_reset_channel disable_all
remove_channel_lem d id fd c =
    let u : Usable d.poller id =
      inr (subst (λ k. d.poller.fd_event_maps k ≡ some id) (sym c.descriptor) c.entry) in
    let (p, e, w, n, m, _, f) = with_mask-total d.poller id none_event c.valid u in
    let (q, g, x, y, z, _, _) = remove-total p id w m n in
    let h : (p.event id).fd ≡ fd = f id ∙ c.descriptor in
    (
      q,
      ap (λ o. remove_channel o d) c.channel ∙ rw (e, g) refl,
      record {
        valid = x;
        unmapped = subst (λ k. q.fd_event_maps k ≡ none) h y;
        unwatched = subst (λ k. interest q.ctl k ≡ none) h z;
        others = λ k.
            subst (λ j. q.fd_event_maps k ≡ (if eq_ℤ j k then none else p.fd_event_maps k)) h
              (remove-frame p q id w m n g k)
            ∙ kept_entries (eq_ℤ fd k) (p.fd_event_maps k) (d.poller.fd_event_maps k) id (
                subst
                  (λ j.
                    p.fd_event_maps k ≡ (if eq_ℤ j k then some id else d.poller.fd_event_maps k))
                  c.descriptor (with_mask-frame d.poller p id none_event c.valid u e k));
      },
    )

-- A connection that is made: the connector is connected, the poller has forgotten the descriptor, so
-- that the connection can register it, and the callback has the socket.
pub handle_write-connects :
    (d : Dial) (id : ℕ) (fd : ℤ) (a : Attempt)
    → IsDialing d id fd
    → d.connector.connect_cb ≡ true
    → (e : Dial) × (handle_write fine a d ≡ ok e)
      × (e.connector.state ≡ connected)
      × (e.effects ≡ d.effects ++ (hands_over ∷ []))
      × (e.resets ≡ suc d.resets)
      × IsForgotten d.poller e.poller fd
unfolding handle_write
handle_write-connects d id fd a c b =
    let (q, e, f) = remove_channel_lem d id fd c in
    (
      emit hands_over (with_state connected (unchanneled d q)),
      ap (λ x. write_in x fine a d) c.waiting
          ∙ ap (λ r. r >>= reported fine a) e
          ∙ ap
              (λ x. ok (
                if x
                then emit hands_over (with_state connected (unchanneled d q))
                else emit closes_socket (with_state connected (unchanneled d q))))
              b,
      refl,
      refl,
      refl,
      f,
    )

-- `stop` while the connector waits takes the event out of the poller, but leaves the state as it is, so
-- that every later `start` returns false and does nothing.
pub stop-start :
    (d : Dial) (id : ℕ) (fd : ℤ) (a : Attempt)
    → IsDialing d id fd
    → (e : Dial) × (stop d ≡ ok e)
      × IsForgotten d.poller e.poller fd
      × (start a (reset_event e) ≡ ok (false, reset_event e))
unfolding stop start reset_event
stop-start d id fd a c =
    let t : Dial = record d { connector = record d.connector { connect = false } } in
    let (q, e, f) = remove_channel_lem t id fd (record {
      waiting = c.waiting;
      channel = c.channel;
      valid = c.valid;
      descriptor = c.descriptor;
      entry = c.entry;
    }) in
    (
      unchanneled t q,
      ap (λ x. stop_in x t) c.waiting ∙ e,
      f,
      ap (λ x. start_with x a (reset_event (unchanneled t q))) c.waiting,
    )
