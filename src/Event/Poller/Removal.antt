-- ===== src/Event/Poller/Removal.antt =====
-- gwcpp/event/EpollFdEvent.cpp (remove), Poller.cpp (removeEvent), and gwcpp/net/Connector.cpp
-- (removeAndResetChannel): an event leaves the poller.
use cpptool_box.Base.{
  ℕ, ◌≡◌, ◌≢◌, refl, subst, none, some, if◌then◌else◌, arith, ℤ, eq_ℤ, false, eq_ℤ_iff, eq_ℤ_refl,
  ==_refl, ◌∙◌, sym, ap, some-injective,
}
use cpptool_box.Event.Poller.{
  none_event, Index, is_new, is_added, is_deleted, FdEvent, ctl_del, Poller, update, set_event,
  set_map, remove_by_index, remove, remove_event,
}
use cpptool_box.Event.Poller.Valid.{IsValid, interest, Accepted, changed-IsValid}
use cpptool_box.Event.Poller.Updates.{Changed, AgreesAt}

-- The event once it has left.
abbrev pub unmasked : Poller → ℕ → FdEvent
unmasked p id = record (p.event id) { added_to_loop = false }

remove_lem :
    (p : Poller) (id : ℕ)
    → (p.event id).events ≡ none_event
    → p.fd_event_maps (p.event id).fd ≡ some id
    → remove p id
      ≡ remove_by_index (p.event id).index (set_event p id (unmasked p id)) id (unmasked p id)
unfolding remove remove_event
remove_lem p id n m = rw (n, ==_refl id, m, ==_refl id) refl

drops_added :
    (p : Poller) (id : ℕ)
    → interest p.ctl (p.event id).fd ≢ none
    → Changed p
        (set_event
          (update
            (set_map (set_event p id (unmasked p id)) (p.event id).fd none)
            (ctl_del (p.event id).fd (p.event id).events))
          id
          (record (unmasked p id) { index = is_new }))
        id
        (record (unmasked p id) { index = is_new })
        none
        none
unfolding interest Accepted
drops_added p id i = record {
  event_at = λ j. ground arith;
  map_at = λ k. refl;
  interest_at = λ k. refl;
  accepted = λ a. (i, a);
}

drops_deleted :
    (p : Poller) (id : ℕ)
    → interest p.ctl (p.event id).fd ≡ none
    → Changed p
        (set_event
          (set_map (set_event p id (unmasked p id)) (p.event id).fd none)
          id
          (record (unmasked p id) { index = is_new }))
        id
        (record (unmasked p id) { index = is_new })
        none
        none
drops_deleted p id i = record {
  event_at = λ j. ground arith;
  map_at = λ k. refl;
  interest_at = λ k. ground (arith, eq_ℤ_iff (p.event id).fd k, i);
  accepted = λ a. a;
}

drops :
    (x : Index) (p : Poller) (id : ℕ)
    → IsValid p
    → p.fd_event_maps (p.event id).fd ≡ some id
    → (p.event id).index ≡ x
    → (q : Poller) × (remove_by_index x (set_event p id (unmasked p id)) id (unmasked p id)
        ≡ some q)
      × Changed p q id (record (unmasked p id) { index = is_new }) none none
drops is_new p id v m e =
    let a : AgreesAt p id is_new = subst (λ y. AgreesAt p id y) e (v.agrees id) in absurd (a.0 m)
drops is_added p id v m e =
    let a : AgreesAt p id is_added = subst (λ y. AgreesAt p id y) e (v.agrees id) in
    let w : interest p.ctl (p.event id).fd ≢ none = ground (arith, a.1) in
    (_, refl, drops_added p id w)
drops is_deleted p id v m e =
    let a : AgreesAt p id is_deleted = subst (λ y. AgreesAt p id y) e (v.agrees id) in
    (_, refl, drops_deleted p id a.1)

-- In a valid state, removing a disabled event that has its entry succeeds and leaves a valid state, in
-- which its descriptor has no entry and no mask and the event is new; no event changes its descriptor.
pub remove-total :
    (p : Poller) (id : ℕ)
    → IsValid p
    → (p.event id).events ≡ none_event
    → p.fd_event_maps (p.event id).fd ≡ some id
    → (q : Poller) × (remove p id ≡ some q)
      × IsValid q
      × (q.fd_event_maps (p.event id).fd ≡ none)
      × (interest q.ctl (p.event id).fd ≡ none)
      × ((q.event id).index ≡ is_new)
      × ((j : ℕ) → (q.event j).fd ≡ (p.event j).fd)
remove-total p id v n m =
    let (q, h, c) = drops (p.event id).index p id v m refl in
    (
      q,
      remove_lem p id n m ∙ h,
      changed-IsValid p q id (record (unmasked p id) { index = is_new }) none none v refl
          (λ j k. ground (arith, m, k)) (λ j k. ground (arith, k)) (λ k. refl)
          ((λ k. ground (arith, k)), tt) c.event_at c.map_at c.interest_at (c.accepted v.accepted),
      rw (c.map_at (p.event id).fd, eq_ℤ_refl (p.event id).fd) refl,
      rw (c.interest_at (p.event id).fd, eq_ℤ_refl (p.event id).fd) refl,
      rw (c.event_at id, ==_refl id) refl,
      λ j. ground (arith, c.event_at j),
    )

-- The other entries of the map stay as they are.
pub remove-frame :
    (p q : Poller) (id : ℕ)
    → IsValid p
    → (p.event id).events ≡ none_event
    → p.fd_event_maps (p.event id).fd ≡ some id
    → remove p id ≡ some q
    → (k : ℤ) → q.fd_event_maps k ≡ (if eq_ℤ (p.event id).fd k then none else p.fd_event_maps k)
remove-frame p q id v n m e k =
    let (r, h, c) = drops (p.event id).index p id v m refl in
    let same : r ≡ q = some-injective (sym (remove_lem p id n m ∙ h) ∙ e) in
    ap (λ x. x.fd_event_maps k) (sym same) ∙ c.map_at k
