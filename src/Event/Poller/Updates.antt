-- ===== src/Event/Poller/Updates.antt =====
-- gwcpp/event/EpollFdEvent.h and Poller.cpp: a change of an event's mask, and its removal.
use cpptool_box.Base.{
  ℕ, ◌≡◌, ◌≢◌, refl, subst, Option, none, some, ◌==◌, if◌then◌else◌, arith, ℤ, eq_ℤ, ◌||◌, not,
  true, false, eq_ℤ_iff, eq_ℤ_refl, ==_refl, Bool-cases, inl, inr, ◌⊎◌, ◌∙◌, sym, ap,
  some-injective,
}
use cpptool_box.Event.Poller.{
  Mask, Index, is_new, is_added, is_deleted, FdEvent, ctl_mod, ctl_del, Poller, update, set_event,
  set_map, add_event, update_by_index, update_event, with_mask, is_none_event,
}
use cpptool_box.Event.Poller.Valid.{IsValid, interest, Accepted, Agrees, changed-IsValid}

-- The event with its new mask.
abbrev pub masked : Poller → ℕ → Mask → FdEvent
masked p id m = record (p.event id) { events = m; added_to_loop = true }

pub with_mask_lem :
    (p : Poller) (id : ℕ) (m : Mask)
    → with_mask p id m
      ≡ update_by_index (p.event id).index (set_event p id (masked p id m)) id (masked p id m)
unfolding update_event
with_mask_lem p id m = rw (==_refl id)

-- The event `id` can be updated: it has its entry, or it is new and no event has its descriptor.
abbrev pub Usable : Poller → ℕ → Type 0
Usable p id =
    ((p.event id).index ≡ is_new) × (p.fd_event_maps (p.event id).fd ≡ none)
    ⊎ (p.fd_event_maps (p.event id).fd ≡ some id)

-- What one call does: the event is `e` now, and its descriptor has the entry `o` and the mask `i`.
pub record Changed (p q : Poller) (id : ℕ) (e : FdEvent) (o : Option ℕ) (i : Option Mask)
    : Type 0 where
  pub event_at : (j : ℕ) → q.event j ≡ (if id == j then e else p.event j)
  pub map_at : (k : ℤ) → q.fd_event_maps k ≡ (if eq_ℤ e.fd k then o else p.fd_event_maps k)
  pub interest_at : (k : ℤ) → interest q.ctl k ≡ (if eq_ℤ e.fd k then i else interest p.ctl k)
  pub accepted : Accepted p.ctl → Accepted q.ctl

adds :
    (p : Poller) (id : ℕ) (m : Mask)
    → p.fd_event_maps (p.event id).fd ≡ none
    → interest p.ctl (p.event id).fd ≡ none
    → Changed p
        (add_event
          (set_map (set_event p id (masked p id m)) (p.event id).fd (some id))
          id
          (masked p id m))
        id
        (record (masked p id m) { index = is_added })
        (some id)
        (some m)
unfolding interest Accepted
adds p id m h i = record {
  event_at = λ j. ground arith;
  map_at = λ k. refl;
  interest_at = λ k. refl;
  accepted = λ a. (i, a);
}

re_adds :
    (p : Poller) (id : ℕ) (m : Mask)
    → p.fd_event_maps (p.event id).fd ≡ some id
    → interest p.ctl (p.event id).fd ≡ none
    → Changed p
        (add_event (set_event p id (masked p id m)) id (masked p id m))
        id
        (record (masked p id m) { index = is_added })
        (some id)
        (some m)
unfolding interest Accepted
re_adds p id m h i = record {
  event_at = λ j. ground arith;
  map_at = λ k. ground (arith, eq_ℤ_iff (p.event id).fd k, h);
  interest_at = λ k. refl;
  accepted = λ a. (i, a);
}

modifies :
    (p : Poller) (id : ℕ) (m : Mask)
    → p.fd_event_maps (p.event id).fd ≡ some id
    → interest p.ctl (p.event id).fd ≢ none
    → (p.event id).index ≡ is_added
    → Changed p
        (update (set_event p id (masked p id m)) (ctl_mod (p.event id).fd m))
        id
        (record (masked p id m) { index = is_added })
        (some id)
        (some m)
unfolding interest Accepted
modifies p id m h i x = record {
  event_at = λ j. rw x;
  map_at = λ k. ground (arith, eq_ℤ_iff (p.event id).fd k, h);
  interest_at = λ k. refl;
  accepted = λ a. (i, a);
}

deletes :
    (p : Poller) (id : ℕ) (m : Mask)
    → p.fd_event_maps (p.event id).fd ≡ some id
    → interest p.ctl (p.event id).fd ≢ none
    → Changed p
        (set_event
          (update (set_event p id (masked p id m)) (ctl_del (p.event id).fd m))
          id
          (record (masked p id m) { index = is_deleted }))
        id
        (record (masked p id m) { index = is_deleted })
        (some id)
        none
unfolding interest Accepted
deletes p id m h i = record {
  event_at = λ j. ground arith;
  map_at = λ k. ground (arith, eq_ℤ_iff (p.event id).fd k, h);
  interest_at = λ k. refl;
  accepted = λ a. (i, a);
}

-- The index and the mask in the kernel that a call of `updateEvent` leaves.
abbrev pub next_index : Index → FdEvent → Index
next_index is_new e = is_added
next_index is_deleted e = is_added
next_index is_added e = if is_none_event e then is_deleted else is_added

abbrev pub next_interest : Index → FdEvent → Option Mask
next_interest is_new e = some e.events
next_interest is_deleted e = some e.events
next_interest is_added e = if is_none_event e then none else some e.events

abbrev pub AgreesAt : Poller → ℕ → Index → Type 0
AgreesAt p id x =
    Agrees id (p.event id).events x (p.fd_event_maps (p.event id).fd)
      (interest p.ctl (p.event id).fd)

updates :
    (x : Index) (p : Poller) (id : ℕ) (m : Mask)
    → IsValid p
    → Usable p id
    → (p.event id).index ≡ x
    → (q : Poller) × (update_by_index x (set_event p id (masked p id m)) id (masked p id m)
        ≡ some q)
      × Changed p q id
          (record (masked p id m) { index = next_index x (masked p id m) })
          (some id)
          (next_interest x (masked p id m))
updates is_new p id m v (inl u) e =
    let a = adds p id m u.1 (v.absent (p.event id).fd u.1) in rw u.1 (_, refl, a)
updates is_new p id m v (inr u) e =
    let a : AgreesAt p id is_new = subst (λ y. AgreesAt p id y) e (v.agrees id) in absurd (a.0 u)
updates is_added p id m v u e =
    let a : AgreesAt p id is_added = subst (λ y. AgreesAt p id y) e (v.agrees id) in
    let w : interest p.ctl (p.event id).fd ≢ none = ground (arith, a.1) in
    elim (Bool-cases (m.reads || m.writes)) [
      | inl b ↦ rw (b, a.0, ==_refl id) (_, refl, modifies p id m a.0 w e)
      | inr b ↦ rw (b, a.0, ==_refl id) (_, refl, deletes p id m a.0 w)
    ]
updates is_deleted p id m v u e =
    let a : AgreesAt p id is_deleted = subst (λ y. AgreesAt p id y) e (v.agrees id) in
    rw (a.0, ==_refl id) (_, refl, re_adds p id m a.0 a.1)

-- The mask that epoll has of the event after its mask is set to `m`.
abbrev pub kernel_mask : Index → Mask → Option Mask
kernel_mask is_new m = some m
kernel_mask is_deleted m = some m
kernel_mask is_added m = if m.reads || m.writes then some m else none

next-Agrees :
    (id : ℕ) (x : Index) (e : FdEvent)
    → Agrees id e.events (next_index x e) (some id) (next_interest x e)
next-Agrees id is_new e = (refl, refl)
next-Agrees id is_deleted e = (refl, refl)
next-Agrees id is_added e =
    elim (e.events.reads || e.events.writes)
      as (λ b.
        Agrees id e.events (if not b then is_deleted else is_added) (some id)
          (if not b then none else some e.events)) [ true ↦ (refl, refl) | false ↦ (refl, refl) ]

next_interest_lem : (x : Index) (e : FdEvent) → next_interest x e ≡ kernel_mask x e.events
next_interest_lem is_new e = refl
next_interest_lem is_deleted e = refl
next_interest_lem is_added e =
    elim (e.events.reads || e.events.writes)
      as (λ b. (if not b then none else some e.events) ≡ (if b then some e.events else none)) [
        | true ↦ refl
        | false ↦ refl
      ]

Usable-own :
    (p : Poller) (id j : ℕ) → Usable p id → p.fd_event_maps (p.event id).fd ≡ some j → j ≡ id
Usable-own p id j u h = ground (arith, u)

-- In a valid state, setting the mask of an event that can be updated succeeds and leaves a valid
-- state: the event has its entry and the mask, epoll has the mask or has dropped the descriptor if it
-- watched it and the mask is empty, and no event changes its descriptor.
pub with_mask-total :
    (p : Poller) (id : ℕ) (m : Mask)
    → IsValid p
    → Usable p id
    → (q : Poller) × (with_mask p id m ≡ some q)
      × IsValid q
      × (q.fd_event_maps (q.event id).fd ≡ some id)
      × ((q.event id).events ≡ m)
      × (interest q.ctl (p.event id).fd ≡ kernel_mask (p.event id).index m)
      × ((j : ℕ) → (q.event j).fd ≡ (p.event j).fd)
with_mask-total p id m v u =
    let (q, h, c) = updates (p.event id).index p id m v u refl in
    let e : FdEvent = record (masked p id m) {
      index = next_index (p.event id).index (masked p id m);
    } in
    (
      q,
      with_mask_lem p id m ∙ h,
      changed-IsValid p q id e (some id) (next_interest (p.event id).index (masked p id m)) v refl
          (λ j. Usable-own p id j u) (λ j k. ground (arith, k)) (λ k. ground (arith, k))
          (next-Agrees id (p.event id).index (masked p id m)) c.event_at c.map_at c.interest_at
          (c.accepted v.accepted),
      rw (c.event_at id, ==_refl id, c.map_at (p.event id).fd, eq_ℤ_refl (p.event id).fd) refl,
      rw (c.event_at id, ==_refl id) refl,
      rw (c.interest_at (p.event id).fd, eq_ℤ_refl (p.event id).fd)
          (next_interest_lem (p.event id).index (masked p id m)),
      λ j. ground (arith, c.event_at j),
    )

-- The other entries of the map stay as they are.
pub with_mask-frame :
    (p q : Poller) (id : ℕ) (m : Mask)
    → IsValid p
    → Usable p id
    → with_mask p id m ≡ some q
    → (k : ℤ) → q.fd_event_maps k ≡ (if eq_ℤ (p.event id).fd k then some id else p.fd_event_maps k)
with_mask-frame p q id m v u e k =
    let (r, h, c) = updates (p.event id).index p id m v u refl in
    let same : r ≡ q = some-injective (sym (with_mask_lem p id m ∙ h) ∙ e) in
    ap (λ x. x.fd_event_maps k) (sym same) ∙ c.map_at k

-- The event keeps the flags that `update` does not write.
pub with_mask-lock :
    (p q : Poller) (id : ℕ) (m : Mask)
    → IsValid p
    → Usable p id
    → with_mask p id m ≡ some q
    → (q.event id).lock_event ≡ (p.event id).lock_event
with_mask-lock p q id m v u e =
    let (r, h, c) = updates (p.event id).index p id m v u refl in
    let same : r ≡ q = some-injective (sym (with_mask_lem p id m ∙ h) ∙ e) in
    ap (λ x. (x.event id).lock_event) (sym same) ∙ rw (c.event_at id, ==_refl id) refl
