-- ===== src/Event/Poller/Valid.antt =====
-- The events, the map and the interest list of the kernel agree (gwcpp/event/Poller.cpp, EpollFdEvent.h).
use cpptool_box.Base.{
  ℕ, ◌≡◌, ◌≢◌, List, [], ◌∷◌, Option, none, some, ◌==◌, if◌then◌else◌, arith, ℤ, eq_ℤ, eq_ℤ_iff,
  eq_ℤ_refl, ==_iff, Bool-cases, inl, inr,
}
use cpptool_box.Event.Poller.{
  Mask, Index, is_new, is_added, is_deleted, FdEvent, Ctl, ctl_add, ctl_mod, ctl_del, Poller,
}

-- The interest list that a log of epoll_ctl calls, the latest first, leaves: a descriptor's mask.
unfoldable pub interest : List Ctl → ℤ → Option Mask
interest [] k = none
interest (ctl_add g m ∷ l) k = if eq_ℤ g k then some m else interest l k
interest (ctl_mod g m ∷ l) k = if eq_ℤ g k then some m else interest l k
interest (ctl_del g m ∷ l) k = if eq_ℤ g k then none else interest l k

-- epoll_ctl refuses to add a descriptor twice (EEXIST) and to change one that it does not watch (ENOENT).
unfoldable pub Accepted : List Ctl → Type 0
Accepted [] = Unit
Accepted (ctl_add g m ∷ l) = (interest l g ≡ none) × Accepted l
Accepted (ctl_mod g m ∷ l) = (interest l g ≢ none) × Accepted l
Accepted (ctl_del g m ∷ l) = (interest l g ≢ none) × Accepted l

-- What the index of the event `id` says of its entry in the map and of its mask in the kernel.
abbrev pub Agrees : ℕ → Mask → Index → Option ℕ → Option Mask → Type 0
Agrees id m is_new o i = (o ≢ some id) × Unit
Agrees id m is_added o i = (o ≡ some id) × (i ≡ some m)
Agrees id m is_deleted o i = (o ≡ some id) × (i ≡ none)

pub record IsValid (p : Poller) : Type 0 where
  pub entry : (k : ℤ) (id : ℕ) → p.fd_event_maps k ≡ some id → (p.event id).fd ≡ k
  pub absent : (k : ℤ) → p.fd_event_maps k ≡ none → interest p.ctl k ≡ none
  pub agrees :
      (id : ℕ)
      → Agrees id
          (p.event id).events
          (p.event id).index
          (p.fd_event_maps (p.event id).fd)
          (interest p.ctl (p.event id).fd)
  pub accepted : Accepted p.ctl

-- An event without an entry for its descriptor is new, and the entry of another one changes nothing.
other-Agrees :
    (j : ℕ) (m : Mask) (x : Index) (o o' : Option ℕ) (i i' : Option Mask)
    → o ≢ some j
    → o' ≢ some j
    → Agrees j m x o i
    → Agrees j m x o' i'
other-Agrees j m is_new o o' i i' h h' a = (h', tt)
other-Agrees j m is_added o o' i i' h h' a = ground arith
other-Agrees j m is_deleted o o' i i' h h' a = ground arith

-- An operation writes the event `id` and the entry and the mask of its descriptor; when the three
-- agree again, the state is valid.
pub changed-IsValid :
    (p q : Poller) (id : ℕ) (e : FdEvent) (o : Option ℕ) (i : Option Mask)
    → IsValid p
    → e.fd ≡ (p.event id).fd
    → ((j : ℕ) → p.fd_event_maps e.fd ≡ some j → j ≡ id)
    → ((j : ℕ) → o ≡ some j → j ≡ id)
    → (o ≡ none → i ≡ none)
    → Agrees id e.events e.index o i
    → ((j : ℕ) → q.event j ≡ (if id == j then e else p.event j))
    → ((k : ℤ) → q.fd_event_maps k ≡ (if eq_ℤ e.fd k then o else p.fd_event_maps k))
    → ((k : ℤ) → interest q.ctl k ≡ (if eq_ℤ e.fd k then i else interest p.ctl k))
    → Accepted q.ctl
    → IsValid q
changed-IsValid p q id e o i v h own only gone a ev mp it ac = record {
  entry = λ k j m. ground (arith, eq_ℤ_iff e.fd k, mp k, ev j, v.entry k j, only j, own j, m, h);
  absent = λ k m. ground (arith, eq_ℤ_iff e.fd k, mp k, it k, v.absent k, gone, m);
  agrees = λ j. elim (Bool-cases (id == j)) [
    | inl e1 ↦ rw (ev j, e1, mp e.fd, it e.fd, eq_ℤ_refl e.fd, ← (==_iff id j).0 e1) a
    | inr e1 ↦ elim (Bool-cases (eq_ℤ e.fd (p.event j).fd)) [
      | inl e2 ↦
          rw (ev j, e1, mp (p.event j).fd, it (p.event j).fd, e2)
            (other-Agrees j (p.event j).events (p.event j).index _ o _ i
              (λ y. ground (arith, own j, (eq_ℤ_iff e.fd (p.event j).fd).0 e2, y, e1))
              (λ y. ground (arith, only j y, e1)) (v.agrees j))
      | inr e2 ↦ rw (ev j, e1, mp (p.event j).fd, it (p.event j).fd, e2) (v.agrees j)
    ]
  ];
  accepted = ac;
}
