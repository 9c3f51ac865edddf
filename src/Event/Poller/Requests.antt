-- ===== src/Event/Poller/Requests.antt =====
-- The requests that the clients of a loop make of their events, one after the other
-- (gwcpp/event/EpollFdEvent.h). `removes` is `remove` alone, as in gwcpp/net/TcpConnection.cpp, and
-- `disables_and_removes` what gwcpp/net/Connector.cpp does.
use cpptool_box.Base.{
  ℕ, ◌≡◌, refl, sym, ap, subst, Option-cases, Bool-cases, List, [], ◌∷◌, Option, none, some, inl,
  inr, ◌∙◌, true, false, not, ◌||◌, ◌⊎◌, ==_iff, ==_refl, arith,
}
use cpptool_box.Event.{◌>>=◌}
use cpptool_box.Event.Poller.{
  Mask, none_event, Index, is_new, is_added, is_deleted, Poller, is_none_event, is_entry,
  remove_event, with_mask, enable_reading, enable_writing, disable_reading, disable_writing,
  disable_all, remove,
}
use cpptool_box.Event.Poller.Valid.{IsValid}
use cpptool_box.Event.Poller.Updates.{Usable, with_mask-total, AgreesAt}
use cpptool_box.Event.Poller.Removal.{remove-total}

pub data Request : Type 0 where
  enables_reading enables_writing disables_reading disables_writing disables_all removes
        disables_and_removes :
      ℕ → Request

-- `removeAndResetChannel`: the event is disabled, then it leaves.
unfoldable pub disable_and_remove : Poller → ℕ → Option Poller
disable_and_remove p id = do q ← disable_all p id; remove q id

unfoldable pub handle : Poller → Request → Option Poller
handle p (enables_reading id) = enable_reading p id
handle p (enables_writing id) = enable_writing p id
handle p (disables_reading id) = disable_reading p id
handle p (disables_writing id) = disable_writing p id
handle p (disables_all id) = disable_all p id
handle p (removes id) = remove p id
handle p (disables_and_removes id) = disable_and_remove p id

unfoldable pub run : Poller → List Request → Option Poller
run p [] = some p
run p (r ∷ rs) = do q ← handle p r; run q rs

-- Different events have different descriptors.
abbrev pub Distinct : Poller → Type 0
Distinct p = (i j : ℕ) → (p.event i).fd ≡ (p.event j).fd → i ≡ j

-- An event of a valid state can be updated, when no other one has its descriptor.
usable : (p : Poller) (id : ℕ) → IsValid p → Distinct p → Usable p id
usable p id v d = by_index (p.event id).index refl
  where
    entry_case : (p.event id).index ≡ is_new → Usable p id
    entry_case e =
        let a : AgreesAt p id is_new = subst (λ y. AgreesAt p id y) e (v.agrees id) in
        elim (Option-cases (p.fd_event_maps (p.event id).fd)) [
          | inl n ↦ inl (e, n)
          | inr (j, h) ↦ inr (h ∙ ap some (d j id (v.entry (p.event id).fd j h)))
        ]

    by_index : (x : Index) → (p.event id).index ≡ x → Usable p id
    by_index is_new e = entry_case e
    by_index is_added e =
        let a : AgreesAt p id is_added = subst (λ y. AgreesAt p id y) e (v.agrees id) in inr a.0
    by_index is_deleted e =
        let a : AgreesAt p id is_deleted = subst (λ y. AgreesAt p id y) e (v.agrees id) in inr a.0

same-Distinct :
    (p q : Poller) → ((j : ℕ) → (q.event j).fd ≡ (p.event j).fd) → Distinct p → Distinct q
same-Distinct p q s d i j h = d i j (cc (s i, s j))

masks-total :
    (p : Poller) (id : ℕ) (m : Mask)
    → IsValid p
    → Distinct p
    → (q : Poller) × (with_mask p id m ≡ some q) × IsValid q × Distinct q
masks-total p id m v d =
    let (q, h, w, _, _, _, s) = with_mask-total p id m v (usable p id v d) in
    (q, h, w, same-Distinct p q s d)

-- The requests end at a removal alone of an event that still has interest, or has no entry.
pub data Refused : Poller → List Request → Type 0 where
  here :
      (p : Poller) (id : ℕ) (rs : List Request)
      → (is_none_event (p.event id) ≡ false)
        ⊎ (is_entry id (p.fd_event_maps (p.event id).fd) ≡ false)
      → Refused p (removes id ∷ rs)
  later :
      (p : Poller) (r : Request) (q : Poller) (rs : List Request)
      → handle p r ≡ some q
      → Refused q rs
      → Refused p (r ∷ rs)

-- A request succeeds in a valid state, which stays valid.
abbrev pub Succeeds : Option Poller → Type 0
Succeeds o = (q : Poller) × (o ≡ some q) × IsValid q × Distinct q

none_event-eq : (m : Mask) → not (m.reads || m.writes) ≡ true → m ≡ none_event
none_event-eq m h = ground (arith, h)

is_entry-eq : (id : ℕ) (o : Option ℕ) → is_entry id o ≡ true → o ≡ some id
is_entry-eq id none h = ground (arith, h)
is_entry-eq id (some j) h = ap some (sym ((==_iff id j).0 h))

removes-total :
    (p : Poller) (id : ℕ) (rs : List Request)
    → IsValid p
    → Distinct p
    → Succeeds (remove p id) ⊎ ((remove p id ≡ none) × Refused p (removes id ∷ rs))
unfolding remove remove_event
removes-total p id rs v d = elim (Bool-cases (is_none_event (p.event id))) [
  | inr e ↦ inr (rw (remove, e) refl, here p id rs (inl e))
  | inl e ↦ elim (Bool-cases (is_entry id (p.fd_event_maps (p.event id).fd))) [
    | inr f ↦ inr (rw (remove, e) (rw (remove_event, ==_refl id, f) refl), here p id rs (inr f))
    | inl f ↦
        let (q, g, u, _, _, _, t) =
          remove-total p id v (none_event-eq (p.event id).events e)
            (is_entry-eq id (p.fd_event_maps (p.event id).fd) f) in
        inl (q, g, u, same-Distinct p q t d)
  ]
]

pub handle-total :
    (p : Poller) (r : Request) (rs : List Request)
    → IsValid p
    → Distinct p
    → Succeeds (handle p r) ⊎ ((handle p r ≡ none) × Refused p (r ∷ rs))
unfolding handle enable_reading enable_writing disable_reading disable_writing disable_all
    disable_and_remove
handle-total p (enables_reading id) rs v d = inl (masks-total p id _ v d)
handle-total p (enables_writing id) rs v d = inl (masks-total p id _ v d)
handle-total p (disables_reading id) rs v d = inl (masks-total p id _ v d)
handle-total p (disables_writing id) rs v d = inl (masks-total p id _ v d)
handle-total p (disables_all id) rs v d = inl (masks-total p id _ v d)
handle-total p (removes id) rs v d = removes-total p id rs v d
handle-total p (disables_and_removes id) rs v d =
    let (q, h, w, m, n, _, s) = with_mask-total p id none_event v (usable p id v d) in
    let (r, g, u, _, _, _, t) = remove-total q id w n m in
    inl (r, rw h g, u, same-Distinct q r t (same-Distinct p q s d))

-- From a valid state in which different events have different descriptors, a list of requests either
-- fails no assertion of the poller, and leaves such a state again, or it fails one at a removal alone
-- (not behind disableAll) of an event that, at that point, still has interest or has no entry.
pub run-total :
    (p : Poller) (rs : List Request)
    → IsValid p
    → Distinct p
    → Succeeds (run p rs) ⊎ ((run p rs ≡ none) × Refused p rs)
unfolding run
run-total p [] v d = inl (p, refl, v, d)
run-total p (r ∷ rs) v d = elim (handle-total p r rs v d) [
  | inr (h, f) ↦ inr (rw (run, h) refl, f)
  | inl (q, h, w, e) ↦ elim (run-total q rs w e) [
    | inl (t, g, u, f) ↦ inl (t, rw (run, h) g, u, f)
    | inr (g, f) ↦ inr (rw (run, h) g, later p r q rs h f)
  ]
]
