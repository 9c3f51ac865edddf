-- ===== src/Net/Server/Names.antt =====
-- The names of a server's connections.
use cpptool_box.Base.{
  ℕ, ◌≡◌, refl, sym, ap, ◌∙◌, subst, List, [], ◌∷◌, true, ==_refl, arith, Bool-cases, inl, inr, ◌⊎◌,
  Result, ok, err, map_ok,
}
use cpptool_box.Event.Poller.{Poller}
use cpptool_box.Net.Connection.{TcpConnection, Session}
use cpptool_box.Net.Server.{
  TcpServer, new_server, conn_name, eq_bytes, put, erase, new_connection_of, remove_connection,
}

-- What a server has done since it was made.
pub data Reaches (ip port : List ℕ) : TcpServer → Type 0 where
  begins : Reaches ip port (new_server ip port)
  accepts :
      (s t : TcpServer) (p : Poller) (e : ℕ) (c : Session)
      → Reaches ip port s
      → new_connection_of s p e ≡ ok (t, c)
      → Reaches ip port t
  closes :
      (s : TcpServer) (c : TcpConnection)
      → Reaches ip port s
      → Reaches ip port (remove_connection s c)

-- The state of a server that has at most one connection, under the one name that it makes.
pub record IsSingle (ip port : List ℕ) (s : TcpServer) : Type 0 where
  pub named : conn_name s ≡ conn_name (new_server ip port)
  pub single : (s.connections ≡ []) ⊎ ((e : ℕ) × (s.connections ≡ (conn_name s, e) ∷ []))

eq_bytes_refl : (x : List ℕ) → eq_bytes x x ≡ true
eq_bytes_refl [] = refl
eq_bytes_refl (a ∷ x) = rw (==_refl a, eq_bytes_refl x) refl

put_single :
    (n : List ℕ) (e : ℕ) (m : List (List ℕ × ℕ))
    → (m ≡ []) ⊎ ((f : ℕ) × (m ≡ (n, f) ∷ []))
    → put n e m ≡ (n, e) ∷ []
put_single n e m (inl h) = rw h refl
put_single n e m (inr (f, h)) = rw (h, eq_bytes_refl n) refl

erase_single :
    (n k : List ℕ) (m : List (List ℕ × ℕ))
    → (m ≡ []) ⊎ ((f : ℕ) × (m ≡ (n, f) ∷ []))
    → (erase k m ≡ []) ⊎ ((f : ℕ) × (erase k m ≡ (n, f) ∷ []))
erase_single n k m (inl h) = inl (rw h refl)
erase_single n k m (inr (f, h)) = elim (Bool-cases (eq_bytes k n)) [
  | inl b ↦ inl (rw (h, b) refl)
  | inr b ↦ inr (f, rw (h, b) refl)
]

abbrev with_session : TcpServer → Session → TcpServer × Session
with_session u x = (u, x)

kept_first :
    (u t : TcpServer) (r : Result Session) (c : Session)
    → map_ok (with_session u) r ≡ ok (t, c)
    → t ≡ u
kept_first u t (ok x) c h = ground arith
kept_first u t (err x) c h = ground arith

accepted_lem :
    (s t : TcpServer) (p : Poller) (e : ℕ) (c : Session)
    → new_connection_of s p e ≡ ok (t, c)
    → t ≡ record s { connections = put (conn_name s) e s.connections }
unfolding new_connection_of
accepted_lem s t p e c h =
    kept_first (record s { connections = put (conn_name s) e s.connections }) t _ c h

IsSingle-put :
    (ip port : List ℕ) (s : TcpServer) (e : ℕ)
    → IsSingle ip port s
    → IsSingle ip port (record s { connections = put (conn_name s) e s.connections })
unfolding conn_name
IsSingle-put ip port s e v = record {
  named = v.named;
  single = inr (e, put_single (conn_name s) e s.connections v.single);
}

IsSingle-remove :
    (ip port : List ℕ) (s : TcpServer) (c : TcpConnection)
    → IsSingle ip port s
    → IsSingle ip port (remove_connection s c)
unfolding conn_name remove_connection
IsSingle-remove ip port s c v = record {
  named = v.named;
  single = erase_single (conn_name s) c.name s.connections v.single;
}

reach-IsSingle : (ip port : List ℕ) (s : TcpServer) → Reaches ip port s → IsSingle ip port s
unfolding new_server
reach-IsSingle ip port s begins = record { named = refl; single = inl refl }
reach-IsSingle ip port _ (accepts s t p e c r h) =
    subst (λ u. IsSingle ip port u) (sym (accepted_lem s t p e c h))
      (IsSingle-put ip port s e (reach-IsSingle ip port s r))
reach-IsSingle ip port _ (closes s c r) = IsSingle-remove ip port s c (reach-IsSingle ip port s r)

-- After any sequence of newConnection (where it succeeds) and removeConnection a server holds at most one
-- connection in its map, under the name that it has from the start, and after one newConnection more the
-- map holds the connection that came in and no other: it has the entry of the one before.
pub reach-latest :
    (ip port : List ℕ) (s t : TcpServer) (p : Poller) (e : ℕ) (c : Session)
    → Reaches ip port s
    → new_connection_of s p e ≡ ok (t, c)
    → ((s.connections ≡ [])
        ⊎ ((f : ℕ) × (s.connections ≡ (conn_name (new_server ip port), f) ∷ [])))
      × (t.connections ≡ (conn_name (new_server ip port), e) ∷ [])
reach-latest ip port s t p e c r h =
    let v = reach-IsSingle ip port s r in
    (
      subst (λ n. (s.connections ≡ []) ⊎ ((f : ℕ) × (s.connections ≡ (n, f) ∷ []))) v.named
          v.single,
      ap (λ u. u.connections) (accepted_lem s t p e c h)
          ∙ (put_single (conn_name s) e s.connections v.single ∙ ap (λ n. (n, e) ∷ []) v.named),
    )
