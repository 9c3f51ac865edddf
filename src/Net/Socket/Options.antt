-- ===== src/Net/Socket/Options.antt =====
-- The options of a socket and its addresses.
use cpptool_box.Base.{
  ◌≡◌, refl, Bool, true, false, not, ◌&&◌, if◌then◌else◌, Option, some, ℤ, pos, arith,
}
use cpptool_box.Net.Address.{Address}
use cpptool_box.Net.Socket.{
  SockOpt, so_keepalive, tcp_keepidle, tcp_keepintvl, tcp_keepcnt, Socket, set_keep_alive,
  get_local_address, get_peer_address, connect,
}

-- `setKeepAlive(true)` returns true exactly when the first three options are set and the last is
-- refused; `setKeepAlive(false)` when its option is set.
pub set_keep_alive_lem :
    (accepts : ℤ → SockOpt → ℤ → Bool) (s : Socket)
    → (set_keep_alive accepts s true ≡ (
        accepts s.fd so_keepalive (pos 1)
        && accepts s.fd tcp_keepidle (pos 60)
        && accepts s.fd tcp_keepintvl (pos 10)
        && not (accepts s.fd tcp_keepcnt (pos 2))))
      × (set_keep_alive accepts s false ≡ accepts s.fd so_keepalive (pos 0))
unfolding set_keep_alive
set_keep_alive_lem accepts s = (
  cases (accepts s.fd so_keepalive (pos 1)) (accepts s.fd tcp_keepidle (pos 60))
      (accepts s.fd tcp_keepintvl (pos 10)) (accepts s.fd tcp_keepcnt (pos 2)),
  refl,
)
  where
    cases :
        (a b c d : Bool)
        → (if not a
            then false
            else if not b
            then false
            else if not c
            then false
            else if d
            then false
            else true)
          ≡ (a && b && c && not d)
    cases a b c d = ground arith

-- Once the addresses are known they stay: what the system says later, also after another `connect`
-- for the local one, does not count.
pub addresses_stay :
    (a b : Address) (later1 later2 : Option Address) (addr : Address) (ret : ℤ) (s : Socket)
    → ((get_local_address later1 (connect addr ret later2 (get_local_address (some a) s).1).1).0
        ≡ (get_local_address (some a) s).0)
      × ((get_peer_address later1 (get_peer_address (some b) s).1).0
          ≡ (get_peer_address (some b) s).0)
unfolding connect get_local_address get_peer_address
addresses_stay a b later1 later2 addr ret s = ground arith
