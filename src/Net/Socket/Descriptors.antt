-- ===== src/Net/Socket/Descriptors.antt =====
-- The descriptors that come to a socket.
use cpptool_box.Base.{
  ℕ, ◌+◌, ◌≡◌, refl, List, [], ◌∷◌, Bool, false, Bool-cases, inl, inr, Option, ℤ, pos, negsuc,
  ltb_ℤ, eq_ℤ, arith, ap,
}
use cpptool_box.Net.Address.{Address, Protocol}
use cpptool_box.Net.Socket.{
  SockType, Socket, SockOpt, new, close_by, close_fd, set_fd, is_invalid, set_first_options,
  new_socket, init, connect, bind, listen, close, check_connected, get_local_address,
  get_peer_address,
}
use cpptool_box.Base.{count}

-- The operations of a socket, each with what the system calls return.
pub data Op : Type 0 where
  news : ℤ → Op
  inits : ℤ → Option Address → Option Address → Op
  connects : Address → ℤ → Option Address → Op
  binds : ℤ → Option Address → Op
  listens : ℤ → Op
  closes : Op
  checks : Bool → Op
  locals peers : Option Address → Op

pub apply : (ℤ → SockOpt → ℤ → Bool) → Op → Socket → Socket
apply accepts (news d) s = (new_socket accepts d s).1
apply accepts (inits d here there) s = (init accepts d here there s).1
apply accepts (connects a ret here) s = (connect a ret here s).1
apply accepts (binds ret here) s = (bind ret here s).1
apply accepts (listens ret) s = (listen ret s).1
apply accepts closes s = close s
apply accepts (checks b) s = (check_connected b s).1
apply accepts (locals a) s = (get_local_address a s).1
apply accepts (peers a) s = (get_peer_address a s).1

pub run : (ℤ → SockOpt → ℤ → Bool) → List Op → Socket → Socket
run accepts [] s = s
run accepts (o ∷ os) s = run accepts os (apply accepts o s)

abbrev valid : ℤ → List ℕ
valid (pos d) = d ∷ []
valid (negsuc n) = []

-- How often the operations give a descriptor to the socket.
abbrev pub given : ℕ → List Op → ℕ
given d [] = 0
given d (news z ∷ os) = count d (valid z) + given d os
given d (inits z here there ∷ os) = count d (valid z) + given d os
given d (o ∷ os) = given d os

-- How often a socket has closed a descriptor or holds it.
abbrev pub accounted : ℕ → Socket → ℕ
accounted d s = count d s.closed + count d (valid s.fd)

closed-close_by :
    (d : ℕ) (z : ℤ) (s : Socket)
    → count d (close_by z s).closed ≡ count d s.closed + count d (valid z)
closed-close_by d (pos e) s = omega arith
closed-close_by d (negsuc n) s = omega arith

accounted-close_by :
    (d : ℕ) (z : ℤ) (s : Socket) → s.fd ≡ z → accounted d (close_by z s) ≡ accounted d s
accounted-close_by d (pos e) s h = omega (arith, ap (λ z. count d (valid z)) h)
accounted-close_by d (negsuc n) s h = refl

accounted-bind :
    (d : ℕ) (ret : ℤ) (here : Option Address) (s : Socket)
    → accounted d (bind ret here s).1 ≡ accounted d s
unfolding bind
accounted-bind d ret here s = elim (Bool-cases (ltb_ℤ ret (pos 0))) [
  | inl e ↦ rw (e) (accounted-close_by d s.fd s refl)
  | inr e ↦ rw (e) refl
]

accounted-listen : (d : ℕ) (ret : ℤ) (s : Socket) → accounted d (listen ret s).1 ≡ accounted d s
unfolding listen
accounted-listen d ret s = elim (Bool-cases (ltb_ℤ ret (pos 0))) [
  | inl e ↦ rw (e) (accounted-close_by d s.fd s refl)
  | inr e ↦ rw (e) refl
]

accounted-close : (d : ℕ) (s : Socket) → accounted d (close s) ≡ accounted d s
unfolding close
accounted-close d s = elim (Bool-cases (is_invalid s)) [
  | inl e ↦ rw (e) refl
  | inr e ↦ rw (e) (accounted-close_by d s.fd (record s { is_connected = false }) refl)
]

accounted-new_socket :
    (accepts : ℤ → SockOpt → ℤ → Bool) (d : ℕ) (z : ℤ) (s : Socket)
    → accounted d (new_socket accepts z s).1 ≡ accounted d s + count d (valid z)
unfolding new_socket
accounted-new_socket accepts d z s = elim (Bool-cases (eq_ℤ z (negsuc 0))) [
  | inl e ↦ rw (e) (omega (arith, closed-close_by d s.fd s))
  | inr e ↦ rw (e) (omega (arith, closed-close_by d s.fd s))
]

accounted-init :
    (accepts : ℤ → SockOpt → ℤ → Bool) (d : ℕ) (z : ℤ) (here there : Option Address) (s : Socket)
    → accounted d (init accepts z here there s).1 ≡ accounted d s + count d (valid z)
unfolding init
accounted-init accepts d z here there s = elim (Bool-cases (is_invalid (set_fd z s))) [
  | inl e ↦ rw (e) (omega (arith, closed-close_by d s.fd s))
  | inr e ↦ elim (Bool-cases (set_first_options accepts (set_fd z s))) [
    | inl o ↦ rw (e, o) (omega (arith, closed-close_by d s.fd s))
    | inr o ↦ rw (e, o) (omega (arith, closed-close_by d s.fd s))
  ]
]

apply-accounted :
    (accepts : ℤ → SockOpt → ℤ → Bool) (d : ℕ) (o : Op) (s : Socket)
    → accounted d (apply accepts o s) ≡ accounted d s + given d (o ∷ [])
unfolding apply connect check_connected get_local_address get_peer_address
apply-accounted accepts d (news z) s = omega (arith, accounted-new_socket accepts d z s)
apply-accounted accepts d (inits z here there) s =
    omega (arith, accounted-init accepts d z here there s)
apply-accounted accepts d (connects a ret here) s = omega arith
apply-accounted accepts d (binds ret here) s = omega (arith, accounted-bind d ret here s)
apply-accounted accepts d (listens ret) s = omega (arith, accounted-listen d ret s)
apply-accounted accepts d closes s = omega (arith, accounted-close d s)
apply-accounted accepts d (checks b) s = omega arith
apply-accounted accepts d (locals a) s = omega arith
apply-accounted accepts d (peers a) s = omega arith

given-cons : (d : ℕ) (o : Op) (os : List Op) → given d (o ∷ os) ≡ given d (o ∷ []) + given d os
given-cons d (news z) os = omega arith
given-cons d (inits z here there) os = omega arith
given-cons d (connects a ret here) os = omega arith
given-cons d (binds ret here) os = omega arith
given-cons d (listens ret) os = omega arith
given-cons d closes os = omega arith
given-cons d (checks b) os = omega arith
given-cons d (locals a) os = omega arith
given-cons d (peers a) os = omega arith

run-accounted :
    (accepts : ℤ → SockOpt → ℤ → Bool) (d : ℕ) (os : List Op) (s : Socket)
    → accounted d (run accepts os s) ≡ accounted d s + given d os
unfolding run
run-accounted accepts d [] s = omega arith
run-accounted accepts d (o ∷ os) s = omega (
  arith,
  run-accounted accepts d os (apply accepts o s),
  apply-accounted accepts d o s,
  given-cons d o os,
)

-- Whatever is called on a new socket, and whatever the system answers: once its destructor has run,
-- each descriptor was closed exactly as often as the socket got it.
pub destroyed-closes :
    (accepts : ℤ → SockOpt → ℤ → Bool) (protocol : Protocol) (type : SockType) (os : List Op)
    (d : ℕ)
    → count d (close_fd (run accepts os (new protocol type))).closed ≡ given d os
destroyed-closes accepts protocol type os d = omega (
  arith,
  closed-close_by d (run accepts os (new protocol type)).fd (run accepts os (new protocol type)),
  run-accounted accepts d os (new protocol type),
)
