-- ===== src/Net/Acceptor.antt =====
-- gwcpp/net/Acceptor.cpp: the acceptor of a server. What the socket calls return is an argument.
pub mod Stopping
use cpptool_box.Base.{
  ℕ, List, [], ◌∷◌, ◌++◌, Bool, true, false, Option, none, some, if◌then◌else◌, ℤ, pos, ltb_ℤ,
  Result, ok, err, undefined, map_ok,
}
use cpptool_box.Event.Poller.{
  Poller, persist, new_event, set_event, enable_reading, disable_reading,
}
use cpptool_box.Net.{asserted}

pub data State : Type 0 where
  inited started stoped : State

pub record Acceptor : Type 0 where
  pub state : State
  pub event : Option ℕ
  pub new_connect_cb : Bool

-- A call of the callback with a descriptor, and a line of the log.
pub data Effect : Type 0 where
  accepts : ℤ → Effect
  logs : Effect

pub record Listener : Type 0 where
  pub acceptor : Acceptor
  pub poller : Poller
  pub effects : List Effect

-- What creating, binding and listening meets: no socket, an error of `bind` or `listen`, or a
-- descriptor; then the event that is allocated for it has the given name.
pub data Attempt : Type 0 where
  no_socket no_bind no_listen : Attempt
  opened : ℤ → ℕ → Attempt

unfoldable pub new_acceptor : Acceptor
new_acceptor = record { state = inited; event = none; new_connect_cb = false }

abbrev pub emit : Effect → Listener → Listener
emit e l = record l { effects = l.effects ++ (e ∷ []) }

abbrev pub started_with : Listener → ℕ → Poller → Bool × Listener
started_with l id p = (
  true,
  record l { acceptor = record l.acceptor { event = some id; state = started }; poller = p },
)

abbrev pub resume : Option ℕ → Listener → Result (Bool × Listener)
resume none l = ok (false, l)
resume (some id) l = map_ok (started_with l id) (asserted (enable_reading l.poller id))

abbrev pub start_with : State → Attempt → Listener → Result (Bool × Listener)
start_with inited no_socket l = ok (false, l)
start_with inited no_bind l = ok (false, emit logs l)
start_with inited no_listen l = ok (false, emit logs l)
start_with inited (opened fd id) l =
    map_ok (started_with l id)
      (asserted (enable_reading (set_event l.poller id (new_event fd persist)) id))
start_with started a l = ok (true, emit logs l)
start_with stoped a l = resume l.acceptor.event l

unfoldable pub start : Attempt → Listener → Result (Bool × Listener)
start a l = start_with l.acceptor.state a l

abbrev pub disable : Option ℕ → Listener → Result Listener
disable none l = err undefined
disable (some id) l = map_ok (λ p. record l { poller = p }) (asserted (disable_reading l.poller id))

abbrev pub stop_in : State → Listener → Result Listener
stop_in started l = disable l.acceptor.event l
stop_in inited l = ok l
stop_in stoped l = ok l

-- `state_ == State::Stoped;` in its body is a comparison, and changes nothing.
unfoldable pub stop : Listener → Result Listener
stop l = stop_in l.acceptor.state l

-- `accept` returned null, or a socket with the descriptor `fd`.
abbrev pub accepted : Option ℤ → Listener → Listener
accepted none l = emit logs l
accepted (some fd) l =
    if ltb_ℤ (pos 0) fd
    then (if l.acceptor.new_connect_cb then emit (accepts fd) l else l)
    else emit logs l

abbrev pub read_in : Option ℕ → Option ℤ → Listener → Listener
read_in none fd l = l
read_in (some id) fd l = accepted fd l

unfoldable pub handle_read : Option ℤ → Listener → Listener
handle_read fd l = read_in l.acceptor.event fd l
