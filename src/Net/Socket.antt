-- ===== src/Net/Socket.antt =====
-- gwcpp/net/Socket.h and Socket.cpp. No other object points to the block of a socket's `fd_`, which is
-- therefore kept as its descriptor; what the system calls return is an argument of each operation.
pub mod Descriptors
pub mod Options
use cpptool_box.Base.{
  ℕ, ◌+◌, List, [], ◌∷◌, Bool, true, false, not, ◌&&◌, Option, none, some, if◌then◌else◌, ◌==◌, ℤ,
  pos, negsuc, eq_ℤ, ltb_ℤ, Result, ok, err, undefined, ◌>>=◌,
}
use cpptool_box.Net.Address.{Address, Protocol, ipv4, ipv6, local}

pub data SockType : Type 0 where
  tcp udp : SockType

-- `closed` logs what was closed, the latest first.
pub record Socket : Type 0 where
  pub is_connected : Bool
  pub sock_type : SockType
  pub protocol : Protocol
  pub fd : ℤ
  pub local_address : Option Address
  pub remote_address : Option Address
  pub closed : List ℕ

-- `Socket(int, int)`.
abbrev pub new : Protocol → SockType → Socket
new protocol type = record {
  is_connected = false;
  sock_type = type;
  protocol = protocol;
  fd = negsuc 0;
  local_address = none;
  remote_address = none;
  closed = [];
}

-- `fd_.close()`, also as the destructor calls it.
abbrev pub close_by : ℤ → Socket → Socket
close_by (pos d) s = record s { fd = negsuc 0; closed = d ∷ s.closed }
close_by (negsuc n) s = s

abbrev pub close_fd : Socket → Socket
close_fd s = close_by s.fd s

-- `fd_ = Fd(d)`: the old block loses its only reference, which closes its descriptor.
abbrev pub set_fd : ℤ → Socket → Socket
set_fd d s = record (close_fd s) { fd = d }

abbrev pub is_invalid : Socket → Bool
is_invalid s = eq_ℤ s.fd (negsuc 0)

pub data SockOpt : Type 0 where
  so_reuseaddr so_rcvbuf so_sndbuf so_keepalive tcp_nodelay tcp_keepidle tcp_keepintvl tcp_keepcnt :
      SockOpt

abbrev pub is_tcp : SockType → Bool
is_tcp tcp = true
is_tcp udp = false

-- What the kernel answers to `setsockopt` on a descriptor.
module _ (accepts : ℤ → SockOpt → ℤ → Bool) where
  abbrev pub set_socket_opt : Socket → SockOpt → ℤ → Bool
  set_socket_opt s name value = accepts s.fd name value

  -- The two options that a new descriptor gets.
  abbrev pub set_first_options : Socket → Bool
  set_first_options s =
      if set_socket_opt s so_reuseaddr (pos 1)
      then (if is_tcp s.sock_type then set_socket_opt s tcp_nodelay (pos 1) else true)
      else false

  -- `newSocket`, by what `socket` returns.
  unfoldable pub new_socket : ℤ → Socket → Bool × Socket
  new_socket socket_fd s =
      if eq_ℤ socket_fd (negsuc 0)
      then (false, set_fd socket_fd s)
      else (set_first_options (set_fd socket_fd s), set_fd socket_fd s)

  -- `CreateTcpSocket` and `CreateUdpSocket`, which do not look at the result of `newSocket`.
  unfoldable pub create_socket : SockType → ℤ → Socket
  unfolding new_socket
  create_socket type socket_fd = record (new_socket socket_fd (new ipv4 type)).1 {
    is_connected = true;
  }

  unfoldable pub set_reuse_address : Socket → Bool → Bool
  set_reuse_address s enable = set_socket_opt s so_reuseaddr (if enable then pos 1 else pos 0)

  unfoldable pub set_recv_buffer_size : Socket → ℤ → Bool
  set_recv_buffer_size s size = set_socket_opt s so_rcvbuf size

  unfoldable pub set_send_buffer_size : Socket → ℤ → Bool
  set_send_buffer_size s size = set_socket_opt s so_sndbuf size

  -- `setKeepAlive`, its last test as it stands.
  unfoldable pub set_keep_alive : Socket → Bool → Bool
  set_keep_alive s true =
      if not (set_socket_opt s so_keepalive (pos 1))
      then false
      else if not (set_socket_opt s tcp_keepidle (pos 60))
      then false
      else if not (set_socket_opt s tcp_keepintvl (pos 10))
      then false
      else if set_socket_opt s tcp_keepcnt (pos 2)
      then false
      else true
  set_keep_alive s false = set_socket_opt s so_keepalive (pos 0)

-- `getLocalAddress` and `getPeerAddress`, by the address that the system names: the first one that was
-- found is kept.
abbrev pub kept : Option Address → Option Address → Option Address
kept (some a) named = some a
kept none named = named

unfoldable pub get_local_address : Option Address → Socket → Option Address × Socket
get_local_address named s =
    (kept s.local_address named, record s { local_address = kept s.local_address named })

unfoldable pub get_peer_address : Option Address → Socket → Option Address × Socket
get_peer_address named s =
    (kept s.remote_address named, record s { remote_address = kept s.remote_address named })

-- Both, as several operations look them up.
abbrev pub look_up : Option Address → Option Address → Socket → Socket
look_up here there s = record s {
  local_address = kept s.local_address here;
  remote_address = kept s.remote_address there;
}

-- `init`: a failing option ends it before the addresses.
unfoldable pub init :
    (ℤ → SockOpt → ℤ → Bool) → ℤ → Option Address → Option Address → Socket → Bool × Socket
init accepts sock here there s =
    let t = set_fd sock s in
    if is_invalid t
    then (true, look_up here there t)
    else if set_first_options accepts t
    then (true, look_up here there (record t { is_connected = true }))
    else (false, record t { is_connected = true })

-- `accept`, by what the system call returns; none for the null pointer.
unfoldable pub accept :
    (ℤ → SockOpt → ℤ → Bool) → ℤ → Option Address → Option Address → Socket → Option Socket
unfolding init
accept accepts new_fd here there s =
    if ltb_ℤ new_fd (pos 0)
    then none
    else some (record (init accepts new_fd here there (new s.protocol s.sock_type)).1 {
      is_connected = true;
    })

-- `connect`, by what the system call returns.
unfoldable pub connect : Address → ℤ → Option Address → Socket → ℤ × Socket
connect addr ret here s = (
  ret,
  record s {
    remote_address = some addr;
    is_connected = true;
    local_address = kept s.local_address here;
  },
)

-- `bind` and `listen`, by what the system calls return.
unfoldable pub bind : ℤ → Option Address → Socket → Bool × Socket
bind ret here s =
    if ltb_ℤ ret (pos 0)
    then (false, close_fd s)
    else (true, record s { local_address = kept s.local_address here })

unfoldable pub listen : ℤ → Socket → Bool × Socket
listen ret s = if ltb_ℤ ret (pos 0) then (false, close_fd s) else (true, s)

-- `send`: whether the system call is made, and the result.
unfoldable pub send : (ℤ → List ℕ → ℤ) → List ℕ → Socket → Bool × ℤ
send system buffer s = if s.is_connected then (true, system s.fd buffer) else (false, negsuc 0)

unfoldable pub close : Socket → Socket
close s = if is_invalid s then s else close_fd (record s { is_connected = false })

-- `checkConnected`, by whether the kernel says TCP_ESTABLISHED.
unfoldable pub check_connected : Bool → Socket → Bool × Socket
check_connected established s = (established, record s { is_connected = established })

-- The comparison in `isSelfConnect`, with a null pointer as a fault.
abbrev pub is_ipv4 : Option Protocol → Bool
is_ipv4 (some ipv4) = true
is_ipv4 f = false

abbrev pub same_address : Option Address → Option Address → Result Bool
same_address none peer = err undefined
same_address (some a) none = if is_ipv4 a.storage.family then err undefined else ok false
same_address (some a) (some b) =
    if is_ipv4 a.storage.family
    then ok ((a.storage.port_bytes == b.storage.port_bytes) && (a.storage.word == b.storage.word))
    else ok false

unfoldable pub is_self_connect : Option Address → Option Address → Socket → Result Bool
is_self_connect here there s =
    same_address (kept s.local_address here) (kept s.remote_address there)

-- `getSocketError`: whether `getsockopt` succeeds, what it stores, what `errno` is, and what the
-- variable held.
unfoldable pub get_socket_error : Bool → ℤ → ℤ → ℤ → ℤ
get_socket_error done stored errno garbage = if done then errno else garbage
