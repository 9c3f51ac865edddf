-- ===== src/Net/Address.antt =====
-- gwcpp/net/Address.h and Address.cpp: the address of a socket, a protocol beside a sockaddr_storage.
pub mod Copies
use cpptool_box.Base.{
  ℕ, ◌+◌, ◌*◌, ◌/◌, ◌%◌, List, Option, none, some, Result, ok, err, undefined, map_ok,
}

pub data Protocol : Type 0 where
  ipv4 ipv6 local : Protocol

-- The bytes of the storage that a sockaddr_in or a sockaddr_in6 reads: the family and the port, which
-- stand at the same place in both; the four bytes behind them, the address of the one and the flow of
-- the other; and the sixteen bytes of an IPv6 address.
pub record Storage : Type 0 where
  pub family : Option Protocol
  pub port_bytes : ℕ
  pub word : ℕ
  pub addr6 : ℕ

pub record Address : Type 0 where
  pub protocol : Protocol
  pub storage : Storage

-- `memset` to zero.
abbrev pub zeroed : Storage
zeroed = record { family = none; port_bytes = 0; word = 0; addr6 = 0 }

-- `htons` and `ntohs` on a machine with the least significant byte first.
abbrev pub htons : ℕ → ℕ
htons p = p % 256 * 256 + p / 256

-- `Address(Protocol)`.
abbrev pub new_address : Protocol → Address
new_address protocol = record { protocol = protocol; storage = zeroed }

-- What `inet_pton` leaves: nothing where the text is no address.
abbrev pub stored : Option ℕ → ℕ
stored none = 0
stored (some a) = a

module _ {Text : Type 0} (inet_pton : Protocol → Text → Option ℕ)
    (inet_ntop : Protocol → ℕ → Text) where
  -- `Address(const char*, uint16_t, Protocol)`.
  unfoldable pub make_address : Text → ℕ → Protocol → Address
  make_address ip port ipv4 = record {
    protocol = ipv4;
    storage = record {
      family = some ipv4;
      port_bytes = htons port;
      word = stored (inet_pton ipv4 ip);
      addr6 = 0;
    };
  }
  make_address ip port ipv6 = record {
    protocol = ipv6;
    storage = record {
      family = some ipv6;
      port_bytes = htons port;
      word = 0;
      addr6 = stored (inet_pton ipv6 ip);
    };
  }
  make_address ip port local = record {
    protocol = local;
    storage = record zeroed { family = some local };
  }

  abbrev ip_by : Protocol → Storage → Result Text
  ip_by ipv4 s = ok (inet_ntop ipv4 s.word)
  ip_by ipv6 s = ok (inet_ntop ipv6 s.addr6)
  ip_by local s = err undefined

  -- `ip()`: for a local address, the text of an array that nothing was written to.
  unfoldable pub ip : Address → Result Text
  ip a = ip_by a.protocol a.storage

abbrev pub port_by : Protocol → Storage → Result ℕ
port_by ipv4 s = ok (htons s.port_bytes)
port_by ipv6 s = ok (htons s.port_bytes)
port_by local s = err undefined

-- `port()`: for a local address, a variable that is not initialised.
unfoldable pub port : Address → Result ℕ
port a = port_by a.protocol a.storage

-- The copy constructors: `protocol_` keeps its default.
unfoldable pub copy : Address → Address
copy other = record { protocol = ipv4; storage = other.storage }

-- The assignments, to another object: `protocol_` stays what it is.
unfoldable pub assign : Address → Address → Address
assign this other = record this { storage = other.storage }
