-- ===== src/Net.antt =====
-- gwcpp/net: connections, the connector and the acceptor, the client and the server. What they do
-- outside their own state is recorded as a list of effects.
pub mod Address
pub mod Socket
pub mod Connection
pub mod Connector
pub mod Acceptor
pub mod Server
pub mod Client
use cpptool_box.Base.{Option, none, some, Result, ok, err, assertion}

-- A call behind assertions.
abbrev pub asserted {ℓ} : {A : Type ℓ} → Option A → Result A
asserted none = err assertion
asserted (some a) = ok a
