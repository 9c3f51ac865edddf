-- ===== src/Tests/Sockets.antt =====
-- Tests of the sockets and addresses of gwcpp/net.
use cpptool_box.Base.{
  ℕ, ◌≡◌, refl, List, [], ◌∷◌, Bool, true, none, some, Option, ℤ, pos, negsuc, ok, arith,
}
use cpptool_box.Net.Address.{Protocol, ipv4, ipv6, make_address, ip, port, copy}
use cpptool_box.Net.Address.Copies.{ip-port-copy}
use cpptool_box.Net.Socket.{SockOpt, tcp, new, close_fd}
use cpptool_box.Net.Socket.Descriptors.{Op, news, inits, binds, run, given, destroyed-closes}
use cpptool_box.Base.{count}

abbrev all_set : ℤ → SockOpt → ℤ → Bool
all_set fd name value = true

-- A socket that is made, cannot be bound, and gets another descriptor.
abbrev made : List Op
made = news (pos 5) ∷ binds (negsuc 0) none ∷ inits (pos 6) none none ∷ []

destroyed-closes_example :
    count 6 (close_fd (run all_set made (new ipv4 tcp))).closed ≡ given 6 made
destroyed-closes_example = destroyed-closes all_set ipv4 tcp made 6

-- Addresses whose text is the list of their number.
abbrev reads : Protocol → List ℕ → Option ℕ
reads p [] = none
reads p (a ∷ t) = some a

abbrev prints : Protocol → ℕ → List ℕ
prints p a = a ∷ []

ip-port-copy_example :
    (port (make_address reads prints (9 ∷ []) 8080 ipv4) ≡ ok 8080)
    × (ip reads prints (make_address reads prints (9 ∷ []) 8080 ipv4) ≡ ok (9 ∷ []))
    × (copy (make_address reads prints (9 ∷ []) 8080 ipv4)
        ≡ make_address reads prints (9 ∷ []) 8080 ipv4)
    × (port (make_address reads prints (3 ∷ []) 8080 ipv6) ≡ ok 8080)
    × (ip reads prints (make_address reads prints (3 ∷ []) 8080 ipv6) ≡ ok (3 ∷ []))
    × (port (copy (make_address reads prints (3 ∷ []) 8080 ipv6)) ≡ ok 8080)
    × (ip reads prints (copy (make_address reads prints (3 ∷ []) 8080 ipv6)) ≡ ok (0 ∷ []))
ip-port-copy_example =
    ip-port-copy reads prints (9 ∷ []) 8080 9 3 (omega arith) refl refl (3 ∷ []) refl refl
