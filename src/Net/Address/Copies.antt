-- ===== src/Net/Address/Copies.antt =====
-- What an address reads back, and what a copy of it does.
use cpptool_box.Base.{ℕ, ◌^◌, ◌<◌, ◌≡◌, refl, ap, Option, some, ok, arith}
use cpptool_box.Net.Address.{Protocol, ipv4, ipv6, htons, make_address, ip, port, copy}

htons-htons : (p : ℕ) → p < 2 ^ 16 → htons (htons p) ≡ p
htons-htons p h = omega arith

module _ {Text : Type 0} (inet_pton : Protocol → Text → Option ℕ)
    (inet_ntop : Protocol → ℕ → Text) where
  -- An internet address that was made from a text and a port reads back as them, where `inet_ntop`
  -- prints what `inet_pton` has read; so does a copy of an IPv4 address. A copy of an IPv6 address keeps
  -- the port, and prints as the IPv4 address 0.
  pub ip-port-copy :
      (t : Text) (p a4 a6 : ℕ)
      → p < 2 ^ 16
      → inet_pton ipv4 t ≡ some a4
      → inet_ntop ipv4 a4 ≡ t
      → (u : Text) → inet_pton ipv6 u ≡ some a6
      → inet_ntop ipv6 a6 ≡ u
      → (port (make_address inet_pton inet_ntop t p ipv4) ≡ ok p)
        × (ip inet_pton inet_ntop (make_address inet_pton inet_ntop t p ipv4) ≡ ok t)
        × (copy (make_address inet_pton inet_ntop t p ipv4)
            ≡ make_address inet_pton inet_ntop t p ipv4)
        × (port (make_address inet_pton inet_ntop u p ipv6) ≡ ok p)
        × (ip inet_pton inet_ntop (make_address inet_pton inet_ntop u p ipv6) ≡ ok u)
        × (port (copy (make_address inet_pton inet_ntop u p ipv6)) ≡ ok p)
        × (ip inet_pton inet_ntop (copy (make_address inet_pton inet_ntop u p ipv6))
            ≡ ok (inet_ntop ipv4 0))
  unfolding port ip copy make_address
  ip-port-copy t p a4 a6 h r4 w4 u r6 w6 = (
    ap ok (htons-htons p h),
    rw (r4, w4) refl,
    refl,
    ap ok (htons-htons p h),
    rw (r6, w6) refl,
    ap ok (htons-htons p h),
    refl,
  )
