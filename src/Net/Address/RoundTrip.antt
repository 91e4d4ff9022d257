-- ===== src/Net/Address/RoundTrip.antt =====
-- What goes into a socket address comes out of it.
use co_net.Base.{Bool, ap, ℕ, ◌^◌, ◌<◌, ◌≡◌, refl, true, false, ◌∷◌, ◌++◌, some}
use co_net.Base.Int.{pos}
use co_net.Io.Await.{returned}
use co_net.Net.Address.{
  Text, Inet, SocketAddr, is_ipv4, nport, port, to_string, v4_parse, v6_parse, from_v4, from_v6,
  make_addr_v4, make_addr_v6, sockaddr_in_size, sockaddr_in6_size,
}

-- `a` is an address of the family that `v4` says, of length `len`, with the port `p`, and prints as
-- `shown`, a colon and the port.
pub record IsAddress (inet : Inet) (v4 : Bool) (len p : ℕ) (shown : Text) (a : SocketAddr)
    : Type 0 where
  pub family : is_ipv4 a ≡ v4
  pub length : a.len ≡ len
  pub port_kept : port inet a ≡ some p
  pub network_port : nport a ≡ some (inet.htons p)
  pub text : to_string inet a ≡ some (shown ++ b':' ∷ inet.decimal p)

module _ (inet : Inet) (swap : (p : ℕ) → p < 2 ^ 16 → inet.ntohs (inet.htons p) ≡ p)
    (text shown : Text) (p ip : ℕ) (small : p < 2 ^ 16) where
  -- For a text that `inet_pton` reads and a port below 2 ^ 16, where `ntohs` undoes `htons`,
  -- `make_addr_v4` returns an IPv4 address of the right length, with that port in both byte orders,
  -- that prints as `inet_ntop` shows it, a colon and the port.
  pub make_addr_v4-IsAddress :
      inet.pton4 text ≡ (pos 1, ip)
      → inet.ntop4 ip ≡ some shown
      → (a : SocketAddr) × (make_addr_v4 inet text p ≡ returned a)
        × IsAddress inet true sockaddr_in_size p shown a
  unfolding make_addr_v4 v4_parse from_v4 port to_string nport is_ipv4
  make_addr_v4-IsAddress e f = (
    from_v4 inet (record { s_addr = ip }) p,
    rw (e, make_addr_v4) refl,
    record {
      family = refl;
      length = refl;
      port_kept = ap some (swap p small);
      network_port = refl;
      text = rw (f, swap p small) refl;
    },
  )

  -- For a text that `inet_pton` reads and a port below 2 ^ 16, where `ntohs` undoes `htons`,
  -- `make_addr_v6` returns an IPv6 address of the right length, with that port in both byte orders,
  -- that prints as `inet_ntop` shows it, a colon and the port.
  pub make_addr_v6-IsAddress :
      inet.pton6 text ≡ (pos 1, ip)
      → inet.ntop6 ip ≡ some shown
      → (a : SocketAddr) × (make_addr_v6 inet text p ≡ returned a)
        × IsAddress inet false sockaddr_in6_size p shown a
  unfolding make_addr_v6 v6_parse from_v6 port to_string nport is_ipv4
  make_addr_v6-IsAddress e f = (
    from_v6 inet (record { s6_addr = ip }) p,
    rw (e, make_addr_v6) refl,
    record {
      family = refl;
      length = refl;
      port_kept = ap some (swap p small);
      network_port = refl;
      text = rw (f, swap p small) refl;
    },
  )

-- A text that is no address is not refused: the result is what the variable held.
pub v4_parse-junk :
    (inet : Inet) (text : Text) (ip : ℕ)
    → inet.pton4 text ≡ (pos 0, ip)
    → v4_parse inet text ≡ returned (record { s_addr = inet.junk })
unfolding v4_parse
v4_parse-junk inet text ip e = rw e refl
