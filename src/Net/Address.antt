-- ===== src/Net/Address.antt =====
-- include/co_net/net/ip_addr.hpp. The conversions of the C library and the printing of a number are
-- parameters. A text is the list of its bytes; an IPv6 address is one number.
pub mod RoundTrip
use co_net.Base.{
  ℕ, Bool, true, false, not, List, [], ◌∷◌, ◌++◌, Option, none, some, ◌==◌, if◌then◌else◌,
}
use co_net.Base.Int.{ℤ, pos, minus_one, ◌==ℤ◌}
use co_net.Io.Await.{Result, returned, thrown}

abbrev pub Text : Type 0
Text = List ℕ

pub record Inet : Type 0 where
  pub ntohl : ℕ → ℕ
  pub htons : ℕ → ℕ
  pub ntohs : ℕ → ℕ
  -- What `inet_pton` returns, and what it writes if that is 1.
  pub pton4 : Text → ℤ × ℕ
  pub pton6 : Text → ℤ × ℕ
  pub ntop4 : ℕ → Option Text
  pub ntop6 : ℕ → Option Text
  pub decimal : ℕ → Text
  -- The port and the address of a socket's peer.
  pub getpeername4 : ℤ → ℕ × ℕ
  pub getpeername6 : ℤ → ℕ × ℕ
  -- What a variable that was not initialised holds.
  pub junk : ℕ

pub record Ipv4Addr : Type 0 where
  pub s_addr : ℕ

pub record Ipv6Addr : Type 0 where
  pub s6_addr : ℕ

-- The union of class SocketAddr, by the member that was written.
pub data SockAddr : Type 0 where
  addr_v4 : (sin_port sin_addr : ℕ) → SockAddr
  addr_v6 : (sin6_port sin6_addr : ℕ) → SockAddr

pub record SocketAddr : Type 0 where
  pub is_v4 : Bool
  pub addr : SockAddr
  pub len : ℕ

-- `sizeof(sockaddr_in)`, `sizeof(sockaddr_in6)`
abbrev pub sockaddr_in_size : ℕ
sockaddr_in_size = 16

abbrev pub sockaddr_in6_size : ℕ
sockaddr_in6_size = 28

unfoldable pub is_ipv4 : SocketAddr → Bool
is_ipv4 a = a.is_v4

unfoldable pub is_ipv6 : SocketAddr → Bool
is_ipv6 a = not a.is_v4

-- Port and address behind `addr_v4_` and `addr_v6_`; `none` reads the member that is not there.
unfoldable pub sockaddr_v4 : SockAddr → Option (ℕ × ℕ)
sockaddr_v4 (addr_v4 p a) = some (p, a)
sockaddr_v4 (addr_v6 p a) = none

unfoldable pub sockaddr_v6 : SockAddr → Option (ℕ × ℕ)
sockaddr_v6 (addr_v4 p a) = none
sockaddr_v6 (addr_v6 p a) = some (p, a)

-- Port and address by the flag.
unfoldable pub active : SocketAddr → Option (ℕ × ℕ)
unfolding sockaddr_v4 sockaddr_v6 is_ipv4
active a = if is_ipv4 a then sockaddr_v4 a.addr else sockaddr_v6 a.addr

-- `SocketAddr::nport`
unfoldable pub nport : SocketAddr → Option ℕ
unfolding active
nport a = elim (active a) [ none ↦ none | some (p, _) ↦ some p ]

or_empty : Option Text → Text
or_empty none = []
or_empty (some t) = t

module _ (inet : Inet) where
  unfoldable pub to_u32_host : Ipv4Addr → ℕ
  to_u32_host ip = inet.ntohl ip.s_addr

  unfoldable pub v4_to_string : Ipv4Addr → Result Text
  v4_to_string ip = elim (inet.ntop4 ip.s_addr) [ none ↦ thrown | some t ↦ returned t ]

  unfoldable pub v6_to_string : Ipv6Addr → Result Text
  v6_to_string ip = elim (inet.ntop6 ip.s6_addr) [ none ↦ thrown | some t ↦ returned t ]

  -- The variable that `inet_pton` writes to is not initialised.
  written : ℤ × ℕ → ℕ
  written (ret, out) = if ret ==ℤ pos 1 then out else inet.junk

  unfoldable pub v4_parse : Text → Result Ipv4Addr
  unfolding written
  v4_parse text =
      if (inet.pton4 text).0 ==ℤ minus_one
      then thrown
      else returned (record { s_addr = written (inet.pton4 text) })

  unfoldable pub v6_parse : Text → Result Ipv6Addr
  unfolding written
  v6_parse text =
      if (inet.pton6 text).0 ==ℤ minus_one
      then thrown
      else returned (record { s6_addr = written (inet.pton6 text) })

  unfoldable pub from_v4 : Ipv4Addr → ℕ → SocketAddr
  from_v4 ip port = record {
    is_v4 = true;
    addr = addr_v4 (inet.htons port) ip.s_addr;
    len = sockaddr_in_size;
  }

  unfoldable pub from_v6 : Ipv6Addr → ℕ → SocketAddr
  from_v6 ip port = record {
    is_v4 = false;
    addr = addr_v6 (inet.htons port) ip.s6_addr;
    len = sockaddr_in6_size;
  }

  -- The address of a socket's peer; `len_` is not initialised.
  unfoldable pub of_peer : ℤ → Bool → SocketAddr
  of_peer fd is_v4 =
      if is_v4
      then record {
        is_v4 = true;
        addr = addr_v4 (inet.getpeername4 fd).0 (inet.getpeername4 fd).1;
        len = inet.junk;
      }
      else record {
        is_v4 = false;
        addr = addr_v6 (inet.getpeername6 fd).0 (inet.getpeername6 fd).1;
        len = inet.junk;
      }

  -- `SocketAddr::port`
  unfoldable pub port : SocketAddr → Option ℕ
  unfolding active
  port a = elim (active a) [ none ↦ none | some (p, _) ↦ some (inet.ntohs p) ]

  -- `SocketAddr::to_string`; a failure of `inet_ntop` leaves the buffer empty.
  unfoldable pub to_string : SocketAddr → Option Text
  unfolding active or_empty is_ipv4
  to_string a = elim (active a) [
    | none ↦ none
    | some (p, ip) ↦ some (
        or_empty (if is_ipv4 a then inet.ntop4 ip else inet.ntop6 ip)
        ++ b':' ∷ inet.decimal (inet.ntohs p))
  ]

  unfoldable pub make_addr_v4 : Text → ℕ → Result SocketAddr
  make_addr_v4 text p = elim (v4_parse text) [
    | thrown ↦ thrown
    | returned ip ↦ returned (from_v4 ip p)
  ]

  unfoldable pub make_addr_v6 : Text → ℕ → Result SocketAddr
  make_addr_v6 text p = elim (v6_parse text) [
    | thrown ↦ thrown
    | returned ip ↦ returned (from_v6 ip p)
  ]
