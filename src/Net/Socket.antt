-- ===== src/Net/Socket.antt =====
-- include/co_net/net/socket.hpp and net/tcp/listener.hpp: class Socket, and class TcpListener around
-- one. The system calls that they make are values, in order; what the calls answer are arguments.
pub mod Ownership
pub mod Listen
use Prim.Native.Nat.{bit_and, bit_or}
use co_net.Base.{
  ℕ, ◌+◌, ◌-◌, ◌^◌, Bool, true, false, not, List, [], ◌∷◌, ◌++◌, Option, none, some, if◌then◌else◌,
}
use co_net.Base.Int.{ℤ, pos, minus_one, is_neg, ◌==ℤ◌}
use co_net.Io.Await.{
  Awaiter, Result, returned, thrown, socket_awaiter, prep_normal_socket, direct_accept_awaiter,
  prep_accept_direct,
}
use co_net.Net.Address.{SocketAddr, SockAddr, Inet, Text, is_ipv4, of_peer, to_string}
use co_net.Net.Connection.{TcpConnection, connection}

pub data SysCall : Type 0 where
  close : ℤ → SysCall
  setsockopt : ℤ → ℕ → ℕ → SysCall
  fcntl_getfl : ℤ → SysCall
  fcntl_setfl : ℤ → ℕ → SysCall
  bind : ℤ → SockAddr → ℕ → SysCall
  listen : ℤ → ℤ → SysCall

pub record Socket : Type 0 where
  pub fd : ℤ
  pub addr : SocketAddr

-- Linux: SO_REUSEADDR, SO_REUSEPORT, O_NONBLOCK, AF_INET, AF_INET6, SOCK_STREAM.
abbrev pub so_reuseaddr : ℕ
so_reuseaddr = 2

abbrev pub so_reuseport : ℕ
so_reuseport = 15

abbrev pub o_nonblock : ℕ
o_nonblock = 2048

abbrev pub af_inet : ℤ
af_inet = pos 2

abbrev pub af_inet6 : ℤ
af_inet6 = pos 10

abbrev pub sock_stream : ℤ
sock_stream = pos 1

-- `set_reuse`; `ret` is what `setsockopt` answers.
unfoldable pub set_reuse : Bool → ℤ → Socket → List SysCall × Result (Unit {0})
set_reuse on ret s = (
  setsockopt s.fd (bit_or so_reuseaddr so_reuseport) (if on then 1 else 0) ∷ [],
  if ret ==ℤ minus_one then thrown else returned tt,
)

-- `set_nonblock`; `flags` and `ret` are what the two calls of `fcntl` answer.
unfoldable pub set_nonblock : Bool → ℕ → ℤ → Socket → List SysCall × Result (Unit {0})
set_nonblock on flags ret s = (
  fcntl_getfl s.fd
      ∷ fcntl_setfl s.fd
          (if on then bit_or flags o_nonblock else bit_and flags (2 ^ 32 - 1 - o_nonblock))
      ∷ [],
  if ret ==ℤ minus_one then thrown else returned tt,
)

-- The constructors. The first sets the reuse option, and its exception is the constructor's.
unfoldable pub socket : ℤ → SocketAddr → ℤ → List SysCall × Result Socket
unfolding set_reuse
socket fd addr ret =
    let s : Socket = record { fd = fd; addr = addr } in
    let (calls, r) = set_reuse true ret s in
    (calls, elim r [ thrown ↦ thrown | returned _ ↦ returned s ])

unfoldable pub peer_socket : Inet → ℤ → Bool → Socket
peer_socket inet fd v4 = record { fd = fd; addr = of_peer inet fd v4 }

-- The move constructor: the new socket, and what is left of the old one.
unfoldable pub move : Socket → Socket × Socket
move rhs = (record { fd = rhs.fd; addr = rhs.addr }, record rhs { fd = minus_one })

-- The move assignment drops the descriptor that it overwrites.
unfoldable pub move_assign : Socket → Socket → Socket × Socket
move_assign this rhs = (record this { fd = rhs.fd; addr = rhs.addr }, record rhs { fd = minus_one })

-- `~Socket`
unfoldable pub destroy : Socket → List SysCall
destroy s = if is_neg s.fd then [] else close s.fd ∷ []

unfoldable pub is_valid : Socket → Bool
is_valid s = not (s.fd ==ℤ minus_one)

-- `address`, of a socket that is not const and of one that is, and `len`.
unfoldable pub address : Socket → SockAddr
address s = s.addr.addr

unfoldable pub address_text : Inet → Socket → Option Text
address_text inet s = to_string inet s.addr

unfoldable pub len : Socket → ℕ
len s = s.addr.len

unfoldable pub is_ipv4_socket : Socket → Bool
is_ipv4_socket s = is_ipv4 s.addr

unfoldable pub is_ipv6_socket : Socket → Bool
is_ipv6_socket s = not (is_ipv4 s.addr)

-- `create_tcp_socket`: what it awaits, and how it goes on with the result.
unfoldable pub create_tcp_socket_awaiter : SocketAddr → Awaiter
create_tcp_socket_awaiter addr =
    socket_awaiter (if is_ipv4 addr then af_inet else af_inet6) sock_stream (pos 0) (pos 0)

unfoldable pub create_tcp_socket : SocketAddr → ℤ → ℤ → List SysCall × Result Socket
create_tcp_socket addr res ret = elim (prep_normal_socket res) [
  | thrown ↦ ([], thrown)
  | returned fd ↦ socket fd addr ret
]

abbrev pub sock_dgram : ℤ
sock_dgram = pos 2

-- `create_udp_socket`, whose coroutine ends without a value: `none` stands for the socket that the
-- caller would read all the same.
unfoldable pub create_udp_socket_awaiter : SocketAddr → Awaiter
create_udp_socket_awaiter addr = socket_awaiter af_inet sock_dgram (pos 0) (pos 0)

unfoldable pub create_udp_socket : SocketAddr → ℤ → Result (Option Socket)
create_udp_socket addr res = elim (prep_normal_socket res) [
  | thrown ↦ thrown
  | returned sockfd ↦ returned none
]

-- class TcpListener. Its destructor is that of `socket_`.
pub record TcpListener : Type 0 where
  pub socket_ : Socket

-- Its constructors and its move assignment, each with what is left of the argument.
unfoldable pub listener : Socket → TcpListener × Socket
unfolding move
listener s = let (mine, left) = move s in (record { socket_ = mine }, left)

unfoldable pub move_listener : TcpListener → TcpListener × TcpListener
unfolding move
move_listener rhs =
    let (mine, left) = move rhs.socket_ in (record { socket_ = mine }, record { socket_ = left })

unfoldable pub move_assign_listener : TcpListener → TcpListener → TcpListener × TcpListener
unfolding move_assign
move_assign_listener this rhs =
    let (mine, left) = move_assign this.socket_ rhs.socket_ in
    (record { socket_ = mine }, record { socket_ = left })

unfoldable pub listen_fd : TcpListener → ℤ
listen_fd l = l.socket_.fd

-- `TcpListener::listen_on`. The answers of `bind` and `listen` are not looked at.
unfoldable pub listen_on : SocketAddr → ℤ → ℤ → ℤ → List SysCall × Result TcpListener
unfolding create_tcp_socket
listen_on addr backlog res ret =
    let (calls, r) = create_tcp_socket addr res ret in
    elim r [
      | thrown ↦ (calls, thrown)
      | returned s ↦ (
        calls ++ bind s.fd s.addr.addr s.addr.len ∷ listen s.fd backlog ∷ [],
        returned (record { socket_ = s }),
      )
    ]

-- `TcpListener::accept`
unfoldable pub accept_awaiter : TcpListener → Awaiter
unfolding listen_fd
accept_awaiter l = direct_accept_awaiter (listen_fd l)

unfoldable pub accept : TcpListener → ℤ → Result TcpConnection
accept l res = elim (prep_accept_direct res) [
  | thrown ↦ thrown
  | returned client_sock ↦
      if is_ipv4 l.socket_.addr
      then returned (connection client_sock)
      else returned (connection client_sock)
]
