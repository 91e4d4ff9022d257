-- ===== src/Net/Connection.antt =====
-- include/co_net/net/tcp/connection.hpp: the fields of a TcpConnection and the methods that touch
-- nothing else. The destructor is in Io/Ring.antt, the receive loop in Io/Buffer.antt.
use co_net.Base.{ℕ, Bool, true, false, List, [], Option, none, some, if◌then◌else◌}
use co_net.Base.Int.{ℤ, minus_one}

pub record TcpConnection : Type 0 where
  pub socket : ℤ
  pub direct_fd_in_sys_ring : ℤ
  pub direct_fd_in_this_ring : ℤ
  pub ownership_in_sys_ring : Bool
  pub send_buffer : List ℕ
  pub receive_buffer : List ℕ

unfoldable pub connection : ℤ → TcpConnection
connection direct_socket = record {
  socket = direct_socket;
  direct_fd_in_sys_ring = direct_socket;
  direct_fd_in_this_ring = minus_one;
  ownership_in_sys_ring = true;
  send_buffer = [];
  receive_buffer = [];
}

-- The move constructor: the new connection, and what is left of the old one.
unfoldable pub move : TcpConnection → TcpConnection × TcpConnection
move rhs = (
  rhs,
  record rhs {
    socket = minus_one;
    direct_fd_in_sys_ring = minus_one;
    direct_fd_in_this_ring = minus_one;
    send_buffer = [];
    receive_buffer = [];
  },
)

-- The move assignment: the target becomes the source, whatever it held.
unfoldable pub move_assign : TcpConnection → TcpConnection → TcpConnection × TcpConnection
unfolding move
move_assign this rhs = move rhs

-- `none` is the `std::logic_error`.
unfoldable pub release : TcpConnection → Option TcpConnection
release c =
    if c.ownership_in_sys_ring
    then some (record c { direct_fd_in_sys_ring = minus_one; ownership_in_sys_ring = false })
    else none

unfoldable pub set_subring_socket : ℤ → TcpConnection → TcpConnection
set_subring_socket s c = record c {
  socket = s;
  direct_fd_in_this_ring = s;
  ownership_in_sys_ring = false;
}

unfoldable pub move_out_sended : TcpConnection → List ℕ × TcpConnection
move_out_sended c = (c.send_buffer, record c { send_buffer = [] })

unfoldable pub copy_sended : TcpConnection → List ℕ
copy_sended c = c.send_buffer

unfoldable pub move_out_received : TcpConnection → List ℕ × TcpConnection
move_out_received c = (c.receive_buffer, record c { receive_buffer = [] })

unfoldable pub copy_received : TcpConnection → List ℕ
copy_received c = c.receive_buffer
