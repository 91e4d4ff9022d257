-- ===== src/Io/Token.antt =====
-- include/co_net/io/prep/completion_token.hpp and include/co_net/io/uring_msg.hpp: what a
-- completion's user data points at.
use co_net.Base.{ℕ, Option, none}
use co_net.Base.Int.{ℤ, pos, negsuc}
use co_net.Net.Connection.{TcpConnection}

pub data Op : Type 0 where
  wakeup timeout socket : Op
  accept multishot_accept multishot_accept_retry multishot_accept_pending : Op
  multishot_accept_fd_sender multishot_accept_fd_receiver multishot_accept_task_receiver : Op
  ring_task ring_fd_sender ring_fd_receiver : Op
  send : Op
  receive multishot_receive register_ring_buffer : Op
  shutdown : Op
  close sync_close_direct async_close_direct main_ring_close_direct_socket : Op
  cancel_any : Op
  quit : Op
  unknown : Op

-- A `ScheduledTask*`: the task loops only grow, so a place in one is an address.
pub record TaskRef : Type 0 where
  pub ring : ℕ
  pub index : ℕ

pub record CompletionToken : Type 0 where
  pub op : Op
  pub chain_task : Option TaskRef
  pub cqe_res : ℤ
  pub cqe_flags : ℤ

-- `CompletionToken{}`, with `-ENOSYS`.
abbrev pub new_token : CompletionToken
new_token = record { op = unknown; chain_task = none; cqe_res = negsuc 37; cqe_flags = pos 0 }

pub data RingMsgType : Type 0 where
  ring_task ring_func_task multi_acc_task ring_fd : RingMsgType

-- `static_cast<int32_t>`
abbrev pub to_int : RingMsgType → ℤ
to_int RingMsgType.ring_task = pos 0x7a51
to_int ring_func_task = pos 0x7a51b
to_int multi_acc_task = pos 0x7a51c
to_int ring_fd = pos 0xd1fd

-- A `std::function<Task<>(TcpConnection)>`: empty, or one of the program's callables.
abbrev pub Func : Type 0
Func = Option ℕ

-- A `Task<>` that has not been awaited: a coroutine of the program, or a callable's coroutine on a
-- connection.
pub data Coro : Type 0 where
  plain : ℕ → Coro
  on_connection : ℕ → TcpConnection → Coro

-- What the program allocates: a token, a RingMsgTask, a RingMsgConnTaskHelper or a
-- MultishotAcceptTaskToken.
pub data Cell : Type 0 where
  token : CompletionToken → Cell
  task_msg : Coro → Cell
  conn_msg : Func → ℤ → Cell
  macc_msg : Op → Func → Cell
