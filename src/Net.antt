-- ===== src/Net.antt =====
-- include/co_net/net: addresses, sockets, connections.
pub mod Connection
pub mod Address
pub mod Socket
