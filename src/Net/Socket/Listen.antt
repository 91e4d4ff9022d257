-- ===== src/Net/Socket/Listen.antt =====
-- How a listener comes about.
use co_net.Base.{◌≡◌, ◌≢◌, refl, [], ◌∷◌, arith}
use co_net.Base.Int.{ℤ, minus_one}
use co_net.Io.Await.{thrown, enfile, prep_normal_socket}
use co_net.Net.Address.{SocketAddr}
use co_net.Net.Socket.{setsockopt, socket, listen_on}

listen_on-thrown :
    (addr : SocketAddr) (backlog ret : ℤ) (fd : ℤ)
    → (listen_on addr backlog enfile ret ≡ ([], thrown))
      × (fd ≢ enfile → listen_on addr backlog fd minus_one ≡ (setsockopt fd 15 1 ∷ [], thrown))
unfolding listen_on prep_normal_socket socket
listen_on-thrown addr backlog ret fd = (refl, ground arith)
