-- ===== src/Net/Socket/Ownership.antt =====
-- Who closes a descriptor.
use co_net.Base.{◌≡◌, ◌++◌, arith}
use co_net.Net.Socket.{Socket, move, move_assign, destroy}

-- A move and the destruction of both sides close what the source's destruction would have closed,
-- once. So do a move assignment and the destruction of both sides: the descriptor that the target
-- held is closed by neither.
pub destroy-move :
    (s this : Socket)
    → (destroy (move s).0 ++ destroy (move s).1 ≡ destroy s)
      × (destroy (move_assign this s).0 ++ destroy (move_assign this s).1 ≡ destroy s)
unfolding destroy move move_assign
destroy-move s this = (ground arith, ground arith)
