-- ===== src/Io/Handler/Sends.antt =====
-- What the handlers ask for: the handler of a connection's function sends one message, the others
-- none.
use co_net.Base.{ℕ, zero, suc, ◌≡◌, refl, true, false, inl}
use co_net.Base.Int.{ℤ, minus_one}
use co_net.Net.Connection.{TcpConnection, connection, move, set_subring_socket}
use co_net.Io.Token.{CompletionToken, Op, Func, Cell, token, task_msg, conn_msg, macc_msg}
use co_net.Io.Sqe.{Cqe}
use co_net.Io.World.{Ring, Platform, ◌>>=◌, ◌>>◌, free, get_ring, put_ring}
use co_net.Io.World.Keeps.{Keeps-load, Keeps-free, Keeps-change}
use co_net.Io.Ring.{enqueue, notify_main_ring_release_fd, destroy}
use co_net.Io.Tickets.{issued}
use co_net.Io.Ring.Kept.{Keeps-enqueue, Keeps-destroy}
use co_net.Io.Handler.{
  invoke, destroy_each, cast_task, cast_conn, cast_macc, index, assign, erase, switch, handle_token,
  handle_ring_task, impl_handle_msg_conn, impl_handle_macc_task, handle_request,
}
use co_net.Io.Handler.Kept.{
  other_fields, Keeps-cast_conn, Keeps-invoke, Keeps-destroy_each, Keeps-handle_ring_task,
  Keeps-handle_token, Keeps-impl_handle_macc_task,
}
use co_net.Io.Tickets.Posts.{Posting, posting, post, Posting-bind, Posting-then, Posting-if}
use co_net.Io.Tickets.Sends.{Posting-notify_main_ring_release_fd}
use co_net.Io.Tickets.Quiet.{
  Quiet, quiet, silent, Posting-Quiet, Quiet-bind, Quiet-then, Quiet-pure, Quiet-stop, Quiet-change,
  Quiet-get_ring, Quiet-load, Quiet-free, Quiet-store, Quiet-cast_token, Quiet-enqueue,
  Quiet-set_task_pending, Quiet-push_awaiting, Quiet-invoke, Quiet-close_direct_socket,
  Quiet-destroy, Quiet-destroy_each, Quiet-start_each,
}

Quiet-cast_task : (c : Cell) → Quiet (cast_task c)
Quiet-cast_task (token _) = Quiet-stop _
Quiet-cast_task (task_msg c) = Quiet-pure c
Quiet-cast_task (conn_msg _ _) = Quiet-stop _
Quiet-cast_task (macc_msg _ _) = Quiet-stop _

Quiet-cast_conn : (c : Cell) → Quiet (cast_conn c)
Quiet-cast_conn (token _) = Quiet-stop _
Quiet-cast_conn (task_msg c) = Quiet-stop _
Quiet-cast_conn (conn_msg f fd) = Quiet-pure (f, fd)
Quiet-cast_conn (macc_msg _ _) = Quiet-stop _

Quiet-cast_macc : (c : Cell) → Quiet (cast_macc c)
Quiet-cast_macc (token _) = Quiet-stop _
Quiet-cast_macc (task_msg c) = Quiet-stop _
Quiet-cast_macc (conn_msg _ _) = Quiet-stop _
Quiet-cast_macc (macc_msg _ f) = Quiet-pure f

-- A change of a ring that is followed by more.
change_then :
    (this p : ℕ) (f : Ring → Ring)
    → ((q : ℕ) (x : Ring) → issued q (f x) ≡ issued q x)
    → Quiet (get_ring this >>= λ x. put_ring this (f x) >> free p)
change_then this p f h = quiet λ w. silent (Quiet-then _ _ (Quiet-change this f h) (Quiet-free p)) w

module _ (lib : Platform) (this : ℕ) (cqe : Cqe) where
  Quiet-switch : (p : ℕ) (t : CompletionToken) (op : Op) → Quiet (switch lib this cqe p t op)
  unfolding switch
  Quiet-switch p t Op.sync_close_direct = Quiet-free p
  Quiet-switch p t Op.quit = change_then this p (λ r. record r { stopped = true }) λ q x. refl
  Quiet-switch p t Op.cancel_any = Quiet-free p
  Quiet-switch p t Op.ring_task = Quiet-free p
  Quiet-switch p t Op.ring_fd_sender = Quiet-free p
  Quiet-switch p t Op.ring_fd_receiver =
      change_then this p (λ r. record r { direct_map = assign t.cqe_res cqe.res r.direct_map })
        λ q x. refl
  Quiet-switch p t Op.main_ring_close_direct_socket =
      Quiet-then _ _ (Quiet-close_direct_socket lib this this cqe.res) (Quiet-free p)
  Quiet-switch p t Op.multishot_accept = Quiet-then _ _ (Quiet-push_awaiting this cqe.res) (
      Quiet-bind _ _ (Quiet-load lib.multishot_token)
        λ c. Quiet-bind _ _ (Quiet-cast_token c) λ s. Quiet-set_task_pending false s.chain_task)
  Quiet-switch p t Op.multishot_accept_fd_receiver =
      Quiet-then _ _ (Quiet-push_awaiting this cqe.res) (Quiet-free p)
  Quiet-switch p t _ = Quiet-then _ _ (Quiet-store p _) (Quiet-set_task_pending false t.chain_task)

  Quiet-handle_token : (p : ℕ) → Quiet (handle_token lib this cqe p)
  unfolding handle_token
  Quiet-handle_token zero = Quiet-pure tt
  Quiet-handle_token (suc q) =
      Quiet-bind _ _ (Quiet-load (suc q))
        λ c. Quiet-bind _ _ (Quiet-cast_token c) λ t. Quiet-switch (suc q) t t.op

  Quiet-handle_ring_task : Quiet (handle_ring_task lib this cqe)
  unfolding handle_ring_task
  Quiet-handle_ring_task = Quiet-bind _ _ (Quiet-load cqe.user_data) λ c.
      Quiet-bind _ _ (Quiet-cast_task c)
        λ t. Quiet-then _ _ (Quiet-enqueue this t) (Quiet-free cqe.user_data)

  Quiet-impl_handle_macc_task : Quiet (impl_handle_macc_task lib this cqe)
  unfolding impl_handle_macc_task
  Quiet-impl_handle_macc_task = Quiet-bind _ _ (Quiet-load cqe.user_data) λ c.
      Quiet-bind _ _ (Quiet-cast_macc c) λ func. Quiet-then _ _ (Quiet-free cqe.user_data) (
        Quiet-bind _ _ (Quiet-get_ring this)
          λ r. Quiet-start_each lib this func r.awaiting_direct_fd)

  Posting-impl_handle_msg_conn : Posting cqe.user_data this (impl_handle_msg_conn lib this cqe)
  unfolding impl_handle_msg_conn
  Posting-impl_handle_msg_conn =
      Posting-bind _ _ (Posting-Quiet _ (λ n. Keeps-load cqe.user_data) (Quiet-load cqe.user_data))
        λ cell.
          Posting-bind _ _ (Posting-Quiet _ (λ n. Keeps-cast_conn cell) (Quiet-cast_conn cell))
            λ msg.
              Posting-then _ _
                (Posting-Quiet _ (λ n. Keeps-free cqe.user_data (inl refl))
                  (Quiet-free cqe.user_data))
                (posting λ w old.
                  let own =
                    set_subring_socket (index msg.1 (w.ring this).direct_map).0
                      (connection minus_one) in
                  post (Posting-then _ _ (released msg.1) (serves msg.0 msg.1 (move own))) w old)
    where
      released :
          (fd : ℤ)
          → Posting cqe.user_data this (
              get_ring this >>= λ x.
              put_ring this (record x { direct_map = erase fd (index fd x.direct_map).1 }))
      released fd =
          Posting-Quiet _
            (λ n.
              Keeps-change this (λ x. record x { direct_map = erase fd (index fd x.direct_map).1 })
                λ x. other_fields x (erase fd (index fd x.direct_map).1) x.awaiting_direct_fd)
            (Quiet-change this (λ x. record x { direct_map = erase fd (index fd x.direct_map).1 })
              λ q x. refl)

      serves :
          (f : Func) (fd : ℤ) (moved : TcpConnection × TcpConnection)
          → Posting cqe.user_data this (
              invoke f moved.0 >>= λ c.
              destroy_each lib this lib.call_moves moved.1
              >> (enqueue this c
                  >> (notify_main_ring_release_fd lib this fd >> destroy lib this moved.1)))
      serves f fd moved =
          Posting-bind _ _ (Posting-Quiet _ (λ n. Keeps-invoke f moved.0) (Quiet-invoke f moved.0))
            λ c.
              Posting-then _ _
                (Posting-Quiet _ (λ n. Keeps-destroy_each lib this lib.call_moves moved.1)
                  (Quiet-destroy_each lib this lib.call_moves moved.1))
                (Posting-then _ _
                  (Posting-Quiet _ (λ n. Keeps-enqueue this c) (Quiet-enqueue this c))
                  (Posting-then _ _ (Posting-notify_main_ring_release_fd lib this fd) (
                    Posting-Quiet _ (λ n. Keeps-destroy lib this moved.1)
                      (Quiet-destroy lib this moved.1))))

  pub Posting-handle_request : Posting cqe.user_data this (handle_request lib this cqe)
  unfolding handle_request
  Posting-handle_request =
      Posting-if _ _ _
        (Posting-Quiet _ (λ n. Keeps-handle_ring_task lib this cqe (inl refl))
          Quiet-handle_ring_task)
        (Posting-if _ _ _ Posting-impl_handle_msg_conn (
          Posting-if _ _ _
            (Posting-Quiet _ (λ n. Keeps-impl_handle_macc_task lib this cqe (inl refl))
              Quiet-impl_handle_macc_task)
            (Posting-Quiet _ (λ n. Keeps-handle_token lib this cqe cqe.user_data (inl refl))
              (Quiet-handle_token cqe.user_data))))
