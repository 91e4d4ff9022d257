-- ===== src/Io/Handler/Kept.antt =====
-- No handler takes anything back.
use co_net.Base.{
  ℕ, suc, zero, if◌then◌else◌, ◌≡◌, refl, sym, Bool, true, false, Option, none, some, List, [], ◌∷◌,
  ◌++◌, arith, append-nil, ◌≤◌,
}
use co_net.Base.Int.{ℤ, is_neg, minus_one, signed}
use co_net.Io.Token.{CompletionToken, Cell, Func, Op, TaskRef, token, task_msg, conn_msg, macc_msg}
use co_net.Io.Sqe.{Cqe}
use co_net.Io.World.{
  World, Ring, Platform, get_ring, ◌>>=◌, put_ring, pure, store, free, cast_token, ◌>>◌,
}
use co_net.Io.World.Later.{RingLater, Later-refl, LaterBut, Touches}
use co_net.Io.World.Keeps.{
  After, After-and_then, Keeps, keeps, at, Keeps-bind, Keeps-then, Keeps-pure, Keeps-stop, Keeps-if,
  Keeps-get_ring, Keeps-free, Keeps-load_as, Keeps-token, Keeps-cast_token, Keeps-get_put,
  put_ring-Later, store-Later,
}
use co_net.Net.Connection.{TcpConnection, connection, move, set_subring_socket}
use co_net.Io.Ring.{set_task_pending, enqueue, notify_main_ring_release_fd, destroy}
use co_net.Io.Ring.Kept.{
  Keeps-enqueue, Keeps-set_task_pending, Keeps-close_direct_socket,
  Keeps-notify_main_ring_release_fd, Keeps-destroy,
}
use co_net.Io.Handler.{
  erase, index, assign, cast_task, cast_conn, cast_macc, invoke, push_awaiting, destroy_each,
  impl_handle_msg_conn, start_each, impl_handle_macc_task, switch, handle_token, handle_ring_task,
  handle_request,
}

-- A change that leaves the tasks, the entries and the flag.
pub other_fields :
    (x : Ring) (m : List (ℤ × ℤ)) (fds : List ℤ)
    → RingLater x (record x { direct_map = m; awaiting_direct_fd = fds })
other_fields x m fds = record {
  tasks = ([], sym (append-nil _));
  entries = ([], sym (append-nil _));
  consumed = omega arith;
  stopped = λ h. h;
}

-- The connection that is made for a descriptor of the main ring.
abbrev accepted_conn : ℤ → Ring → TcpConnection
accepted_conn fd x = set_subring_socket (index fd x.direct_map).0 (connection minus_one)

module _ {o n : ℕ} where
  Keeps-cast_task : (c : Cell) → Keeps o n (cast_task c)
  Keeps-cast_task (token _) = Keeps-stop _
  Keeps-cast_task (task_msg c) = Keeps-pure c
  Keeps-cast_task (conn_msg _ _) = Keeps-stop _
  Keeps-cast_task (macc_msg _ _) = Keeps-stop _

  pub Keeps-cast_conn : (c : Cell) → Keeps o n (cast_conn c)
  Keeps-cast_conn (token _) = Keeps-stop _
  Keeps-cast_conn (task_msg c) = Keeps-stop _
  Keeps-cast_conn (conn_msg f fd) = Keeps-pure (f, fd)
  Keeps-cast_conn (macc_msg _ _) = Keeps-stop _

  Keeps-cast_macc : (c : Cell) → Keeps o n (cast_macc c)
  Keeps-cast_macc (token _) = Keeps-stop _
  Keeps-cast_macc (task_msg c) = Keeps-stop _
  Keeps-cast_macc (conn_msg _ _) = Keeps-stop _
  Keeps-cast_macc (macc_msg _ f) = Keeps-pure f

  pub Keeps-invoke : (f : Func) (c : TcpConnection) → Keeps o n (invoke f c)
  Keeps-invoke none c = Keeps-stop _
  Keeps-invoke (some f) c = Keeps-pure _

  pub Keeps-push_awaiting : (this : ℕ) (fd : ℤ) → Keeps o n (push_awaiting this fd)
  unfolding push_awaiting
  Keeps-push_awaiting this fd = keeps λ w le. split w (is_neg fd)
    where
      split :
          (w : World) (b : Bool)
          → After (LaterBut o n w) (
              (if b
                  then pure tt
                  else put_ring this (record (w.ring this) {
                    awaiting_direct_fd = (w.ring this).awaiting_direct_fd ++ fd ∷ [];
                  }))
                w)
      split w true = Later-refl w
      split w false = put_ring-Later this _ w (other_fields (w.ring this) _ _)

  module _ (lib : Platform) where
    pub Keeps-destroy_each :
        (local m : ℕ) (c : TcpConnection) → Keeps o n (destroy_each lib local m c)
    unfolding destroy_each
    Keeps-destroy_each local zero c = Keeps-pure tt
    Keeps-destroy_each local (suc m) c =
        Keeps-then _ _ (Keeps-destroy lib local c) (Keeps-destroy_each local m c)

    -- What follows once the message is freed.
    pub Keeps-serve :
        (this : ℕ) (msg : Func × ℤ)
        → Keeps o n (
            get_ring this >>= λ x.
            put_ring this (record x { direct_map = erase msg.1 (index msg.1 x.direct_map).1 })
            >> (invoke msg.0 (move (accepted_conn msg.1 x)).0 >>= λ c.
                destroy_each lib this lib.call_moves (move (accepted_conn msg.1 x)).1
                >> (enqueue this c
                    >> (notify_main_ring_release_fd lib this msg.1
                        >> destroy lib this (move (accepted_conn msg.1 x)).1))))
    Keeps-serve this msg =
        let released = λ (x : Ring). erase msg.1 (index msg.1 x.direct_map).1 in
        Keeps-get_put this _ _ (λ x. other_fields x (released x) x.awaiting_direct_fd)
          λ x.
            let own = accepted_conn msg.1 x in
            Keeps-bind _ _ (Keeps-invoke msg.0 (move own).0) λ c.
              Keeps-then _ _ (Keeps-destroy_each this lib.call_moves (move own).1) (
                Keeps-then _ _ (Keeps-enqueue this c) (
                  Keeps-then _ _ (Keeps-notify_main_ring_release_fd lib this msg.1)
                    (Keeps-destroy lib this (move own).1)))

    pub Keeps-impl_handle_msg_conn :
        (this : ℕ) (cqe : Cqe)
        → Touches o n cqe.user_data
        → Keeps o n (impl_handle_msg_conn lib this cqe)
    unfolding impl_handle_msg_conn
    Keeps-impl_handle_msg_conn this cqe mine =
        Keeps-load_as cqe.user_data cast_conn _ Keeps-cast_conn
          λ msg. Keeps-then _ _ (Keeps-free cqe.user_data mine) (Keeps-serve this msg)

    pub Keeps-start_each :
        (this : ℕ) (func : Func) (fds : List ℤ) → Keeps o n (start_each lib this func fds)
    unfolding start_each
    Keeps-start_each this func [] = Keeps-pure tt
    Keeps-start_each this func (fd ∷ fds) = Keeps-bind _ _ (Keeps-invoke func _) λ c.
        Keeps-then _ _ (Keeps-destroy_each this (suc lib.call_moves) _)
          (Keeps-then _ _ (Keeps-enqueue this c) (Keeps-start_each this func fds))

    pub Keeps-impl_handle_macc_task :
        (this : ℕ) (cqe : Cqe)
        → Touches o n cqe.user_data
        → Keeps o n (impl_handle_macc_task lib this cqe)
    unfolding impl_handle_macc_task
    Keeps-impl_handle_macc_task this cqe mine =
        Keeps-load_as cqe.user_data cast_macc _ Keeps-cast_macc λ func.
          Keeps-then _ _ (Keeps-free cqe.user_data mine) (
            Keeps-bind _ _ (Keeps-get_ring this)
              λ r. Keeps-start_each this func r.awaiting_direct_fd)

    -- A token that is written back where it was read.
    woken :
        (p : ℕ) (old : Cell) (t : CompletionToken) (chain : Option TaskRef) (w : World)
        → n ≤ w.next
        → Touches o n p
        → w.heap p ≡ some old
        → After (LaterBut o n w) ((store p (token t) >> set_task_pending false chain) w)
    woken p old t chain w le mine live =
        After-and_then w (store p (token t) w) _ le (store-Later p old (token t) w mine live)
          λ _ _ _. Keeps-set_task_pending false chain

    switch-Later :
        (this : ℕ) (cqe : Cqe) (p : ℕ) (old : Cell) (t : CompletionToken) (op : Op) (w : World)
        → n ≤ w.next
        → Touches o n p
        → w.heap p ≡ some old
        → After (LaterBut o n w) (switch lib this cqe p t op w)
    unfolding switch
    switch-Later this cqe p old t Op.sync_close_direct w le mine live = at (Keeps-free p mine) w le
    switch-Later this cqe p old t Op.quit w le mine live =
        at
          (Keeps-get_put this (λ r. record r { stopped = true }) (λ _. free p)
            (λ x. record {
              tasks = ([], sym (append-nil _));
              entries = ([], sym (append-nil _));
              consumed = omega arith;
              stopped = λ h. refl;
            })
            λ _. Keeps-free p mine)
          w le
    switch-Later this cqe p old t Op.cancel_any w le mine live = at (Keeps-free p mine) w le
    switch-Later this cqe p old t Op.ring_task w le mine live = at (Keeps-free p mine) w le
    switch-Later this cqe p old t Op.ring_fd_sender w le mine live = at (Keeps-free p mine) w le
    switch-Later this cqe p old t Op.ring_fd_receiver w le mine live =
        at
          (Keeps-get_put this (λ r. record r { direct_map = assign t.cqe_res cqe.res r.direct_map })
            (λ _. free p) (λ x. other_fields x _ x.awaiting_direct_fd) λ _. Keeps-free p mine)
          w le
    switch-Later this cqe p old t Op.main_ring_close_direct_socket w le mine live =
        at (Keeps-then _ _ (Keeps-close_direct_socket lib this this cqe.res) (Keeps-free p mine)) w
          le
    switch-Later this cqe p old t Op.multishot_accept w le mine live =
        at
          (Keeps-then _ _ (Keeps-push_awaiting this cqe.res) (
            Keeps-load_as lib.multishot_token cast_token _ Keeps-cast_token
              λ s. Keeps-set_task_pending false s.chain_task))
          w le
    switch-Later this cqe p old t Op.multishot_accept_fd_receiver w le mine live =
        at (Keeps-then _ _ (Keeps-push_awaiting this cqe.res) (Keeps-free p mine)) w le
    switch-Later this cqe p old t _ w le mine live =
        woken p old (record t { cqe_res = cqe.res; cqe_flags = signed 32 cqe.flags }) t.chain_task w
          le mine live

    pub Keeps-handle_token :
        (this : ℕ) (cqe : Cqe) (p : ℕ) → Touches o n p → Keeps o n (handle_token lib this cqe p)
    unfolding handle_token
    Keeps-handle_token this cqe zero mine = Keeps-pure tt
    Keeps-handle_token this cqe (suc q) mine =
        Keeps-token (suc q) (λ t. switch lib this cqe (suc q) t t.op)
          λ t c w le live. switch-Later this cqe (suc q) c t t.op w le mine live

    pub Keeps-handle_ring_task :
        (this : ℕ) (cqe : Cqe)
        → Touches o n cqe.user_data
        → Keeps o n (handle_ring_task lib this cqe)
    unfolding handle_ring_task
    Keeps-handle_ring_task this cqe mine =
        Keeps-load_as cqe.user_data cast_task _ Keeps-cast_task
          λ c. Keeps-then _ _ (Keeps-enqueue this c) (Keeps-free cqe.user_data mine)

    pub Keeps-handle_request :
        (this : ℕ) (cqe : Cqe) → Touches o n cqe.user_data → Keeps o n (handle_request lib this cqe)
    unfolding handle_request
    Keeps-handle_request this cqe mine = Keeps-if _ _ _ (Keeps-handle_ring_task this cqe mine) (
        Keeps-if _ _ _ (Keeps-impl_handle_msg_conn this cqe mine) (
          Keeps-if _ _ _ (Keeps-impl_handle_macc_task this cqe mine)
            (Keeps-handle_token this cqe cqe.user_data mine)))
