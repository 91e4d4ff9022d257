-- ===== src/Context/Spawn/Kept.antt =====
-- No spawn, no accepted connection and no termination takes anything back.
use co_net.Base.{
  ℕ, true, Option, none, some, List, [], ◌∷◌, refl, ◌≡◌, arith, append-nil, sym, ◌==◌, Bool-cases,
  Option-cases, inl, inr,
}
use co_net.Base.Int.{ℤ}
use co_net.Io.Token.{TaskRef, Coro, Func, token}
use co_net.Io.Sqe.{Cqe}
use co_net.Io.World.{World, SystemLoop, ok, Platform, store, ◌>>◌}
use co_net.Io.World.Later.{RingLater-refl, Later-refl, LaterBut, Touches}
use co_net.Io.World.Keeps.{
  After-if, Keeps, keeps, Keeps-bind, Keeps-then, Keeps-pure, Keeps-stop, Keeps-if, Keeps-alloc,
  Keeps-token, Keeps-get_ring, Keeps-get_put, After-and_then, store-Later,
}
use co_net.Net.Connection.{TcpConnection, release}
use co_net.Io.Ring.{notify_workers_to_stop, notify_self_quit, submit_all}
use co_net.Io.Handler.{process_all}
use co_net.Io.Ring.Kept.{
  Keeps-put_sqe, Keeps-submit_all, Keeps-notify_workers_to_stop, Keeps-notify_self_quit,
}
use co_net.Io.Await.Kept.{Keeps-set_task_handle, Keeps-pending_suspend}
use co_net.Context.Workers.Picks.{CanPick, fresh, again, index-below}
use co_net.Context.Workers.{
  pick_worker, count, get_uring_fd, next_index, request_stop, get_worker_ids,
}
use co_net.Context.Spawn.{
  check_main, released, parallel_spawn_conn, parallel_spawn, send_one, send_each,
  mshot_accept_send_awaiting_fd_and_process, terminate,
}
use co_net.Context.Accept.{construct_multishot, suspend_multishot, accept_round}

-- The index that a pick leaves is one of the workers'.
picks_again :
    (s : SystemLoop)
    → CanPick s
    → CanPick
        (record s { current_worker_uring_idx = next_index s.current_worker_uring_idx (count s) })
unfolding count
picks_again s c = let (j, e, below) = index-below s c in again j (omega (arith, below)) e

still_picks :
    (s : SystemLoop) → CanPick s → CanPick (record s { stopped = true; stop_requested = true })
still_picks s (fresh h e) = fresh h e
still_picks s (again i h e) = again i h e

module _ {o n : ℕ} where
  -- The loop's own fields change, its rings stay and a stop is kept.
  loop-Later :
      (w : World) (l : SystemLoop)
      → (w.sys_loop.stopped ≡ true → l.stopped ≡ true)
      → (w.sys_loop.stop_requested ≡ true → l.stop_requested ≡ true)
      → (CanPick w.sys_loop → CanPick l)
      → l.uring_fds ≡ w.sys_loop.uring_fds
      → LaterBut o n w (record w { sys_loop = l })
  loop-Later w l h k c same = record {
    rings = λ r. RingLater-refl (w.ring r);
    next = omega arith;
    fresh = λ f. f;
    halted = h;
    requested = k;
    picks = c;
    workers = same;
    gone = λ _ _ e. e;
    frame = λ _ _ _. refl;
  }

  pub Keeps-pick_worker : Keeps o n pick_worker
  unfolding pick_worker
  Keeps-pick_worker = keeps λ w le.
      let s = w.sys_loop in
      let i = next_index s.current_worker_uring_idx (count s) in
      elim (Bool-cases (count s == 0)) [
        | inl none_ ↦ rw (none_, pick_worker) tt
        | inr some_ ↦ elim (Option-cases (get_uring_fd s i)) [
          | inl e ↦ rw (some_, e, pick_worker) tt
          | inr (fd, e) ↦
              rw (some_, e, pick_worker)
                (loop-Later w _ (λ h. h) (λ h. h) (picks_again w.sys_loop) refl)
        ]
      ]

  pub Keeps-released : (lib : Platform) (c : Option TcpConnection) → Keeps o n (released lib c)
  Keeps-released lib none = Keeps-stop _
  Keeps-released lib (some c) = Keeps-pure c

  pub Keeps-stop_loop :
      Keeps o n
        (λ w. ok tt (record w { sys_loop = request_stop (record (w.sys_loop) { stopped = true }) }))
  unfolding request_stop
  Keeps-stop_loop =
      keeps λ w le. loop-Later w _ (λ h. refl) (λ h. refl) (still_picks w.sys_loop) refl

  module _ (lib : Platform) where
    pub Keeps-check_main : (local : ℕ) → Keeps o n (check_main lib local)
    unfolding check_main
    Keeps-check_main local = Keeps-if _ _ _ (Keeps-pure tt) (Keeps-stop _)

    pub Keeps-parallel_spawn_conn :
        (local task : ℕ) (c : TcpConnection) → Keeps o n (parallel_spawn_conn lib local task c)
    unfolding parallel_spawn_conn
    Keeps-parallel_spawn_conn local task c = Keeps-then _ _ (Keeps-check_main local) (
        Keeps-bind _ _ (Keeps-released lib (release c)) λ conn.
          Keeps-bind _ _ Keeps-pick_worker λ worker. Keeps-bind _ _ (Keeps-alloc _) λ helper.
            Keeps-bind _ _ (Keeps-alloc _) λ sender. Keeps-bind _ _ (Keeps-alloc _) λ receiver.
              Keeps-then _ _ (Keeps-put_sqe lib lib.sys _) (
                Keeps-then _ _ (Keeps-put_sqe lib lib.sys _)
                  (Keeps-then _ _ (Keeps-submit_all lib lib.sys lib.sys) (Keeps-pure conn))))

    pub Keeps-parallel_spawn : (local : ℕ) (task : Coro) → Keeps o n (parallel_spawn lib local task)
    unfolding parallel_spawn
    Keeps-parallel_spawn local task = Keeps-then _ _ (Keeps-check_main local) (
        Keeps-bind _ _ (Keeps-alloc _) λ msg. Keeps-bind _ _ (Keeps-alloc _) λ t.
          Keeps-bind _ _ Keeps-pick_worker λ worker.
            Keeps-then _ _ (Keeps-put_sqe lib lib.sys _) (Keeps-submit_all lib lib.sys lib.sys))

    Keeps-send_one : (func : Func) (fd : ℤ) → Keeps o n (send_one lib func fd)
    unfolding send_one
    Keeps-send_one func fd = Keeps-bind _ _ Keeps-pick_worker λ worker.
        Keeps-bind _ _ (Keeps-alloc _) λ receiver. Keeps-bind _ _ (Keeps-alloc _) λ t.
          Keeps-then _ _ (Keeps-put_sqe lib lib.sys _)
            (Keeps-then _ _ (Keeps-put_sqe lib lib.sys _) (Keeps-put_sqe lib lib.sys _))

    Keeps-send_each : (func : Func) (fds : List ℤ) → Keeps o n (send_each lib func fds)
    unfolding send_each
    Keeps-send_each func [] = Keeps-pure tt
    Keeps-send_each func (fd ∷ fds) =
        Keeps-then _ _ (Keeps-send_one func fd) (Keeps-send_each (lib.moved_from func) fds)

    pub Keeps-accept_round :
        (func : Func) (caller : Coro) (chain : Option TaskRef)
        → Keeps o n (accept_round lib func caller chain)
    unfolding accept_round mshot_accept_send_awaiting_fd_and_process
    Keeps-accept_round func caller chain =
        Keeps-then _ _
          (Keeps-bind _ _ (Keeps-get_ring lib.sys) λ r.
            Keeps-then _ _ (Keeps-send_each func r.awaiting_direct_fd) (
              Keeps-get_put lib.sys (λ x. record x { awaiting_direct_fd = [] }) _
                (λ x. record {
                  tasks = ([], sym (append-nil _));
                  entries = ([], sym (append-nil _));
                  consumed = omega arith;
                  stopped = λ h. h;
                })
                λ _. Keeps-submit_all lib lib.sys lib.sys))
          (Keeps-pending_suspend caller chain)

    pub Keeps-construct_multishot :
        (socket : ℤ) → Touches o n lib.multishot_token → Keeps o n (construct_multishot lib socket)
    unfolding construct_multishot
    Keeps-construct_multishot socket mine = Keeps-then _ _ (Keeps-put_sqe lib lib.sys _) (
        Keeps-token lib.multishot_token _
          λ t c w le live. store-Later lib.multishot_token c _ w mine live)

    pub Keeps-suspend_multishot :
        (caller : Coro) (chain : Option TaskRef)
        → Touches o n lib.multishot_token
        → Keeps o n (suspend_multishot lib caller chain)
    unfolding suspend_multishot
    Keeps-suspend_multishot caller chain mine = Keeps-token lib.multishot_token _ λ t c w le live.
        After-and_then w (store lib.multishot_token (token (record t { chain_task = chain })) w) _
          le
          (store-Later lib.multishot_token c (token (record t { chain_task = chain })) w mine live)
          λ _ _ _. Keeps-set_task_handle caller chain

    pub Keeps-terminate :
        (cqes : List Cqe)
        → Keeps o n (process_all lib lib.sys cqes)
        → Keeps o n (terminate lib cqes)
    unfolding terminate request_stop
    Keeps-terminate cqes batch = keeps λ w le.
        let stopping = request_stop (record (w.sys_loop) { stopped = true }) in
        After-if (LaterBut o n w) w.sys_loop.stopped _ _ (Later-refl w) (
          After-and_then w (ok tt (record w { sys_loop = stopping })) _ le
            (loop-Later w stopping (λ h. refl) (λ h. refl) (still_picks w.sys_loop) refl)
            λ _ _ _. ends w)
      where
        ends :
            (w : World)
            → Keeps o n (
                notify_workers_to_stop lib lib.sys (get_worker_ids w.sys_loop)
                >> (notify_self_quit lib lib.sys
                    >> (submit_all lib lib.sys lib.sys >> process_all lib lib.sys cqes)))
        ends w = Keeps-then _ _ (Keeps-notify_workers_to_stop lib lib.sys _) (
            Keeps-then _ _ (Keeps-notify_self_quit lib lib.sys)
              (Keeps-then _ _ (Keeps-submit_all lib lib.sys lib.sys) batch))
