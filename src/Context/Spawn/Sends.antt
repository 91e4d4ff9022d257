-- ===== src/Context/Spawn/Sends.antt =====
-- What the spawns ask for.
use co_net.Base.{
  ℕ, ◌<◌, ◌≡◌, refl, Option, none, some, [], arith, subst, ◌==◌, Bool-cases, Option-cases, inl, inr,
}
use co_net.Base.Int.{ℤ}
use co_net.Net.Connection.{TcpConnection, release}
use co_net.Io.Token.{CompletionToken, Op, Coro, new_token, token, task_msg, conn_msg}
use co_net.Io.World.{World, SystemLoop, Platform, M, and_then, ◌>>=◌, ◌>>◌, alloc, pure, ok}
use co_net.Io.Ring.{put_sqe, submit_all}
use co_net.Io.Ring.Kept.{Keeps-submit_all}
use co_net.Io.World.Later.{LaterBut}
use co_net.Io.Ring.Steps.{allocated}
use co_net.Io.World.Keeps.{After, at, Keeps-pure, Keeps-then}
use co_net.Io.Handler.Matching.{by_task}
use co_net.Context.Workers.{pick_worker, count, get_uring_fd, next_index}
use co_net.Context.Spawn.{
  check_main, released, parallel_spawn_conn, parallel_spawn, linked_fd_entry, func_entry,
}
use co_net.Context.Spawn.Kept.{Keeps-pick_worker, Keeps-released, Keeps-check_main}
use co_net.Io.Tickets.{tickets, sent, recurs}
use co_net.Io.Tickets.Posts.{Posts, Silent-Issued, Posting, posting, Posting-bind, Posting-then}
use co_net.Io.Tickets.Quiet.{
  Quiet, quiet, Quiet-submit_all, Posting-Quiet, Quiet-pure, Quiet-stop, Quiet-if, Quiet-then,
}
use co_net.Io.Tickets.Drafts.{
  Drafted, Drafted-step, After-put_sqe, Drafted-refl, Drafted-alloc, Drafted-then, message-Sound,
  task-Sound, conn-Sound,
}

Quiet-pick_worker : Quiet pick_worker
unfolding pick_worker
Quiet-pick_worker = quiet λ w.
    let s = w.sys_loop in
    let i = next_index s.current_worker_uring_idx (count s) in
    elim (Bool-cases (count s == 0)) [
      | inl none_ ↦ rw (none_, pick_worker) tt
      | inr some_ ↦ elim (Option-cases (get_uring_fd s i)) [
        | inl e ↦ rw (some_, e, pick_worker) tt
        | inr (fd, e) ↦ rw (some_, e, pick_worker) λ q. refl
      ]
    ]

Quiet-released : (lib : Platform) (c : Option TcpConnection) → Quiet (released lib c)
Quiet-released lib none = Quiet-stop _
Quiet-released lib (some c) = Quiet-pure c

Quiet-check_main : (lib : Platform) (local : ℕ) → Quiet (check_main lib local)
unfolding check_main
Quiet-check_main lib local = Quiet-if _ _ _ (Quiet-pure tt) (Quiet-stop _)

abbrev sender_token : CompletionToken
sender_token = record new_token { op = Op.ring_fd_sender }

abbrev spawn_token : CompletionToken
spawn_token = record new_token { op = Op.ring_task }

abbrev receiver_token : ℤ → CompletionToken
receiver_token fd = record new_token { op = Op.ring_fd_receiver; cqe_res = fd }

pub Posting-pick_worker : {o r : ℕ} → Posting o r pick_worker
Posting-pick_worker = Posting-Quiet _ (λ n. Keeps-pick_worker) Quiet-pick_worker

-- The pick of a worker, between the memory and the entry.
After-pick_worker :
    {o r : ℕ} {B : Type 0} (w v : World) (k : ℕ → M B)
    → o < w.next
    → Drafted o r [] w v
    → ((fd : ℕ) (s : SystemLoop)
        → Drafted o r [] w (record v { sys_loop = s })
        → After (Posts o r w) (k fd (record v { sys_loop = s })))
    → After (Posts o r w) (and_then (pick_worker v) k)
unfolding pick_worker
After-pick_worker {o} {r} w v k old d next =
    let s = v.sys_loop in
    let i = next_index s.current_worker_uring_idx (count s) in
    elim (Bool-cases (count s == 0)) [
      | inl none_ ↦ rw (none_, pick_worker) tt
      | inr some_ ↦ elim (Option-cases (get_uring_fd s i)) [
        | inl e ↦ rw (some_, e, pick_worker) tt
        | inr (fd, e) ↦
            let u = record v { sys_loop = record s { current_worker_uring_idx = i } } in
            let picked : pick_worker v ≡ ok fd u = rw (some_, e, pick_worker) refl in
            rw picked (
              next fd u.sys_loop (
                Drafted-step w v u old d
                  (subst (After (LaterBut o v.next v)) picked
                    (at Keeps-pick_worker v (omega arith)))
                  (Silent-Issued r v u λ q. refl) tt))
      ]
    ]

module _ (lib : Platform) {o : ℕ} where
  Posting-check_main : {r : ℕ} (local : ℕ) → Posting o r (check_main lib local)
  Posting-check_main local =
      Posting-Quiet _ (λ n. Keeps-check_main lib local) (Quiet-check_main lib local)

  -- The memory and the two entries of a connection that is sent.
  send_conn :
      (worker task : ℕ) (c : TcpConnection)
      → Posting o lib.sys (
          alloc (conn_msg (some task) c.socket) >>= λ helper.
          alloc (token sender_token) >>= λ sender.
          alloc (token (receiver_token c.socket)) >>= λ receiver.
          put_sqe lib lib.sys (linked_fd_entry worker c.socket receiver sender)
          >> (put_sqe lib lib.sys (func_entry worker helper)
              >> (submit_all lib lib.sys lib.sys >> pure c)))
  unfolding alloc tickets sent recurs by_task
  send_conn worker task c = posting λ w old.
      let first = allocated (conn_msg (some task) c.socket) w in
      let second = allocated (token sender_token) first in
      let third = allocated (token (receiver_token c.socket)) second in
      After-put_sqe lib _ w third _ old
        (
          message-Sound w.next third _ (omega arith) (omega arith) (receiver_token c.socket)
              (omega (arith, old)) refl (ground arith) refl,
          (
            message-Sound w.next third _ (omega arith) (omega arith) sender_token
                (omega (arith, old)) refl (ground arith) refl,
            tt,
          ),
        )
        (Drafted-alloc _ w second old
          (Drafted-alloc _ w first old (Drafted-alloc _ w w old (Drafted-refl w))))
        λ d.
          After-put_sqe lib _ w _ _ old
            (
              conn-Sound w.next _ _ (omega arith) (omega arith) (some task) c.socket refl refl
                  (ground arith),
              tt,
            )
            d
            λ e.
              Drafted-then w _ _ old e
                (
                  (λ k. absurd (omega (arith, k)), (λ k. absurd (omega (arith, k)), tt)),
                  ((λ k. absurd (omega (arith, k)), tt), (tt, tt)),
                )
                (λ n. Keeps-then _ _ (Keeps-submit_all lib lib.sys lib.sys) (Keeps-pure c))
                (Quiet-then _ _ (Quiet-submit_all lib lib.sys lib.sys) (Quiet-pure c))

  pub Posting-parallel_spawn_conn :
      (local task : ℕ) (c : TcpConnection)
      → Posting o lib.sys (parallel_spawn_conn lib local task c)
  unfolding parallel_spawn_conn
  Posting-parallel_spawn_conn local task c = Posting-then _ _ (Posting-check_main local) (
      Posting-bind _ _
        (Posting-Quiet _ (λ n. Keeps-released lib (release c)) (Quiet-released lib (release c)))
        λ conn. Posting-bind _ _ Posting-pick_worker λ worker. send_conn worker task conn)

  pub Posting-parallel_spawn :
      (local : ℕ) (c : Coro) → Posting o lib.sys (parallel_spawn lib local c)
  unfolding parallel_spawn alloc tickets sent recurs by_task
  Posting-parallel_spawn local c = Posting-then _ _ (Posting-check_main local) (
      posting λ w old.
        let first = allocated (task_msg c) w in
        let second = allocated (token spawn_token) first in
        After-pick_worker w second _ old
          (Drafted-alloc _ w first old (Drafted-alloc _ w w old (Drafted-refl w)))
          λ worker s d.
            After-put_sqe lib _ w (record second { sys_loop = s }) _ old
              (
                task-Sound w.next _ _ (omega arith) (omega arith) c refl refl (ground arith),
                (
                  message-Sound w.next _ _ (omega arith) (omega arith) spawn_token
                      (omega (arith, old)) refl (ground arith) refl,
                  tt,
                ),
              )
              d
              λ e.
                Drafted-then w _ _ old e ((λ k. absurd (omega (arith, k)), tt), (tt, tt))
                  (λ n. Keeps-submit_all lib lib.sys lib.sys)
                  (Quiet-submit_all lib lib.sys lib.sys))
