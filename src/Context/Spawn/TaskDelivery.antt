-- ===== src/Context/Spawn/TaskDelivery.antt =====
-- A task goes from the main ring to a worker.
use co_net.Base.{
  ℕ, suc, ◌<◌, get_elem?, ◌≡◌, ◌≢◌, refl, sym, ap, ◌∙◌, true, false, some, none, [], ◌∷◌, ◌++◌,
  arith, length, ==_self,
}
use co_net.Async.Scheduled.{schedule}
use co_net.Io.Token.{Op, Coro, new_token, token, task_msg, RingMsgType, to_int}
use co_net.Io.Sqe.{Sqe, Cqe, Prep, prep, user_data, f_task, has_task}
use co_net.Io.World.{World, Platform, Ends, ok, alloc, update, update_ne, ◌>>◌}
use co_net.Io.Ring.{submit_all, enqueue}
use co_net.Io.Ring.Steps.{
  load-ok, free-ok, put_sqe-ok, with_sqe, allocated, posted, posted-flush, flushed,
}
use co_net.Io.Handler.{handle_request, handle_ring_task, switch}
use co_net.Io.Handler.Dispatch.{handle_request-switch, handle_request-ring_task}
use co_net.Base.Int.{pos}
use co_net.Context.Workers.{next_index}
use co_net.Context.Workers.RoundRobin.{picked, pick_worker-ok}
use co_net.Context.Spawn.{check_main, parallel_spawn}

-- `w'` is `w` after the task `c` has gone from the main ring to `worker`.
pub record Spawned (lib : Platform) (c : Coro) (worker : ℕ) (w w' : World) : Type 0 where
  pub task_queued : (w'.ring worker).tasks ≡ (w.ring worker).tasks ++ schedule c ∷ []
  pub message_freed : w'.heap w.next ≡ none
  pub token_freed : w'.heap (suc w.next) ≡ none
  pub entry :
      posted (w'.ring lib.sys)
      ≡ posted (w.ring lib.sys)
        ++ (prep (Prep.msg_ring_cqe_flags worker (to_int RingMsgType.ring_task) w.next f_task)
            ∷ user_data (suc w.next)
            ∷ [])
          ∷ []
  pub other_cells : (p : ℕ) → p ≢ w.next → p ≢ suc w.next → w'.heap p ≡ w.heap p

module _ (lib : Platform) (this : ℕ) (cqe : Cqe) (c : Coro) (w : World) where
  abbrev queued : World
  queued = record w {
    ring =
        update w.ring this
          (record (w.ring this) { tasks = (w.ring this).tasks ++ schedule c ∷ [] });
  }

  abbrev pub started : World
  started = record queued { heap = update w.heap cqe.user_data none }

  pub handle_request-started :
      w.heap cqe.user_data ≡ some (task_msg c)
      → cqe.res ≡ to_int RingMsgType.ring_task
      → has_task cqe.flags ≡ true
      → handle_request lib this cqe w ≡ ok tt started
  unfolding handle_ring_task enqueue
  handle_request-started live res marked =
      handle_request-ring_task lib this cqe marked res w
      ∙ rw (load-ok w cqe.user_data live) (free-ok queued cqe.user_data live)

module _ (lib : Platform) (this : ℕ) (cqe : Cqe) (w : World) where
  abbrev pub acknowledged : World
  acknowledged = record w { heap = update w.heap cqe.user_data none }

  pub handle_request-acknowledged :
      w.heap cqe.user_data ≡ some (token (record new_token { op = Op.ring_task }))
      → cqe.user_data ≢ 0
      → has_task cqe.flags ≡ false
      → handle_request lib this cqe w ≡ ok tt acknowledged
  unfolding switch
  handle_request-acknowledged live not_null plain =
      handle_request-switch lib this cqe w (record new_token { op = Op.ring_task }) plain live
        not_null
      ∙ free-ok w cqe.user_data live

module _ (lib : Platform) (c : Coro) (w : World) (worker j : ℕ) where
  abbrev pub message : Sqe
  message =
      prep (Prep.msg_ring_cqe_flags worker (to_int RingMsgType.ring_task) w.next f_task)
      ∷ user_data (suc w.next)
      ∷ []

  abbrev stored : World
  stored = allocated (token (record new_token { op = Op.ring_task })) (allocated (task_msg c) w)

  abbrev ready : World
  ready = picked stored j

  abbrev sent : World
  sent = flushed lib lib.sys lib.sys (with_sqe lib lib.sys message ready)

  module _
      (next : next_index w.sys_loop.current_worker_uring_idx (length w.sys_loop.uring_fds) ≡ pos j)
      (found : get_elem? w.sys_loop.uring_fds j ≡ some worker)
      (any : 0 < length w.sys_loop.uring_fds)
      (room : lib.sqe_free (length (w.ring lib.sys).waiting) ≡ true) where
    parallel_spawn-ok : parallel_spawn lib lib.sys c w ≡ ok tt sent
    unfolding parallel_spawn check_main alloc submit_all
    parallel_spawn-ok = rw (==_self lib.sys) (
        rw (pick_worker-ok stored j worker next found any)
          (rw (put_sqe-ok lib lib.sys message ready room) (rw (==_self lib.sys) refl)))

    module _ (c₁ c₂ : Cqe) (first : c₁.user_data ≡ w.next)
        (res : c₁.res ≡ to_int RingMsgType.ring_task) (marked : has_task c₁.flags ≡ true)
        (second : c₂.user_data ≡ suc w.next) (plain : has_task c₂.flags ≡ false)
        (other : worker ≢ lib.sys) where
      task_live : sent.heap c₁.user_data ≡ some (task_msg c)
      task_live = rw first (ground arith)

      abbrev served : World
      served = started lib worker c₁ c sent

      token_live : served.heap c₂.user_data ≡ some (token (record new_token { op = Op.ring_task }))
      token_live = rw (first, second) (ground arith)

      main_same : served.ring lib.sys ≡ sent.ring lib.sys
      main_same = update_ne sent.ring worker lib.sys _ (λ h. other (sym h))

      main_posted : posted (sent.ring lib.sys) ≡ posted (w.ring lib.sys) ++ message ∷ []
      main_posted = rw (==_self lib.sys) (
          posted-flush
            (lib.accepted lib.sys lib.sys (length ((w.ring lib.sys).waiting ++ message ∷ [])))
            (w.ring lib.sys).submitted (w.ring lib.sys).waiting message)

      -- `parallel_spawn` of a task, where the next index is that of a worker other than the main
      -- ring, of at least one, and the main ring has room for an entry; then the completion of the
      -- message on the worker's ring, and the acknowledgement, not marked as a task, on the main
      -- ring. Nothing fails: the task is the last of the worker's loop, the message and the token
      -- are freed and no other memory has changed, and the main ring was handed the one entry that
      -- carries both.
      pub parallel_spawn-Spawned :
          Ends
            (λ _. Spawned lib c worker w)
            ((do
              parallel_spawn lib lib.sys c
              handle_request lib worker c₁
              handle_request lib lib.sys c₂)
              w)
      parallel_spawn-Spawned =
          rw
            (
              parallel_spawn-ok,
              handle_request-started lib worker c₁ c sent task_live res marked,
              handle_request-acknowledged lib lib.sys c₂ served token_live
                  (λ h. absurd (omega arith)) plain,
            )
            (record {
              task_queued = ground arith;
              message_freed = rw first (ground arith);
              token_freed = rw second (ground arith);
              entry = ap posted main_same ∙ main_posted;
              other_cells = rw (first, second) (ground arith);
            })
