-- ===== src/Tests/Rings.antt =====
-- Runs of the rings, of the loops and of what they send one another.
use co_net.Base.{
  ℕ, ◌+◌, ◌≤◌, ◌≡◌, refl, true, false, List, [], ◌∷◌, none, some, arith, lt→ltb, length, ◌==◌,
  if◌then◌else◌, get_elem?, replicate, inl,
}
use co_net.Base.Int.{ℤ, pos}
use co_net.Async.Scheduled.{schedule}
use co_net.Net.Connection.{connection}
use co_net.Io.Token.{
  RingMsgType, Op, plain, token, new_token, conn_msg, to_int, ring_func_task, TaskRef,
  CompletionToken,
}
use co_net.Io.Sqe.{Cqe}
use co_net.Io.World.{World, Ends, ◌>>=◌, ◌>>◌, pure, ok, fault, Fault}
use co_net.Io.Handler.Stop.{Quit, process_batch-Quit}
use co_net.Io.Handler.{process_batch, find, handle_all, handle_request}
use co_net.Io.Handler.Handoff.{Taken, handle_all-Taken}
use co_net.Io.Await.{suspend, await_resume, direct_accept_awaiter}
use co_net.Io.Await.RoundTrip.{await_round_trip, completes}
use co_net.Io.Await.Suspend.{Parked}
use co_net.Io.Await.Operations
use co_net.Context.Workers.{next_index, pick_worker}
use co_net.Context.Workers.RoundRobin.{pick_times, picked, pick_times-uring_fds}
use co_net.Context.Accept.{prep_multishot_accept_direct}
use co_net.Context.Accept.Armed.{Accepted, accept_cqe, prep_multishot_accept_direct-Accepted}
use co_net.Context.Spawn.{
  parallel_spawn, parallel_spawn_conn, mshot_accept_send_awaiting_fd_and_process,
}
use co_net.Context.Workers.Picks.{CanPick}
use co_net.Context.Spawn.Multishot.Loop.{HasSent, mshot_accept-null, mshot_accept-HasSent}
use co_net.Context.Spawn.TaskDelivery.{Spawned, parallel_spawn-Spawned}
use co_net.Context.Spawn.Delivery.{Delivered, parallel_spawn_conn-Delivered}
use co_net.Tests.{lib, two_workers, world, accepted_world}

picks : pick_worker world ≡ ok 4 (picked world 0)
unfolding pick_worker
picks = refl

can_pick : CanPick two_workers
can_pick = CanPick.fresh (omega arith) refl

room : (n : ℕ) → n ≤ 1 → lib.sqe_free (length (world.ring lib.sys).waiting + n) ≡ true
room n h = lt→ltb (0 + n) 128 (omega arith)

abbrev fd_completion : Cqe
fd_completion = record { res = pos 8; flags = 0; user_data = 12 }

abbrev func_completion : Cqe
func_completion = record { res = to_int ring_func_task; flags = 16; user_data = 10 }

parallel_spawn_conn-Delivered_example :
    Ends (Delivered lib 21 (connection (pos 6)) 4 (pos 8) world) (
      (do
        given ← parallel_spawn_conn lib lib.sys 21 (connection (pos 6))
        handle_all lib 4 (fd_completion ∷ func_completion ∷ [])
        pure given)
        world)
unfolding connection find
parallel_spawn_conn-Delivered_example =
    parallel_spawn_conn-Delivered lib 21 (connection (pos 6)) world 4 0 picks refl room (pos 8)
      fd_completion func_completion refl refl refl refl refl refl (omega arith) refl refl

-- A worker's ring with the two messages on their way.
abbrev receiving : World
receiving = record world {
  next = 13;
  heap = λ p.
      if p == 12
      then some (token (record new_token { op = Op.ring_fd_receiver; cqe_res = pos 6 }))
      else if p == 10
      then some (conn_msg (some 21) (pos 6))
      else none;
}

handle_all-Taken_example :
    Ends
      (λ _. Taken lib 4 21 (pos 6) (pos 8) fd_completion func_completion receiving)
      (handle_all lib 4 (fd_completion ∷ func_completion ∷ []) receiving)
unfolding find
handle_all-Taken_example =
    handle_all-Taken lib 4 21 (pos 6) (pos 8) fd_completion func_completion receiving
      (record { not_null = omega arith; receiver = refl; res = refl; unmarked = refl })
      (record { helper = refl; res = refl; marked = refl }) (omega arith) (omega arith)
      (omega arith) refl refl

abbrev first_task : TaskRef
first_task = record { ring = 4; index = 0 }

-- The entry goes to the main ring, 3, and the task stands in the loop of a worker.
await_round_trip_example :
    Ends
      (Parked lib 4 (direct_accept_awaiter (pos 9)) (plain 8) first_task (schedule (plain 7)) world)
      (suspend lib 4 (direct_accept_awaiter (pos 9)) (plain 8) (some first_task) world)
    × Ends
        (λ r w'.
          (r ≡ (pos 6, pos 0))
          × (get_elem? (w'.ring 4).tasks 0
              ≡ some (record (schedule (plain 7)) { awaiting_handle = plain 8; pending = false })))
        ((do
          p ← suspend lib 4 (direct_accept_awaiter (pos 9)) (plain 8) (some first_task)
          completes lib 3 0 (pos 6) 0
          await_resume p)
          world)
unfolding direct_accept_awaiter
await_round_trip_example =
    await_round_trip lib 4 (direct_accept_awaiter (pos 9)) (plain 8) first_task world
      (Operations.direct_accept (pos 9)) refl refl (pos 6) 0 (omega arith) refl

abbrev accepting : CompletionToken
accepting = record new_token { op = Op.accept; chain_task = some first_task }

abbrev three_fds : List ℤ
three_fds = pos 0 ∷ pos 1 ∷ pos 2 ∷ []

mshot_accept-HasSent_example :
    Ends
      (λ _ w'.
        HasSent three_fds ((accepted_world three_fds).ring 3) (w'.ring 3)
        × ((w'.ring 3).awaiting_direct_fd ≡ []))
      (mshot_accept_send_awaiting_fd_and_process lib 3 (some 21) (accepted_world three_fds))
mshot_accept-HasSent_example =
    mshot_accept-HasSent lib 128 (λ n h. lt→ltb n 128 h) (some 21) (accepted_world three_fds)
      can_pick (omega arith)

abbrev many_fds : List ℤ
many_fds = replicate 43 (pos 0)

mshot_accept-null_example :
    mshot_accept_send_awaiting_fd_and_process lib 3 (some 21) (accepted_world many_fds)
    ≡ fault Fault.null_sqe
mshot_accept-null_example =
    mshot_accept-null lib 128 (λ n h. lt→ltb n 128 h) (λ n h. ground (arith, h)) (some 21)
      (accepted_world many_fds) can_pick (omega arith) (omega arith)

pick_times-uring_fds_example :
    Ends (λ fds w'. (fds ≡ 4 ∷ 5 ∷ []) × (w' ≡ picked world 1)) (pick_times 2 world)
pick_times-uring_fds_example = pick_times-uring_fds world (omega arith) (inl refl)

-- The static token lies at its address, and the main loop's task accepts.
abbrev listening : World
listening = record world { heap = λ p. if p == 1 then some (token new_token) else none }

abbrev main_task : TaskRef
main_task = record { ring = 3; index = 0 }

prep_multishot_accept_direct-Accepted_example :
    Ends
      (λ _. Accepted lib (pos 9) 6 (plain 8) main_task (schedule (plain 7)) new_token listening)
      ((do
        prep_multishot_accept_direct lib (pos 9) (plain 8) (some main_task)
        handle_request lib lib.sys (accept_cqe lib 6 2))
        listening)
prep_multishot_accept_direct-Accepted_example =
    prep_multishot_accept_direct-Accepted lib (pos 9) (plain 8) main_task new_token listening refl
      refl refl 6 2 refl (omega arith)

abbrev task_completion : Cqe
task_completion = record { res = to_int RingMsgType.ring_task; flags = 16; user_data = 10 }

abbrev acknowledgement : Cqe
acknowledgement = record { res = pos 0; flags = 0; user_data = 11 }

parallel_spawn-Spawned_example :
    Ends
      (λ _. Spawned lib (plain 5) 4 world)
      ((do
        parallel_spawn lib lib.sys (plain 5)
        handle_request lib 4 task_completion
        handle_request lib lib.sys acknowledgement)
        world)
unfolding next_index
parallel_spawn-Spawned_example =
    parallel_spawn-Spawned lib (plain 5) world 4 0 refl refl (omega arith) refl task_completion
      acknowledgement refl refl refl refl refl (omega arith)

abbrev stopping : World
stopping = record world {
  heap = λ p. if p == 9 then some (token (record new_token { op = Op.quit })) else none;
}

abbrev quit_completion : Cqe
quit_completion = record { res = pos 0; flags = 0; user_data = 9 }

process_batch-Quit_example :
    Ends
      (λ _. Quit 4 quit_completion 5 stopping)
      (process_batch lib 4 (quit_completion ∷ fd_completion ∷ []) 2 1 stopping)
process_batch-Quit_example =
    process_batch-Quit lib 4 quit_completion stopping refl (omega arith) refl refl
      (fd_completion ∷ []) 2 1 refl
