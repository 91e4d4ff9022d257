-- ===== src/Tests/Loops.antt =====
-- Runs of a process: calls of its threads, and its loops from start to end.
use co_net.Base.{◌<◌, ℕ, ◌≡◌, refl, true, false, [], ◌∷◌, ◌++◌, arith}
use co_net.Async.Scheduled.{schedule, settle}
use co_net.Io.Token.{plain}
use co_net.Io.World.{World, Run, ok, fault, alloc, load, free}
use co_net.Io.World.Later.{Later}
use co_net.Io.Handler.{
  handle_request, handle_all, process_batch, process_all, handle_token, switch,
  handle_until_stopped,
}
use co_net.Context.Spawn.{terminate, co_spawn}
use co_net.Io.Ring.{submit_all, enqueue, notify_workers_to_stop, notify_self_quit, put_sqe, consume}
use co_net.Context.Workers.{get_worker_ids, request_stop}
use co_net.Context.TaskLoop.{is_ready}
use co_net.Context.Loops.{settle_at}
use co_net.Context.Process.{perform, Reach, here, next, call, spawn, end_main}
use co_net.Context.Process.Steps.{Reach-Later}
use co_net.Context.Loops.{
  MainLoop, BlockOn, returns, stops, others, times_out, resumed, leaves, round, finished,
}
use co_net.Context.Loops.Exit.{MainLoop-stopped, BlockOn-MainLoop, WorkerLoop-requested}
use co_net.Context.Process.{spawn_task}
use co_net.Context.Process.Picking.{Reach-pick_worker}
use co_net.Context.Workers.{pick_worker, count, get_uring_fd, next_index}
use co_net.Context.Workers.RoundRobin.{picked}
use co_net.Context.Spawn.{parallel_spawn, check_main}
use co_net.Context.Startup.{ready_loop, register, begin, system_loop, opened}
use co_net.Tests.Startup.{machine, both_started, latch_opens}
use co_net.Tests.{lib, quiet_ring, two_workers, world}
use co_net.Tests.Processes.{own}

-- The world that a command leaves.
left_by : {A : Type 0} → Run A → World → World
left_by (ok a v) w = v
left_by (fault e) w = w

-- The main loop's task spawns another, the pass comes to it, and it ends; then the loop is stopped.
abbrev spawned : World
spawned = left_by (perform lib (spawn 3 (plain 8)) world) world

abbrev resumed_once : World
resumed_once = left_by (settle_at 3 0 false spawned) spawned

abbrev resumed_twice : World
resumed_twice = left_by (settle_at 3 1 true resumed_once) resumed_once

abbrev submitted : World
submitted = left_by (submit_all lib 3 3 resumed_twice) resumed_twice

abbrev ended : World
ended = left_by (perform lib (end_main (own ∷ [])) submitted) submitted

spawns : Reach lib world spawned
unfolding perform co_spawn enqueue left_by
spawns = next here (call (spawn 3 (plain 8)) refl)

ends : Reach lib submitted ended
unfolding left_by perform terminate notify_workers_to_stop get_worker_ids alloc put_sqe
    notify_self_quit submit_all process_all handle_all handle_request handle_token load free switch
    consume request_stop settle_at co_spawn enqueue
ends = next here (call (end_main (own ∷ [])) refl)

ended_stopped : ended.sys_loop.stopped ≡ true
unfolding left_by perform terminate notify_workers_to_stop get_worker_ids alloc put_sqe
    notify_self_quit submit_all process_all handle_all handle_request handle_token load free switch
    consume request_stop settle_at co_spawn enqueue
ended_stopped = refl

Reach-Later_example : Later submitted ended
Reach-Later_example = Reach-Later lib ends

MainLoop-stopped_example : (ended.sys_loop.stopped ≡ true) × Later world ended
unfolding left_by perform settle_at submit_all co_spawn enqueue settle is_ready schedule
MainLoop-stopped_example =
    MainLoop-stopped lib world ended (λ h. cc)
      (times_out resumed_twice resumed_twice submitted refl
        (resumed (schedule (plain 7)) false spawned resumed_once refl refl spawns refl (
          resumed (schedule (plain 8)) true resumed_once resumed_twice refl refl here refl
            (finished refl)))
        (λ h. cc) here refl (others ended ends (stops {w = ended} ended_stopped)))

-- A worker that has been asked to stop makes one more round.
abbrev asked : World
asked = record world { sys_loop = record two_workers { stop_requested = true } }

abbrev asked_resumed : World
asked_resumed = left_by (settle_at 4 0 true asked) asked

abbrev asked_submitted : World
asked_submitted = left_by (submit_all lib 4 4 asked_resumed) asked_resumed

abbrev asked_processed : World
asked_processed = left_by (process_batch lib 4 [] 0 0 asked_submitted) asked_submitted

abbrev rounds : ℕ
rounds = 1

WorkerLoop-requested_example :
    (asked_processed.sys_loop.stop_requested ≡ true)
    × Later asked asked_processed
    × (asked.sys_loop.stop_requested ≡ true → rounds ≡ 1)
unfolding left_by settle_at submit_all settle is_ready schedule process_batch consume
    handle_until_stopped
WorkerLoop-requested_example = WorkerLoop-requested lib 4 rounds asked asked_processed (
    leaves
      (round asked_resumed asked_submitted asked_submitted asked_processed [] 0 0
        (resumed (schedule (plain 7)) true asked asked_resumed refl refl here refl (finished refl))
        refl here refl here)
      refl)

-- A program of one task: the task is resumed once and ends, and then the loop is stopped.
abbrev idle : World
idle = record world { ring = λ _. record quiet_ring { tasks = [] } }

abbrev main_queued : World
main_queued = left_by (enqueue 3 (plain 9) idle) idle

abbrev main_resumed : World
main_resumed = left_by (settle_at 3 0 true main_queued) main_queued

abbrev main_submitted : World
main_submitted = left_by (submit_all lib 3 3 main_resumed) main_resumed

abbrev main_ended : World
main_ended = left_by (perform lib (end_main (own ∷ [])) main_submitted) main_submitted

main_ends : Reach lib main_submitted main_ended
unfolding left_by perform terminate notify_workers_to_stop get_worker_ids alloc put_sqe
    notify_self_quit submit_all process_all handle_all handle_request handle_token load free switch
    consume request_stop settle_at co_spawn enqueue
main_ends = next here (call (end_main (own ∷ [])) refl)

main_stopped : main_ended.sys_loop.stopped ≡ true
unfolding left_by perform terminate notify_workers_to_stop get_worker_ids alloc put_sqe
    notify_self_quit submit_all process_all handle_all handle_request handle_token load free switch
    consume request_stop settle_at co_spawn enqueue
main_stopped = refl

main_runs : MainLoop lib main_queued main_ended
unfolding left_by settle_at submit_all enqueue settle is_ready schedule
main_runs =
    times_out main_resumed main_resumed main_submitted refl
      (resumed (schedule (plain 9)) true main_queued main_resumed refl refl here refl
        (finished refl))
      (λ h. cc) here refl (others main_ended main_ends (stops {w = main_ended} main_stopped))

-- What is left to the destructor.
nothing_left : terminate lib [] main_ended ≡ ok tt main_ended
unfolding left_by perform terminate notify_workers_to_stop get_worker_ids alloc put_sqe
    notify_self_quit submit_all process_all handle_all handle_request handle_token load free switch
    consume request_stop settle_at co_spawn enqueue
nothing_left = refl

program : BlockOn lib (plain 9) idle main_ended
unfolding left_by enqueue
program = returns idle main_queued main_ended main_ended [] here refl main_runs here nothing_left

BlockOn-MainLoop_example :
    (main_ended.sys_loop.stopped ≡ true)
    × Later idle main_ended
    × ((t v u y : World) × Reach lib idle t
        × ((v.ring 3).tasks ≡ (t.ring 3).tasks ++ schedule (plain 9) ∷ [])
        × MainLoop lib v u
        × Reach lib u y
        × (main_ended ≡ y))
BlockOn-MainLoop_example = BlockOn-MainLoop lib (plain 9) idle main_ended program

-- The main loop that two threads have opened, and one task that it gives to a worker.
abbrev begun : World
begun = record world { sys_loop = ready_loop both_started.uring_fds }

abbrev given : World
given = left_by (perform lib (spawn_task 3 (plain 5)) begun) begun

gives : Reach lib begun given
unfolding left_by perform parallel_spawn check_main pick_worker count get_uring_fd next_index alloc
    put_sqe submit_all register begin
gives = next here (call (spawn_task 3 (plain 5)) refl)

begun_opened : system_loop machine both_started ≡ opened begun.sys_loop
unfolding system_loop register begin
begun_opened = refl

Reach-pick_worker_example :
    (fd : ℕ) × (j : ℕ) × (pick_worker given ≡ ok fd (picked given j))
    × ((i : ℕ) × (i < 2) × (fd ≡ machine.worker_fd i))
Reach-pick_worker_example =
    Reach-pick_worker lib machine 2 (omega arith) both_started begun given latch_opens begun_opened
      gives
