-- ===== src/Tests/Flight.antt =====
-- A task that is sent to a worker, and the worker's completion.
use co_net.Base.{◌≡◌, ◌≢◌, refl, true, false, [], ◌∷◌, arith, ==_ne, none, some}
use co_net.Io.Token.{plain, task_msg, ring_task, to_int}
use co_net.Io.Sqe.{Cqe}
use co_net.Io.World.{World, Run, ok, fault, alloc, load, free}
use co_net.Io.World.Keeps.{After}
use co_net.Io.Ring.{submit_all, enqueue, put_sqe}
use co_net.Io.Handler.{handle_request, handle_ring_task, process_all, process_batch}
use co_net.Io.Tickets.{Answers, Ticket, Each, own, tickets, tickets_of, sent, recurs}
use co_net.Io.Tickets.Posts.{Posts}
use co_net.Context.Workers.{pick_worker, count, get_uring_fd, next_index}
use co_net.Context.Spawn.{parallel_spawn, check_main}
use co_net.Context.Process.{perform, spawn_task}
use co_net.Context.Flight.{System, Handling, Step, sends, handles, Reaches, here, next}
use co_net.Context.Flight.Safe.{IsFlying, IsSafe, Reaches-IsFlying, Reaches-IsSafe}
use co_net.Context.Flight.Sending.{perform-Posts}
use co_net.Context.Flight.Batch.{Takes, message, done, Safely}
use co_net.Context.Flight.Batch.Loops.{batches-Safely}
use co_net.Context.Flight.Once.{handled-once, freed-once}
use co_net.Io.Handler.Freed.{awaited}
use co_net.Tests.{lib, world}

-- The world that a command leaves.
left_by : {A : Type 0} → Run A → World → World
left_by (ok a v) w = v
left_by (fault e) w = w

abbrev start : System
start = record { world = world; flight = []; armed = false }

start-IsFlying : IsFlying lib start
start-IsFlying = record {
  fresh = λ p h. refl;
  not_null = λ e. absurd (omega (arith, e));
  static = omega arith;
  apart = tt;
  due = tt;
  ready = λ e. absurd (differ e);
}
  where
    differ : false ≢ true
    differ e = cc

-- The task's message on the worker's ring, and the sender's own completion.
abbrev sent_task : Ticket
sent_task = record { ring = 4; address = 10; res = some (to_int ring_task); marked = true }

abbrev spawned : System
spawned = record {
  world = left_by (perform lib (spawn_task 3 (plain 8)) world) world;
  flight = sent_task ∷ own 3 11 ∷ [];
  armed = false;
}

abbrev arrives : Cqe
arrives = record { res = to_int ring_task; flags = 16; user_data = 10 }

abbrev handled : System
handled = record {
  world = left_by (handle_request lib 4 arrives spawned.world) spawned.world;
  flight = own 3 11 ∷ [];
  armed = false;
}

spawns : Step lib start spawned
unfolding left_by perform parallel_spawn check_main pick_worker count get_uring_fd next_index alloc
    put_sqe submit_all tickets tickets_of sent recurs
spawns =
    sends (spawn_task 3 (plain 8)) tt refl 3 (sent_task ∷ own 3 11 ∷ [])
      (record { here = refl; there = λ q ne. rw (==_ne q 3 ne) refl }) refl refl

arrives-Answers : Answers arrives sent_task
arrives-Answers = record { at = refl; mark = refl; result = λ x e. cc }

arrives_at : Handling lib sent_task spawned handled
unfolding left_by perform parallel_spawn check_main pick_worker count get_uring_fd next_index alloc
    put_sqe submit_all tickets tickets_of sent recurs handle_request handle_ring_task enqueue load
    free
arrives_at = record {
  before = [];
  after = own 3 11 ∷ [];
  among = refl;
  cqe = arrives;
  answers = arrives-Answers;
  runs = refl;
  on = 4;
  new = [];
  adds = record { here = refl; there = λ q ne. rw (==_ne q 4 ne) refl };
  left = refl;
  same = refl;
}

runs : Reaches lib start handled
runs = next (next here spawns) (handles sent_task arrives_at)

Reaches-IsSafe_example : IsSafe lib handled
Reaches-IsSafe_example = Reaches-IsSafe lib start-IsFlying runs

Reaches-IsFlying_example : IsFlying lib handled
Reaches-IsFlying_example = Reaches-IsFlying lib start-IsFlying runs

message_live : spawned.world.heap 10 ≡ some (task_msg (plain 8))
unfolding left_by perform parallel_spawn check_main pick_worker count get_uring_fd next_index alloc
    put_sqe submit_all
message_live = refl

message-awaited : awaited (task_msg (plain 8)) ≡ false
unfolding awaited
message-awaited = refl

handled-once_example : Each (λ x. x.address ≢ 10) handled.flight
handled-once_example =
    handled-once lib spawned handled handled sent_task
      (Reaches-IsFlying lib start-IsFlying (next here spawns)) arrives_at here

freed-once_example : handled.world.heap 10 ≡ none
freed-once_example =
    freed-once lib spawned handled handled sent_task
      (Reaches-IsFlying lib start-IsFlying (next here spawns)) arrives_at message_live
      message-awaited here

perform-Posts_example : After (Posts 1 3 world) (perform lib (spawn_task 3 (plain 8)) world)
perform-Posts_example = perform-Posts lib (spawn_task 3 (plain 8)) world tt (omega arith)

takes : Takes lib false 4 spawned.flight (arrives ∷ [])
takes = message [] sent_task (own 3 11 ∷ []) refl refl arrives-Answers done

batches-Safely_example :
    Safely lib false 4 (process_all lib 4 (arrives ∷ []) spawned.world)
    × Safely lib false 4 (process_batch lib 4 (arrives ∷ []) 0 0 spawned.world)
batches-Safely_example =
    batches-Safely lib false 4 spawned (arrives ∷ []) 0 0
      (Reaches-IsFlying lib start-IsFlying (next here spawns)) refl takes
