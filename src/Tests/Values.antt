-- ===== src/Tests/Values.antt =====
-- Runs of the coroutines, the task loop, the buffer ring, the addresses and the sockets.
use co_net.Base.{
  ℕ, zero, suc, ◌+◌, ◌-◌, ◌*◌, ◌≤◌, ◌<◌, ◌^◌, ◌≡◌, ◌⊎◌, refl, true, false, List, [], ◌∷◌, ◌++◌,
  Option, none, some, arith, ◌==◌, if◌then◌else◌, length, leb, replicate, length-replicate, take,
  drop,
}
use co_net.Base.Int.{pos, signed}
use co_net.Timer.{from_s, from_ms, from_us, from_ns}
use co_net.Timer.Exact.{Lasts, literals-Lasts}
use co_net.Async.Task.{task, move, move_assign, take as take_handle, destroy, destroy-move_assign}
use co_net.Net.Address.{Inet, SocketAddr, make_addr_v4, sockaddr_in_size}
use co_net.Net.Address.RoundTrip.{IsAddress, make_addr_v4-IsAddress}
use co_net.Net.Connection.{connection}
use co_net.Io.Await.{returned, enobufs}
use co_net.Io.Buffer.{
  Kernel, RingBuffer, Arrival, extend_buffer, ring_buf_receive, received, failed, repay, unset,
  n_buffers, buffer_ring_size, buffer_id,
}
use co_net.Io.Buffer.Pool.Receives.{Received, ring_buf_receive-Offers}
use co_net.Io.Buffer.Slices.{
  IsSetUp, Extended, extend_buffer-IsSetUp, buffer_id-signed, ring_buf_receive-received,
}
use co_net.Io.Buffer.Growth.{ring_buf_receive-failed}
use co_net.Async.Scheduled.{ScheduledTask, schedule}
use co_net.Async.Frame.{
  Promise, Frames, value, undefined, rethrown, terminate, to, raw, put, await_suspend, await_resume,
  final_suspend, unhandled_exception, return_value,
}
use co_net.Async.Frame.Chain.{Chain, root, link, await_suspend-Chain}
use co_net.Async.Frame.Unwind.{return-await_resume, throw-await_resume}
use co_net.Context.TaskLoop.{Effect, run}
use co_net.Context.TaskLoop.Run.{Passed, run-Passed}

-- A program whose coroutines each spawn one more as long as the environment allows it.
abbrev spawning : ℕ → ℕ → ℕ × Effect ℕ
spawning zero h = (zero, record { awaiting_handle = h; pending = true; done = false; spawned = [] })
spawning (suc s) h =
    (s, record { awaiting_handle = h; pending = false; done = true; spawned = suc h ∷ [] })

spends : (s h : ℕ) → (spawning s h).0 + length (spawning s h).1.spawned ≤ s
spends zero h = omega arith
spends (suc s) h = omega arith

abbrev two_tasks : List (ScheduledTask ℕ)
two_tasks = schedule 1 ∷ record (schedule 2) { pending = true } ∷ []

run-Passed_example :
    (s : ℕ) × (ts : List (ScheduledTask ℕ)) × (run spawning 10 2 two_tasks ≡ some (s, ts))
    × Passed spawning two_tasks ts
run-Passed_example = run-Passed spawning (λ s. s) spends 10 2 two_tasks (omega arith)

abbrev frame : Option ℕ → Promise ℕ ℕ ℕ
frame caller = record { caller = caller; exp = none; this_chain_task = some 5; res = raw }

-- Frame 0 is the task's coroutine and awaits frame 1; frame 2 has not started.
abbrev frames : Frames ℕ ℕ ℕ
frames h =
    if h == 0
    then some (frame none)
    else if h == 1
    then some (frame (some 0))
    else if h == 2
    then some (record (frame none) { this_chain_task = none })
    else none

chain : Chain (some 5) frames (1 ∷ 0 ∷ [])
chain =
    link {h = 1} {p = frame (some 0)} refl refl refl (root {h = 0} {p = frame none} refl refl refl)

await_suspend-Chain_example :
    (gs : Frames ℕ ℕ ℕ) × (await_suspend 2 1 frames ≡ some (gs, to 2))
    × Chain (some 5) gs (2 ∷ 1 ∷ 0 ∷ [])
await_suspend-Chain_example =
    await_suspend-Chain {p = record (frame none) { this_chain_task = none }} 2 chain refl
      (omega arith, (omega arith, tt))

return-await_resume_example :
    (gs : Frames ℕ ℕ ℕ) × (await_resume 1 (put 1 (return_value 42 (frame (some 0))) frames)
      ≡ some (value 42, gs))
    × (await_resume 1 gs ≡ some (undefined, put 1 (frame (some 0)) gs))
return-await_resume_example = return-await_resume 1 frames (frame (some 0)) 42 refl

throw-await_resume_example :
    ((gs : Frames ℕ ℕ ℕ) × (await_resume 1 (put 1 (unhandled_exception 9 (frame none)) frames)
        ≡ some (rethrown 9, gs)))
    × ((frame none).caller ≡ none → final_suspend (unhandled_exception 9 (frame none)) ≡ terminate)
throw-await_resume_example = throw-await_resume 1 frames (frame none) 9

literals-Lasts_example :
    (1015 < 2 ^ 63 → Lasts (1015 * 10 ^ 9) (from_s 1015))
    × Lasts (1015 * 10 ^ 6) (from_ms 1015)
    × Lasts (1015 * 10 ^ 3) (from_us 1015)
    × Lasts 1015 (from_ns 1015)
literals-Lasts_example = literals-Lasts 1015 (omega arith)

destroy-move_assign_example :
    (destroy (move (task 3)).0 ++ destroy (move (task 3)).1 ≡ destroy (task 3))
    × (destroy (move_assign (task 4) (task 3)).0 ++ destroy (move_assign (task 4) (task 3)).1
        ≡ destroy (task 3))
    × (destroy (take_handle (task 3)).1 ≡ [])
destroy-move_assign_example = destroy-move_assign (task 3) (task 4)

-- A C library on a big-endian host, which knows the texts "1" and "::1".
abbrev inet : Inet
inet = record {
  ntohl = λ n. n;
  htons = λ n. n;
  ntohs = λ n. n;
  pton4 = λ t. if length t == 1 then (pos 1, 1) else (pos 0, 0);
  pton6 = λ t. if length t == 3 then (pos 1, 1) else (pos 0, 0);
  ntop4 = λ n. some (49 ∷ []);
  ntop6 = λ n. some (58 ∷ 58 ∷ 49 ∷ []);
  decimal = λ n. 56 ∷ 48 ∷ [];
  getpeername4 = λ fd. (0, 0);
  getpeername6 = λ fd. (0, 0);
  junk = 77;
}

make_addr_v4-IsAddress_example :
    (a : SocketAddr) × (make_addr_v4 inet (49 ∷ []) 80 ≡ returned a)
    × IsAddress inet true sockaddr_in_size 80 (49 ∷ []) a
make_addr_v4-IsAddress_example =
    make_addr_v4-IsAddress inet (λ p h. refl) (49 ∷ []) (49 ∷ []) 80 1 (omega arith) refl refl

abbrev kernel : Kernel
kernel = record { sets_up = λ n. leb n 32768; mask = λ n. pos (n - 1) }

extend_buffer-IsSetUp_example :
    ((b' : RingBuffer) × (extend_buffer kernel unset ≡ some b') × Extended unset b')
    ⊎ ((extend_buffer kernel unset ≡ none)
        × (kernel.sets_up (n_buffers * (unset.buf_count + 1)) ≡ false))
extend_buffer-IsSetUp_example = extend_buffer-IsSetUp kernel unset

buffer_id-signed_example : buffer_id (signed 32 (16384 * 2 ^ 16 + 3)) ≡ pos 16384
buffer_id-signed_example = buffer_id-signed 16384 3 (omega arith) (omega arith)

zeros : (n : ℕ) → (xs : List ℕ) × (length xs ≡ n)
zeros n = (replicate n 0, length-replicate n 0)

-- One round of buffers, and a completion that brings three bytes in buffer 2.
abbrev one_round : RingBuffer
one_round = record {
  buf_count = 1;
  br = true;
  br_mask = pos 16383;
  buffer = (zeros (n_buffers * 1 * buffer_ring_size)).0;
  calls = [];
}

abbrev three_bytes : Arrival
three_bytes = record { res = pos 3; flags = signed 32 (2 * 2 ^ 16 + 1); memory = λ m. m }

abbrev two_rounds : RingBuffer
two_rounds = record one_round { buf_count = 2 }

abbrev short : Arrival
short = record { res = enobufs; flags = pos 0; memory = λ m. m }

ring_buf_receive-failed_example :
    ring_buf_receive kernel (short ∷ []) (connection (pos 6)) two_rounds ≡ failed
ring_buf_receive-failed_example =
    ring_buf_receive-failed kernel (λ n h. ground (arith, h)) short [] (connection (pos 6))
      two_rounds refl (omega arith)

one_round-IsSetUp : IsSetUp one_round
one_round-IsSetUp = record { linked = refl; size = (zeros (n_buffers * 1 * buffer_ring_size)).1 }

ring_buf_receive-received_example :
    ring_buf_receive kernel (three_bytes ∷ []) (connection (pos 6)) one_round
    ≡ received
        (pos 3)
        (record (connection (pos 6)) {
          receive_buffer =
              take 3 (drop (2 * buffer_ring_size) (three_bytes.memory one_round.buffer));
        })
        (repay 2 one_round)
ring_buf_receive-received_example =
    ring_buf_receive-received kernel (connection (pos 6)) three_bytes [] 2 1 3 refl refl
      (omega arith) (omega arith) (omega arith) one_round one_round-IsSetUp (omega arith)

ring_buf_receive-Offers_example :
    Received (three_bytes ∷ []) one_round (repay 2 one_round) [] (pos 3)
ring_buf_receive-Offers_example =
    ring_buf_receive-Offers kernel (three_bytes ∷ []) (connection (pos 6))
      (record (connection (pos 6)) {
        receive_buffer = take 3 (drop (2 * buffer_ring_size) (three_bytes.memory one_round.buffer));
      })
      one_round (repay 2 one_round) [] (pos 3) refl ring_buf_receive-received_example
