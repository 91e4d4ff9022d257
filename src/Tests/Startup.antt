-- ===== src/Tests/Startup.antt =====
-- The threads of a process with two workers start.
use co_net.Base.{ℕ, suc, ◌+◌, ◌<◌, ◌≡◌, ◌≢◌, ◌⊎◌, refl, true, false, none, arith}
use co_net.Base.Int.{pos, is_neg}
use co_net.Io.World.{SystemLoop}
use co_net.Io.Buffer.{extend_buffer, unset}
use co_net.Context.Startup.{
  Machine, Startup, Step, thread, waiting, failed, opened, begin, register, system_loop,
  thread_buffers,
}
use co_net.Context.Startup.Latch.{Reach, here, next}
use co_net.Context.Startup.Ready.{IsReady, starts, system_loop-IsReady, Step-latch}

abbrev pub machine : Machine
machine = record {
  concurrency = 2;
  main_fd = 3;
  worker_fd = λ i. 4 + i;
  init_ret = λ _. pos 0;
  buffers = λ _. record { sets_up = λ _. true; mask = λ n. pos 1023 };
  files_ret = λ _. pos 0;
  main_files_ret = pos 0;
}

-- The second thread comes first.
abbrev pub one_started : Startup
one_started = register machine 1 (begin 2)

abbrev pub both_started : Startup
both_started = register machine 0 one_started

buffers_set_up : (i : ℕ) → thread_buffers machine i ≢ none
unfolding thread_buffers extend_buffer unset
buffers_set_up i h = cc

pub latch_opens : Reach machine 2 (begin 2) both_started
unfolding begin register
latch_opens =
    next
      (next here (
        thread 1 (omega arith)
          (starts machine 2 (omega arith) (λ i h. refl) (λ i h. buffers_set_up i) (λ i h. refl) 1
            (begin 2) (omega arith))
          refl))
      (thread 0 (omega arith)
        (starts machine 2 (omega arith) (λ i h. refl) (λ i h. buffers_set_up i) (λ i h. refl) 0
          one_started (omega arith))
        refl)

system_loop-IsReady_example :
    ((system_loop machine both_started ≡ waiting)
      × ((i : ℕ) × (i < 2) × (both_started.registered i ≡ false)))
    ⊎ (((system_loop machine both_started ≡ failed) × (is_neg machine.main_files_ret ≡ true))
        ⊎ ((l : SystemLoop) × (system_loop machine both_started ≡ opened l) × IsReady machine 2 l))
system_loop-IsReady_example = system_loop-IsReady machine 2 (omega arith) both_started latch_opens

Step-latch_example :
    ((t : Startup) → Step machine 2 (begin 2) t → suc t.latch ≡ (begin 2).latch)
    × ((begin 2).latch ≢ 0 → (t : Startup) × Step machine 2 (begin 2) t)
Step-latch_example =
    Step-latch machine 2 (omega arith) (λ i h. refl) (λ i h. buffers_set_up i) (λ i h. refl)
      (begin 2) here
