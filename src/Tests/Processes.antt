-- ===== src/Tests/Processes.antt =====
-- Messages of a multishot accept on a worker, and the end of a process.
use co_net.Base.{
  ℕ, ◌+◌, ◌≤◌, ◌≡◌, refl, true, [], ◌∷◌, ◌++◌, none, some, map, arith, lt→ltb, ◌==◌, if◌then◌else◌,
}
use co_net.Base.Int.{pos}
use co_net.Io.Token.{Op, token, new_token, macc_msg, multi_acc_task, to_int}
use co_net.Io.Sqe.{Cqe}
use co_net.Io.World.{World, Ends, update, ◌>>◌}
use co_net.Io.Ring.Steps.{posted}
use co_net.Io.Handler.{handle_request, handle_all, process_batch}
use co_net.Io.Handler.Stop.{cancel_entry}
use co_net.Io.Handler.Macc.{Started, serves, handle_request-Started}
use co_net.Io.Handler.Restart.{handle_all-restarted}
use co_net.Context.Spawn.{terminate}
use co_net.Context.Spawn.Terminate.{Terminated, terminate-Terminated, terminate-Quit}
use co_net.Tests.{lib, quiet_ring, world}

-- A message with a function for the accepted descriptors, and a worker's ring where two wait.
abbrev serving : World
serving = record world {
  heap = λ p.
      if p == 7
      then some (macc_msg Op.multishot_accept_task_receiver (some 21))
      else if p == 8
      then some (token (record new_token { op = Op.multishot_accept_fd_receiver }))
      else if p == 9
      then some (macc_msg Op.multishot_accept_task_receiver (some 22))
      else none;
  ring = λ r. if r == 4 then record quiet_ring { awaiting_direct_fd = pos 0 ∷ [] } else quiet_ring;
}

abbrev first_message : Cqe
first_message = record { res = to_int multi_acc_task; flags = 16; user_data = 7 }

abbrev descriptor : Cqe
descriptor = record { res = pos 1; flags = 0; user_data = 8 }

abbrev second_message : Cqe
second_message = record { res = to_int multi_acc_task; flags = 16; user_data = 9 }

handle_request-Started_example :
    Ends
      (λ _.
        Started lib 128
          (λ n h. lt→ltb n 128 h)
          4
          21
          (λ h. absurd (omega (arith, h)))
          (pos 0 ∷ [])
          (record serving { heap = update serving.heap 7 none }))
      (handle_request lib 4 first_message serving)
handle_request-Started_example =
    handle_request-Started lib 128 (λ n h. lt→ltb n 128 h) 4 21 (λ h. absurd (omega (arith, h)))
      first_message Op.multishot_accept_task_receiver serving refl refl refl (omega arith)

handle_all-restarted_example :
    Ends
      (λ _ w'.
        (w'.ring 4).tasks
        ≡ ((serving.ring 4).tasks ++ map (serves 21) (serving.ring 4).awaiting_direct_fd)
          ++ map (serves 22) ((serving.ring 4).awaiting_direct_fd ++ pos 1 ∷ []))
      (handle_all lib 4 (first_message ∷ descriptor ∷ second_message ∷ []) serving)
handle_all-restarted_example =
    handle_all-restarted lib 128 (λ n h. lt→ltb n 128 h) 4 (λ h. absurd (omega (arith, h))) 21 22 1
      first_message descriptor second_message Op.multishot_accept_task_receiver
      Op.multishot_accept_task_receiver serving (refl, refl)
      (refl, refl, λ h. absurd (omega (arith, h))) (refl, refl)
      (
        λ h. absurd (omega (arith, h)),
        λ h. absurd (omega (arith, h)),
        λ h. absurd (omega (arith, h)),
      )
      refl refl refl (omega arith)

-- The message to the main ring itself comes after those to the two workers.
abbrev pub own : Cqe
own = record { res = pos 0; flags = 0; user_data = 12 }

abbrev to_worker : Cqe
to_worker = record { res = pos 0; flags = 0; user_data = 10 }

main_room : (k : ℕ) → k ≤ 2 → lib.sqe_free (0 + k) ≡ true
main_room k h = lt→ltb (0 + k) 128 (omega (arith, h))

terminate-Terminated_example : Ends (λ _. Terminated lib world) (terminate lib (own ∷ []) world)
terminate-Terminated_example =
    terminate-Terminated lib own world refl refl (omega arith) main_room refl

terminate-Quit_example :
    Ends
      (λ _ w'.
        ((w'.ring 4).stopped ≡ true)
        × (w'.heap 10 ≡ none)
        × (posted (w'.ring 4) ≡ posted (world.ring 4) ++ cancel_entry ∷ []))
      ((terminate lib (own ∷ []) >> process_batch lib 4 (to_worker ∷ []) 0 0) world)
terminate-Quit_example =
    terminate-Quit lib own world refl refl (omega arith) main_room 0 4 refl
      (λ h. absurd (omega (arith, h))) to_worker [] 0 0 refl refl refl refl refl
