-- ===== src/Io/Handler/Stop.antt =====
-- `process_batch` on a ring that is told to quit.
use co_net.Base.{
  ℕ, ◌+◌, ◌≡◌, ◌≢◌, refl, ◌∙◌, true, false, some, none, List, [], ◌∷◌, ◌++◌, arith, length, ==_self,
}
use co_net.Io.Token.{Op, token, new_token}
use co_net.Io.Sqe.{Sqe, Cqe, Prep, prep, has_task}
use co_net.Io.World.{World, Platform, Ends, ok, update}
use co_net.Io.Ring.{consume, submit_all}
use co_net.Io.Ring.Steps.{free-ok, put_sqe-ok, with_sqe, posted, posted-flush, flushed}
use co_net.Io.Handler.{handle_request, handle_until_stopped, process_batch, switch}
use co_net.Io.Handler.Dispatch.{handle_request-switch}

abbrev pub cancel_entry : Sqe
cancel_entry = prep Prep.cancel_any ∷ []

-- `w'` is `w` after `this` has quit by `cqe`, with `n` completions given back.
pub record Quit (this : ℕ) (cqe : Cqe) (n : ℕ) (w w' : World) : Type 0 where
  pub stopped : (w'.ring this).stopped ≡ true
  pub consumed : (w'.ring this).consumed ≡ (w.ring this).consumed + n
  pub cancelled : posted (w'.ring this) ≡ posted (w.ring this) ++ cancel_entry ∷ []
  pub tasks : (w'.ring this).tasks ≡ (w.ring this).tasks
  pub freed : w'.heap cqe.user_data ≡ none
  pub other_cells : (p : ℕ) → p ≢ cqe.user_data → w'.heap p ≡ w.heap p

module _ (lib : Platform) (this : ℕ) where
  handle_until_stopped-stopped :
      (cs : List Cqe) (w : World)
      → (w.ring this).stopped ≡ true
      → handle_until_stopped lib this cs w ≡ ok tt w
  unfolding handle_until_stopped
  handle_until_stopped-stopped [] w h = refl
  handle_until_stopped-stopped (c ∷ cs) w h = rw h refl

  abbrev pub counted : ℕ → World → World
  counted n w = record w {
    ring = update w.ring this (record (w.ring this) { consumed = (w.ring this).consumed + n });
  }

  module _ (cqe : Cqe) (w : World) where
    abbrev pub marked : World
    marked = record w { ring = update w.ring this (record (w.ring this) { stopped = true }) }

    abbrev pub quit : World
    quit = record marked { heap = update w.heap cqe.user_data none }

    quit_stopped : (quit.ring this).stopped ≡ true
    quit_stopped = ground arith

    module _ (live : w.heap cqe.user_data ≡ some (token (record new_token { op = Op.quit })))
        (not_null : cqe.user_data ≢ 0) (plain : has_task cqe.flags ≡ false) where
      pub handle_request-quit : handle_request lib this cqe w ≡ ok tt quit
      unfolding switch
      handle_request-quit =
          handle_request-switch lib this cqe w (record new_token { op = Op.quit }) plain live
            not_null
          ∙ free-ok marked cqe.user_data live

      module _ (running : (w.ring this).stopped ≡ false) (cs : List Cqe) where
        handle_until_stopped-quit : handle_until_stopped lib this (cqe ∷ cs) w ≡ ok tt quit
        unfolding handle_until_stopped
        handle_until_stopped-quit =
            rw (running, handle_request-quit) (handle_until_stopped-stopped cs quit quit_stopped)

        module _ (left after : ℕ) (room : lib.sqe_free (length (w.ring this).waiting) ≡ true) where
          abbrev ready : World
          ready = counted left (counted (length (cqe ∷ cs)) quit)

          abbrev over : World
          over = counted after (flushed lib this this (with_sqe lib this cancel_entry ready))

          still : ((counted (length (cqe ∷ cs)) quit).ring this).stopped ≡ true
          still = ground arith

          ready_room : lib.sqe_free (length (ready.ring this).waiting) ≡ true
          ready_room = rw (==_self this) room

          process_batch-over : process_batch lib this (cqe ∷ cs) left after w ≡ ok tt over
          unfolding process_batch consume submit_all
          process_batch-over =
              rw handle_until_stopped-quit
                (rw still (rw (put_sqe-ok lib this cancel_entry ready ready_room) (rw still refl)))

          -- A batch that starts with the live quit token of a ring that has not stopped, not marked
          -- as a task, on a ring with room for an entry. Nothing fails: the ring has stopped,
          -- whatever the other completions are, the tasks and all other memory are as they were,
          -- the token is freed, every completion of the batch and those that the two later counts
          -- find are given back, and the ring was handed the one entry that cancels everything.
          pub process_batch-Quit :
              Ends
                (λ _. Quit this cqe (length (cqe ∷ cs) + left + after) w)
                (process_batch lib this (cqe ∷ cs) left after w)
          process_batch-Quit = rw process_batch-over (record {
            stopped = rw (==_self this) refl;
            consumed = rw (==_self this) (omega arith);
            cancelled = rw (==_self this) (
                posted-flush
                  (lib.accepted this this (length ((w.ring this).waiting ++ cancel_entry ∷ [])))
                  (w.ring this).submitted (w.ring this).waiting cancel_entry);
            tasks = rw (==_self this) refl;
            freed = ground arith;
            other_cells = ground arith;
          })
