-- ===== src/Io/Handler/Macc.antt =====
-- `impl_handle_macc_task` on a worker's ring: one task for each awaiting descriptor, and what the
-- connections that were moved from do to the main ring on the way.
use co_net.Base.{
  ℕ, zero, suc, ◌+◌, ◌*◌, ◌≡◌, ◌≢◌, refl, sym, ap, subst, ◌∙◌, true, none, some, List, [], ◌∷◌,
  ◌++◌, map, arith, length, length-drop, length-append, ◌<◌, ◌≤◌, replicate, replicate-add,
  append_assoc, append-nil, ==_self, ==_ne,
}
use co_net.Base.Int.{ℤ, minus_one}
use co_net.Net.Connection.{connection, move}
use co_net.Async.Scheduled.{ScheduledTask, schedule}
use co_net.Io.Token.{Op, Coro, on_connection, macc_msg, multi_acc_task, to_int}
use co_net.Io.Sqe.{Sqe, Cqe, has_task}
use co_net.Io.World.{World, Ring, Platform, Ends, Ends-and_then, Ends-mono, update, update_ne}
use co_net.Io.Ring.{destroy, enqueue, close_direct_socket}
use co_net.Io.Ring.Steps.{load-ok, free-ok, posted, posted-flush, close_sqe, close_direct_socket-ok}
use co_net.Io.Handler.Dispatch.{handle_request-macc_task}
use co_net.Io.Handler.{destroy_each, start_each, impl_handle_macc_task, handle_request}

-- The task that serves a descriptor.
abbrev pub serves : ℕ → ℤ → ScheduledTask Coro
serves f fd = schedule (on_connection f (connection fd))

add-times : (l m : ℕ) → m + l * m ≡ suc l * m
add-times l m = grind arith

module _ (lib : Platform) where
  -- The main ring has been handed `n` requests to close the descriptor -1, and nothing else has
  -- changed.
  pub record Closes (n : ℕ) (w w' : World) : Type 0 where
    pub entries :
        posted (w'.ring lib.sys) ≡ posted (w.ring lib.sys) ++ replicate n (close_sqe minus_one)
    pub room : length (w'.ring lib.sys).waiting ≤ length (w.ring lib.sys).waiting + n
    pub others : (r : ℕ) → r ≢ lib.sys → w'.ring r ≡ w.ring r
    pub heap : w'.heap ≡ w.heap

  -- The ring has `cap` entries. Whatever a submission takes, what waits is no more than was handed
  -- out.
  module _ (cap : ℕ) (free : (n : ℕ) → n < cap → lib.sqe_free n ≡ true) where
    close-Closes :
        (local : ℕ) (w : World)
        → length (w.ring lib.sys).waiting < cap
        → Ends (λ _. Closes 1 w) (close_direct_socket lib local lib.sys minus_one w)
    close-Closes local w room =
        let waits = (w.ring lib.sys).waiting ++ close_sqe minus_one ∷ [] in
        rw (close_direct_socket-ok lib local lib.sys minus_one w (free _ room)) (record {
          entries = rw (==_self lib.sys) (posted-flush _ _ _ _);
          room = rw (==_self lib.sys) (
              omega (
                arith,
                length-drop (lib.accepted local lib.sys (length waits)) waits,
                length-append (w.ring lib.sys).waiting (close_sqe minus_one ∷ []),
              ));
          others = λ r h. rw (==_ne r lib.sys h) refl;
          heap = refl;
        })

    Closes-trans : (m n : ℕ) (u v w : World) → Closes m u v → Closes n v w → Closes (m + n) u w
    Closes-trans m n u v w a b = record {
      entries =
          b.entries
          ∙ ap (λ (l : List Sqe). l ++ replicate n (close_sqe minus_one)) a.entries
          ∙ append_assoc (posted (u.ring lib.sys)) _ _
          ∙ ap (◌++◌ (posted (u.ring lib.sys))) (sym (replicate-add m n (close_sqe minus_one)));
      room = omega (arith, a.room, b.room);
      others = λ r h. b.others r h ∙ a.others r h;
      heap = b.heap ∙ a.heap;
    }

    -- Connections that were moved from, of which none knows another ring.
    destroy_each-Closes :
        (local n : ℕ) (fd : ℤ) (w : World)
        → length (w.ring lib.sys).waiting + n ≤ cap
        → Ends (λ _. Closes n w) (destroy_each lib local n (move (connection fd)).1 w)
    unfolding destroy_each destroy move connection
    destroy_each-Closes local zero fd w room = record {
      entries = sym (append-nil _);
      room = omega arith;
      others = λ r h. refl;
      heap = refl;
    }
    destroy_each-Closes local (suc n) fd w room =
        Ends-and_then (λ _. Closes 1 w) (λ _. Closes (suc n) w)
          (close_direct_socket lib local lib.sys minus_one w) _
          (close-Closes local w (omega (arith, room)))
          λ _ w₁ one.
            Ends-mono (λ _. Closes n w₁) (λ _. Closes (suc n) w) _
              (destroy_each-Closes local n fd w₁ (omega (arith, room, one.room)))
              λ _ w₂ more.
                subst (λ k. Closes k w w₂) (omega arith) (Closes-trans 1 n w w₁ w₂ one more)

    module _ (this f : ℕ) (other : this ≢ lib.sys) where
      -- `w'` is `w` with a task for each of `fds`, in their order, and the closes that starting
      -- them has cost.
      pub record Started (fds : List ℤ) (w w' : World) : Type 0 where
        pub tasks : (w'.ring this).tasks ≡ (w.ring this).tasks ++ map (serves f) fds
        pub still_awaiting : (w'.ring this).awaiting_direct_fd ≡ (w.ring this).awaiting_direct_fd
        pub closes :
            posted (w'.ring lib.sys)
            ≡ posted (w.ring lib.sys)
              ++ replicate (length fds * suc lib.call_moves) (close_sqe minus_one)
        pub room_left :
            length (w'.ring lib.sys).waiting
            ≤ length (w.ring lib.sys).waiting + length fds * suc lib.call_moves
        pub heap : w'.heap ≡ w.heap

      abbrev queued : ℤ → World → World
      queued fd w = record w {
        ring =
            update w.ring this
              (record (w.ring this) { tasks = (w.ring this).tasks ++ serves f fd ∷ [] });
      }

      queued_main : (fd : ℤ) (w : World) → (queued fd w).ring lib.sys ≡ w.ring lib.sys
      queued_main fd w = update_ne w.ring this lib.sys _ (λ h. other (sym h))

      Started-cons :
          (fd : ℤ) (fds : List ℤ) (u v w : World)
          → Closes (suc lib.call_moves) u v
          → Started fds (queued fd v) w
          → Started (fd ∷ fds) u w
      Started-cons fd fds u v w one rest = record {
        tasks =
            rest.tasks
            ∙ rw (==_self this) (
                ap (λ (r : Ring). (r.tasks ++ serves f fd ∷ []) ++ map (serves f) fds)
                  (one.others this other)
                ∙ append_assoc (u.ring this).tasks (serves f fd ∷ []) (map (serves f) fds));
        still_awaiting =
            rest.still_awaiting
            ∙ rw (==_self this) (ap (λ (r : Ring). r.awaiting_direct_fd) (one.others this other));
        closes =
            rest.closes
            ∙ rw (queued_main fd v) (
                ap
                  (λ (l : List Sqe).
                    l ++ replicate (length fds * suc lib.call_moves) (close_sqe minus_one))
                  one.entries
                ∙ append_assoc (posted (u.ring lib.sys)) _ _
                ∙ ap (◌++◌ (posted (u.ring lib.sys))) (
                    sym (replicate-add (suc lib.call_moves) _ (close_sqe minus_one))
                    ∙ ap (λ k. replicate k (close_sqe minus_one))
                        (add-times (length fds) (suc lib.call_moves))));
        room_left = omega (
          arith,
          rest.room_left,
          one.room,
          ap (λ (r : Ring). length r.waiting) (queued_main fd v),
          add-times (length fds) (suc lib.call_moves),
        );
        heap = rest.heap ∙ one.heap;
      }

      start_each-Started :
          (fds : List ℤ) (w : World)
          → length (w.ring lib.sys).waiting + length fds * suc lib.call_moves ≤ cap
          → Ends (λ _. Started fds w) (start_each lib this (some f) fds w)
      unfolding start_each enqueue move connection
      start_each-Started [] w room = record {
        tasks = sym (append-nil _);
        still_awaiting = refl;
        closes =
            let none_left : 0 * suc lib.call_moves ≡ 0 = omega arith in
            rw none_left (sym (append-nil _));
        room_left = omega arith;
        heap = refl;
      }
      start_each-Started (fd ∷ fds) w room =
          Ends-and_then (λ _. Closes (suc lib.call_moves) w) (λ _. Started (fd ∷ fds) w)
            (destroy_each lib this (suc lib.call_moves) (move (connection fd)).1 w) _
            (destroy_each-Closes this (suc lib.call_moves) fd w
              (omega (arith, room, add-times (length fds) (suc lib.call_moves))))
            λ _ w₁ one.
              Ends-mono (λ _. Started fds (queued fd w₁)) (λ _. Started (fd ∷ fds) w) _
                (start_each-Started fds (queued fd w₁) (
                  omega (
                    arith,
                    room,
                    one.room,
                    ap (λ (r : Ring). length r.waiting) (queued_main fd w₁),
                    add-times (length fds) (suc lib.call_moves),
                  )))
                λ _ w₂ rest. Started-cons fd fds w w₁ w₂ one rest

      -- A live message with a function, marked as a task of a multishot accept, on a ring that is
      -- not the main one, where the main ring, of `cap` entries, has room for every request to
      -- close that the handling makes, whatever the submissions take. Nothing fails: the last tasks
      -- of the ring's loop serve the awaiting descriptors, one each and in their order, the
      -- descriptors are all still awaiting, for each of them the main ring was handed a request to
      -- close the descriptor -1 as often as connections that were moved from are destroyed, and no
      -- other memory than the message has changed.
      pub handle_request-Started :
          (cqe : Cqe) (op : Op) (w : World)
          → has_task cqe.flags ≡ true
          → cqe.res ≡ to_int multi_acc_task
          → w.heap cqe.user_data ≡ some (macc_msg op (some f))
          → length (w.ring lib.sys).waiting
              + length (w.ring this).awaiting_direct_fd * suc lib.call_moves
            ≤ cap
          → Ends
              (λ _.
                Started
                  (w.ring this).awaiting_direct_fd
                  (record w { heap = update w.heap cqe.user_data none }))
              (handle_request lib this cqe w)
      unfolding impl_handle_macc_task
      handle_request-Started cqe op w marked res live room =
          rw
            (
              handle_request-macc_task lib this cqe marked res w,
              load-ok w cqe.user_data live,
              free-ok w cqe.user_data live,
            )
            (start_each-Started (w.ring this).awaiting_direct_fd
              (record w { heap = update w.heap cqe.user_data none }) room)
