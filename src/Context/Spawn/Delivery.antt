-- ===== src/Context/Spawn/Delivery.antt =====
-- A connection goes from the main ring to a worker.
use co_net.Base.{
  ℕ, suc, ◌+◌, ◌≤◌, ◌≡◌, ◌≢◌, refl, sym, ap, subst, ◌∙◌, true, false, none, some, [], ◌∷◌, ◌++◌,
  arith, length, append_assoc, ==_self,
}
use co_net.Base.Int.{ℤ, minus_one}
use co_net.Net.Connection.{TcpConnection, connection, release, set_subring_socket}
use co_net.Async.Scheduled.{schedule}
use co_net.Io.Token.{to_int, ring_func_task, Op, new_token, token, conn_msg, on_connection}
use co_net.Io.Sqe.{Sqe, Cqe, has_task}
use co_net.Io.World.{World, Ring, Platform, Ends, Ends-and_then, ok, alloc, ◌>>=◌, ◌>>◌, pure}
use co_net.Io.Ring.{submit_all}
use co_net.Io.Ring.Steps.{
  put_sqe-ok, with_sqe, with_sqe_length, allocated, posted, release_sqe, posted-take, flushed,
}
use co_net.Io.Handler.{find, handle_all}
use co_net.Io.Handler.Handoff.{Taken, IsFdMessage, IsFuncMessage, handle_all-Taken}
use co_net.Context.Workers.RoundRobin.{picked}
use co_net.Context.Spawn.{check_main, parallel_spawn_conn, linked_fd_entry, func_entry}
use co_net.Context.Workers.{pick_worker}

-- `w'` is `w` after the connection `conn` has gone from the main ring to `worker`, which knows its
-- descriptor as `fd` and runs the callable `task` on it; `given` is what the caller is left with.
pub record Delivered (lib : Platform) (task : ℕ) (conn : TcpConnection) (worker : ℕ) (fd : ℤ)
    (w : World) (given : TcpConnection) (w' : World) : Type 0 where
  pub given_up :
      given ≡ record conn { direct_fd_in_sys_ring = minus_one; ownership_in_sys_ring = false }
  pub task_queued :
      (w'.ring worker).tasks
      ≡ (w.ring worker).tasks
        ++ schedule (on_connection task (set_subring_socket fd (connection minus_one))) ∷ []
  pub map_restored : (w'.ring worker).direct_map ≡ (w.ring worker).direct_map
  pub helper_freed : w'.heap w.next ≡ none
  pub receiver_freed : w'.heap (suc (suc w.next)) ≡ none
  pub main_told :
      posted (w'.ring worker)
      ≡ posted (w.ring worker) ++ release_sqe lib.sys conn.socket (suc (suc (suc w.next))) ∷ []
  pub messages :
      posted (w'.ring lib.sys)
      ≡ posted (w.ring lib.sys)
        ++ linked_fd_entry worker conn.socket (suc (suc w.next)) (suc w.next)
          ∷ func_entry worker w.next
          ∷ []

module _ (lib : Platform) (task : ℕ) (conn : TcpConnection) (w : World) (worker j : ℕ) where
  -- The caller's connection afterwards.
  abbrev pub given_up : TcpConnection
  given_up = record conn { direct_fd_in_sys_ring = minus_one; ownership_in_sys_ring = false }

  abbrev ready : World
  ready = allocated (token (record new_token { op = Op.ring_fd_receiver; cqe_res = conn.socket })) (
      allocated (token (record new_token { op = Op.ring_fd_sender }))
        (allocated (conn_msg (some task) conn.socket) (picked w j)))

  abbrev fd_message : Sqe
  fd_message = linked_fd_entry worker conn.socket (suc (suc w.next)) (suc w.next)

  abbrev one : World
  one = with_sqe lib lib.sys fd_message ready

  abbrev two : World
  two = with_sqe lib lib.sys (func_entry worker w.next) one

  abbrev sent : World
  sent = flushed lib lib.sys lib.sys two

  module _ (picks : pick_worker w ≡ ok worker (picked w j))
      (owned : conn.ownership_in_sys_ring ≡ true)
      (room : (n : ℕ) → n ≤ 1 → lib.sqe_free (length (w.ring lib.sys).waiting + n) ≡ true) where
    first_free : lib.sqe_free (length (ready.ring lib.sys).waiting) ≡ true
    first_free = subst (λ n. lib.sqe_free n ≡ true) (omega arith) (room 0 (omega arith))

    second_free : lib.sqe_free (length (one.ring lib.sys).waiting) ≡ true
    second_free =
        subst (λ n. lib.sqe_free n ≡ true) (sym (with_sqe_length lib lib.sys fd_message ready))
          (room 1 (omega arith))

    parallel_spawn_conn-ok : parallel_spawn_conn lib lib.sys task conn w ≡ ok given_up sent
    unfolding parallel_spawn_conn check_main release alloc submit_all
    parallel_spawn_conn-ok = rw (==_self lib.sys) (
        rw (owned) (
          rw picks (
            rw (put_sqe-ok lib lib.sys fd_message ready first_free) (
              rw (put_sqe-ok lib lib.sys (func_entry worker w.next) one second_free)
                (rw (==_self lib.sys) refl)))))

    -- The two completions that the entries above cause on the worker's ring; `fd` is what the
    -- worker's kernel table allocates.
    module _ (fd : ℤ) (c₁ c₂ : Cqe) (first : c₁.user_data ≡ suc (suc w.next)) (got : c₁.res ≡ fd)
        (unmarked : has_task c₁.flags ≡ false) (second : c₂.user_data ≡ w.next)
        (func : c₂.res ≡ to_int ring_func_task) (marked : has_task c₂.flags ≡ true)
        (other : worker ≢ lib.sys) (unused : find conn.socket (w.ring worker).direct_map ≡ none)
        (worker_room : lib.sqe_free (length (w.ring worker).waiting) ≡ true) where
      same_ring : sent.ring worker ≡ w.ring worker
      same_ring = ground arith

      fd_arrives : IsFdMessage sent conn.socket fd c₁
      fd_arrives = record {
        not_null = λ h. absurd (omega arith);
        receiver = rw first (rw (==_self (suc (suc w.next))) refl);
        res = got;
        unmarked = unmarked;
      }

      func_arrives : IsFuncMessage sent conn.socket task c₂
      func_arrives = record { helper = rw second (ground arith); res = func; marked = marked }

      taken :
          Ends
            (λ _. Taken lib worker task conn.socket fd c₁ c₂ sent)
            (handle_all lib worker (c₁ ∷ c₂ ∷ []) sent)
      taken =
          handle_all-Taken lib worker task conn.socket fd c₁ c₂ sent fd_arrives func_arrives
            (omega arith) (omega arith) (omega arith) (rw same_ring unused)
            (rw same_ring worker_room)

      main_posted :
          posted (sent.ring lib.sys)
          ≡ posted (w.ring lib.sys) ++ fd_message ∷ func_entry worker w.next ∷ []
      main_posted = rw (==_self lib.sys) (
          posted-take
            (lib.accepted lib.sys lib.sys (
              length
                (((w.ring lib.sys).waiting ++ fd_message ∷ []) ++ func_entry worker w.next ∷ [])))
            (w.ring lib.sys).submitted
            (((w.ring lib.sys).waiting ++ fd_message ∷ []) ++ func_entry worker w.next ∷ [])
          ∙ ap (◌++◌ (w.ring lib.sys).submitted) (
              append_assoc (w.ring lib.sys).waiting (fd_message ∷ [])
                (func_entry worker w.next ∷ []))
          ∙ sym (
              append_assoc (w.ring lib.sys).submitted (w.ring lib.sys).waiting
                (fd_message ∷ func_entry worker w.next ∷ [])))

      -- `parallel_spawn` of a connection that the main ring owns, then the completions of its two
      -- messages on the ring of the worker that `pick_worker` chooses, which is not the main ring,
      -- has no entry for the descriptor in its map and room for one more entry, as the main ring
      -- has for two. Nothing fails. The worker's last task serves the connection under the worker's
      -- own descriptor, its map is as before and both messages' memory is freed. The worker's ring
      -- was handed the request to release the main ring's descriptor, the main ring the linked
      -- message and then the function's, and the caller's connection no longer owns its descriptor.
      pub parallel_spawn_conn-Delivered : Ends (Delivered lib task conn worker fd w) (
          (do
            given ← parallel_spawn_conn lib lib.sys task conn
            handle_all lib worker (c₁ ∷ c₂ ∷ [])
            pure given)
            w)
      parallel_spawn_conn-Delivered = rw parallel_spawn_conn-ok (
          Ends-and_then (λ _. Taken lib worker task conn.socket fd c₁ c₂ sent) _
            (handle_all lib worker (c₁ ∷ c₂ ∷ []) sent) _ taken
            λ _ w' t. record {
              given_up = refl;
              task_queued =
                  t.task
                  ∙ ap
                      (λ (r : Ring).
                        r.tasks
                        ++ schedule
                            (on_connection task (set_subring_socket fd (connection minus_one)))
                          ∷ [])
                      same_ring;
              map_restored = t.map_restored ∙ ap (λ (r : Ring). r.direct_map) same_ring;
              helper_freed = ap w'.heap (sym second) ∙ t.helper_freed;
              receiver_freed = ap w'.heap (sym first) ∙ t.receiver_freed;
              main_told =
                  t.main_told
                  ∙ ap (λ (r : Ring). posted r ++ release_sqe lib.sys conn.socket sent.next ∷ [])
                      same_ring;
              messages = ap posted (t.other_rings lib.sys (λ h. other (sym h))) ∙ main_posted;
            })
