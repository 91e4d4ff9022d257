-- ===== src/Context/Spawn/Terminate.antt =====
-- `SystemLoop::terminate`, and the workers that it stops.
use co_net.Base.{
  lt-length_of_get_elem?, ℕ, ◌+◌, ◌≤◌, ◌<◌, ◌≡◌, ◌≢◌, refl, sym, ap, subst, ◌∙◌, true, false, some,
  none, List, [], ◌∷◌, ◌++◌, arith, length, length-append, append_assoc, get_elem?, ==_self, ==_ne,
}
use co_net.Io.Sqe.{Cqe, has_task}
use co_net.Io.World.{
  World, Ring, Platform, Ends, Ends-and_then, Ends-mono, and_then, ok, update, update_ne,
  update_self, SystemLoop, ◌>>◌,
}
use co_net.Io.Ring.{notify_workers_to_stop, notify_self_quit, submit_all, consume}
use co_net.Io.Ring.Steps.{posted, posted-take, flushed, submit_all-ok}
use co_net.Io.Handler.{process_all, process_batch, handle_all}
use co_net.Io.Handler.Stop.{
  Quit, process_batch-Quit, cancel_entry, counted, quit, handle_request-quit,
}
use co_net.Context.Workers.{request_stop, get_worker_ids}
use co_net.Context.Spawn.{terminate}
use co_net.Context.Spawn.Notified.{
  stop_entries, length-stop_entries, quit_token, Notified, Notified-append,
  notify_workers_to_stop-Notified, notify_self_quit-Notified,
}

-- `w'` is `w` after the main loop has terminated.
pub record Terminated (lib : Platform) (w w' : World) : Type 0 where
  pub stopped : w'.sys_loop.stopped ≡ true
  pub requested : w'.sys_loop.stop_requested ≡ true
  pub main_stopped : (w'.ring lib.sys).stopped ≡ true
  pub entries :
      posted (w'.ring lib.sys)
      ≡ posted (w.ring lib.sys) ++ stop_entries w.next (w.sys_loop.uring_fds ++ lib.sys ∷ [])
  pub live : (k : ℕ) → k < length w.sys_loop.uring_fds → w'.heap (w.next + k) ≡ some quit_token
  pub own_freed : w'.heap (w.next + length w.sys_loop.uring_fds) ≡ none
  pub others : (r : ℕ) → r ≢ lib.sys → w'.ring r ≡ w.ring r
  pub again : (cqes : List Cqe) → terminate lib cqes w' ≡ ok tt w'

module _ (lib : Platform) (own : Cqe) (w : World)
    (here : own.user_data ≡ w.next + length w.sys_loop.uring_fds)
    (plain : has_task own.flags ≡ false) (positive : 0 < w.next)
    (room : (k : ℕ)
      → k ≤ length w.sys_loop.uring_fds
      → lib.sqe_free (length (w.ring lib.sys).waiting + k) ≡ true) where
  abbrev fds : List ℕ
  fds = w.sys_loop.uring_fds

  abbrev requesting : World
  requesting = record w { sys_loop = request_stop (record (w.sys_loop) { stopped = true }) }

  -- The main ring handles its own message.
  finish-Terminated :
      (v : World)
      → Notified lib lib.sys (fds ++ lib.sys ∷ []) requesting v
      → Terminated lib w
          (counted lib lib.sys 1 (quit lib lib.sys own (flushed lib lib.sys lib.sys v)))
  unfolding terminate request_stop
  finish-Terminated v a = record {
    stopped = ap (λ (l : SystemLoop). l.stopped) a.loop;
    requested = ap (λ (l : SystemLoop). l.stop_requested) a.loop;
    main_stopped = rw (==_self lib.sys) refl;
    entries = rw (==_self lib.sys) (
        posted-take (lib.accepted lib.sys lib.sys (length (v.ring lib.sys).waiting))
          (v.ring lib.sys).submitted (v.ring lib.sys).waiting
        ∙ rw (a.submitted, a.entries)
            (sym (append_assoc (w.ring lib.sys).submitted (w.ring lib.sys).waiting _)));
    live = λ k h.
        update_ne v.heap own.user_data (w.next + k) none (omega (arith, here))
        ∙ a.live k (omega (arith, length-append fds (lib.sys ∷ [])));
    own_freed =
        ap (update v.heap own.user_data none) (sym here) ∙ update_self v.heap own.user_data none;
    others = λ r h. rw (==_ne r lib.sys h) (a.others r h);
    again = λ cqes. rw (a.loop) refl;
  }

  room_of :
      (v : World)
      → Notified lib lib.sys fds requesting v
      → lib.sqe_free (length (v.ring lib.sys).waiting) ≡ true
  room_of v a =
      subst (λ n. lib.sqe_free n ≡ true)
        (omega (
          arith,
          ap length a.entries,
          length-append (w.ring lib.sys).waiting (stop_entries w.next fds),
          length-stop_entries w.next fds,
        ))
        (room (length fds) (omega arith))

  terminate-running :
      (cqes : List Cqe)
      → w.sys_loop.stopped ≡ false
      → terminate lib cqes w
        ≡ and_then (notify_workers_to_stop lib lib.sys fds requesting) (λ _.
          notify_self_quit lib lib.sys
          >> (submit_all lib lib.sys lib.sys >> process_all lib lib.sys cqes))
  unfolding terminate get_worker_ids
  terminate-running cqes running = simp running

  process_all-own :
      (v : World)
      → v.heap own.user_data ≡ some quit_token
      → process_all lib lib.sys (own ∷ []) v
        ≡ ok tt (counted lib lib.sys 1 (quit lib lib.sys own v))
  unfolding process_all handle_all consume
  process_all-own v live =
      rw (handle_request-quit lib lib.sys own v live (λ h. absurd (omega (arith, here))) plain) refl

  own_live :
      (v : World)
      → Notified lib lib.sys (fds ++ lib.sys ∷ []) requesting v
      → v.heap own.user_data ≡ some quit_token
  own_live v a = rw here (a.live (length fds) (omega (arith, length-append fds (lib.sys ∷ []))))

  -- `terminate` of a main loop that has not been stopped, whose ring has room for one entry for
  -- each worker and one more, where the completion that it waits for is that of the message to
  -- itself, not marked as a task, and no memory lies at the null address. Nothing fails: the main
  -- loop and its ring are stopped and the threads asked to stop, the main ring was handed a quit
  -- message for each worker, in their order, and one for itself, the workers' tokens are live and
  -- its own is freed, no other ring has changed, and a second call does nothing.
  pub terminate-Terminated :
      w.sys_loop.stopped ≡ false → Ends (λ _. Terminated lib w) (terminate lib (own ∷ []) w)
  terminate-Terminated running = rw (terminate-running (own ∷ []) running) (
      Ends-and_then (λ _. Notified lib lib.sys fds requesting) (λ _. Terminated lib w)
        (notify_workers_to_stop lib lib.sys fds requesting) _
        (notify_workers_to_stop-Notified lib lib.sys fds requesting (λ k h. room k (omega arith)))
        λ _ u a.
          Ends-and_then (λ _. Notified lib lib.sys (lib.sys ∷ []) u) (λ _. Terminated lib w)
            (notify_self_quit lib lib.sys u) _
            (notify_self_quit-Notified lib lib.sys u (room_of u a))
            λ _ v b.
              let both = Notified-append lib lib.sys fds (lib.sys ∷ []) requesting u v a b in
              rw
                (
                  submit_all-ok lib lib.sys lib.sys v,
                  process_all-own (flushed lib lib.sys lib.sys v) (own_live v both),
                )
                (finish-Terminated v both))

  -- The worker `j`, and its message.
  module _ (j worker : ℕ) (found : get_elem? w.sys_loop.uring_fds j ≡ some worker)
      (other : worker ≢ lib.sys) (c : Cqe) (cs : List Cqe) (left after : ℕ)
      (its : c.user_data ≡ w.next + j) (plain_c : has_task c.flags ≡ false)
      (runs : (w.ring worker).stopped ≡ false)
      (worker_room : lib.sqe_free (length (w.ring worker).waiting) ≡ true) where
    quits :
        (v : World)
        → Terminated lib w v
        → Ends
            (λ _ w'.
              ((w'.ring worker).stopped ≡ true)
              × (w'.heap c.user_data ≡ none)
              × (posted (w'.ring worker) ≡ posted (w.ring worker) ++ cancel_entry ∷ []))
            (process_batch lib worker (c ∷ cs) left after v)
    quits v t =
        let same = t.others worker other in
        let below = lt-length_of_get_elem? w.sys_loop.uring_fds j found in
        Ends-mono (λ _. Quit worker c (length (c ∷ cs) + left + after) v) _ _
          (process_batch-Quit lib worker c v (rw its (t.live j below))
            (λ h. absurd (omega (arith, its))) plain_c (rw same runs) cs left after
            (rw same worker_room))
          λ _ w' q. (
            q.stopped,
            q.freed,
            q.cancelled ∙ ap (λ (r : Ring). posted r ++ cancel_entry ∷ []) same,
          )

    -- The same call, and then a batch of completions of a worker other than the main ring that
    -- starts with the message to that worker, not marked as a task, where the worker's ring has not
    -- stopped and has room for an entry. Nothing fails: the worker's ring has stopped, the
    -- message's token is freed, and the ring was handed the one entry that cancels everything.
    pub terminate-Quit :
        w.sys_loop.stopped ≡ false
        → Ends
            (λ _ w'.
              ((w'.ring worker).stopped ≡ true)
              × (w'.heap c.user_data ≡ none)
              × (posted (w'.ring worker) ≡ posted (w.ring worker) ++ cancel_entry ∷ []))
            ((terminate lib (own ∷ []) >> process_batch lib worker (c ∷ cs) left after) w)
    terminate-Quit running =
        Ends-and_then (λ _. Terminated lib w) _ (terminate lib (own ∷ []) w) _
          (terminate-Terminated running) λ _ v t. quits v t
