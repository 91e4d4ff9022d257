-- ===== src/Context/Accept/Armed.antt =====
-- From the multishot accept's entry to a descriptor that it has accepted.
use co_net.Base.{
  ℕ, ◌≡◌, ◌≢◌, refl, ap, ◌∙◌, true, false, some, List, [], ◌∷◌, ◌++◌, arith, length, get_elem?,
}
use co_net.Base.Int.{ℤ, pos}
use co_net.Async.Scheduled.{ScheduledTask, set_awaiting_handle, set_pending}
use co_net.Io.Token.{Op, CompletionToken, TaskRef, Coro, token}
use co_net.Io.Sqe.{Cqe, has_task, Sqe, Prep, prep, user_data}
use co_net.Io.World.{◌>>◌, World, Platform, Ends, ok, update, store}
use co_net.Io.Ring.Steps.{
  with_sqe_waiting, with_task, with_task_self, with_task_waiting, load-ok, put_sqe-ok, with_sqe,
  set_task_pending-ok,
}
use co_net.Io.Handler.{handle_request, switch, push_awaiting}
use co_net.Io.Handler.Dispatch.{handle_request-switch}
use co_net.Io.Await.Suspend.{set_task_handle-ok}
use co_net.Context.Accept.{construct_multishot, suspend_multishot, prep_multishot_accept_direct}

-- A completion of the multishot accept, with the descriptor `n`.
abbrev pub accept_cqe : Platform → ℕ → ℕ → Cqe
accept_cqe lib n flags = record { res = pos n; flags = flags; user_data = lib.multishot_token }

with_task_awaiting :
    (r i : ℕ) (f : ScheduledTask Coro → ScheduledTask Coro) (w : World) (q : ℕ)
    → ((with_task r i f w).ring q).awaiting_direct_fd ≡ (w.ring q).awaiting_direct_fd
with_task_awaiting r i f w q = ground arith

with_sqe_awaiting :
    (lib : Platform) (r : ℕ) (e : Sqe) (w : World) (q : ℕ)
    → ((with_sqe lib r e w).ring q).awaiting_direct_fd ≡ (w.ring q).awaiting_direct_fd
with_sqe_awaiting lib r e w q = ground arith

module _ (this n : ℕ) (w : World) where
  abbrev pushed : World
  pushed = record w {
    ring = update w.ring this (record (w.ring this) {
      awaiting_direct_fd = (w.ring this).awaiting_direct_fd ++ pos n ∷ [];
    });
  }

  pushed_fds :
      (pushed.ring this).awaiting_direct_fd ≡ (w.ring this).awaiting_direct_fd ++ pos n ∷ []
  pushed_fds = ground arith

  pushed_tasks : (q : ℕ) → (pushed.ring q).tasks ≡ (w.ring q).tasks
  pushed_tasks q = ground arith

  pushed_waiting : (q : ℕ) → (pushed.ring q).waiting ≡ (w.ring q).waiting
  pushed_waiting q = ground arith

module _ (lib : Platform) (this n flags : ℕ) (t : CompletionToken) (ref : TaskRef)
    {s : ScheduledTask Coro} (w : World) (plain : has_task flags ≡ false)
    (live : w.heap lib.multishot_token ≡ some (token t)) (not_null : lib.multishot_token ≢ 0)
    (op : t.op ≡ Op.multishot_accept) (chain : t.chain_task ≡ some ref)
    (queued : get_elem? (w.ring ref.ring).tasks ref.index ≡ some s) where
  pushed_queued : get_elem? ((pushed this n w).ring ref.ring).tasks ref.index ≡ some s
  pushed_queued = rw (pushed_tasks this n w ref.ring) queued

  pub handle_request-pushed :
      handle_request lib this (accept_cqe lib n flags) w
      ≡ ok tt (with_task ref.ring ref.index (set_pending false) (pushed this n w))
  unfolding switch push_awaiting
  handle_request-pushed =
      handle_request-switch lib this (accept_cqe lib n flags) w t plain live not_null
      ∙ rw op (
          rw (load-ok (pushed this n w) lib.multishot_token live)
            (set_task_pending-ok false ref (pushed this n w) chain pushed_queued))

abbrev pub accept_entry : Platform → ℤ → Sqe
accept_entry lib socket =
    prep (Prep.multishot_accept_direct socket) ∷ user_data lib.multishot_token ∷ []

-- What the world owes to a task that has armed the multishot accept of `socket`, once the main ring
-- has handled a completion with the descriptor `n`.
pub record Accepted (lib : Platform) (socket : ℤ) (n : ℕ) (caller : Coro) (ref : TaskRef)
    (s : ScheduledTask Coro) (t : CompletionToken) (w w' : World) : Type 0 where
  pub fds : (w'.ring lib.sys).awaiting_direct_fd ≡ (w.ring lib.sys).awaiting_direct_fd ++ pos n ∷ []
  pub task :
      get_elem? (w'.ring ref.ring).tasks ref.index
      ≡ some (record s { awaiting_handle = caller; pending = false })
  pub entries : (w'.ring lib.sys).waiting ≡ (w.ring lib.sys).waiting ++ accept_entry lib socket ∷ []
  pub armed :
      w'.heap lib.multishot_token
      ≡ some (token (record t { op = Op.multishot_accept; chain_task = some ref }))
  pub other_cells : (p : ℕ) → p ≢ lib.multishot_token → w'.heap p ≡ w.heap p

module _ (lib : Platform) (socket : ℤ) (caller : Coro) (ref : TaskRef) {s : ScheduledTask Coro}
    (t : CompletionToken) (w : World)
    (queued : get_elem? (w.ring ref.ring).tasks ref.index ≡ some s)
    (live : w.heap lib.multishot_token ≡ some (token t))
    (room : lib.sqe_free (length (w.ring lib.sys).waiting) ≡ true) where
  abbrev handed : World
  handed = with_sqe lib lib.sys (accept_entry lib socket) w

  abbrev with_op : World
  with_op = record handed {
    heap = update w.heap lib.multishot_token (some (token (record t { op = Op.multishot_accept })));
  }

  abbrev armed_token : CompletionToken
  armed_token = record t { op = Op.multishot_accept; chain_task = some ref }

  abbrev with_chain : World
  with_chain = record with_op {
    heap = update with_op.heap lib.multishot_token (some (token armed_token));
  }

  abbrev pub armed : World
  armed = with_task ref.ring ref.index (set_awaiting_handle caller) with_chain

  with_op_live :
      with_op.heap lib.multishot_token ≡ some (token (record t { op = Op.multishot_accept }))
  with_op_live = ground arith

  with_chain_queued : get_elem? (with_chain.ring ref.ring).tasks ref.index ≡ some s
  with_chain_queued = ground arith

  pub armed_ok : prep_multishot_accept_direct lib socket caller (some ref) w ≡ ok tt armed
  unfolding prep_multishot_accept_direct construct_multishot suspend_multishot store
  armed_ok = rw (put_sqe-ok lib lib.sys (accept_entry lib socket) w room) (
      rw (load-ok handed lib.multishot_token live) (
        rw (load-ok with_op lib.multishot_token with_op_live)
          (set_task_handle-ok caller ref with_chain with_chain_queued)))

  armed_live : armed.heap lib.multishot_token ≡ some (token armed_token)
  armed_live = ground arith

  armed_queued :
      get_elem? (armed.ring ref.ring).tasks ref.index ≡ some (set_awaiting_handle caller s)
  armed_queued =
      with_task_self ref.ring ref.index (set_awaiting_handle caller) with_chain with_chain_queued

  module _ (n flags : ℕ) (plain : has_task flags ≡ false) (not_null : lib.multishot_token ≢ 0) where
    -- A task that stands in its loop arms the multishot accept of a socket, with the static token
    -- live at an address that is not null and room in the main ring, and the main ring then handles
    -- a completion of it with a descriptor, not marked as a task. Nothing fails: the descriptor is
    -- the last of those that wait to be sent, the task is not pending and will go on at the
    -- awaiting coroutine, the ring was handed one entry, for that socket and with the token's
    -- address, the token is armed and belongs to the task, and no other memory has changed.
    pub prep_multishot_accept_direct-Accepted :
        Ends
          (λ _. Accepted lib socket n caller ref s t w)
          ((do
            prep_multishot_accept_direct lib socket caller (some ref)
            handle_request lib lib.sys (accept_cqe lib n flags))
            w)
    unfolding set_pending set_awaiting_handle
    prep_multishot_accept_direct-Accepted =
        rw
          (
            armed_ok,
            handle_request-pushed lib lib.sys n flags armed_token ref armed plain armed_live
                not_null refl refl armed_queued,
          )
          (record {
            fds =
                with_task_awaiting ref.ring ref.index (set_pending false) (pushed lib.sys n armed)
                  lib.sys
                ∙ pushed_fds lib.sys n armed
                ∙ ap (λ (l : List ℤ). l ++ pos n ∷ [])
                    (with_task_awaiting ref.ring ref.index (set_awaiting_handle caller) with_chain
                        lib.sys
                      ∙ with_sqe_awaiting lib lib.sys (accept_entry lib socket) w lib.sys);
            task =
                with_task_self ref.ring ref.index (set_pending false) (pushed lib.sys n armed)
                  {x = set_awaiting_handle caller s}
                  (rw (pushed_tasks lib.sys n armed ref.ring) armed_queued);
            entries =
                with_task_waiting ref.ring ref.index (set_pending false) (pushed lib.sys n armed)
                  lib.sys
                ∙ pushed_waiting lib.sys n armed lib.sys
                ∙ with_task_waiting ref.ring ref.index (set_awaiting_handle caller) with_chain
                    lib.sys
                ∙ with_sqe_waiting lib lib.sys (accept_entry lib socket) w;
            armed = armed_live;
            other_cells = ground arith;
          })
