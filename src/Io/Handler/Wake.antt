-- ===== src/Io/Handler/Wake.antt =====
-- The completion of an operation that a task waits for.
use co_net.Base.{
  ℕ, ◌≡◌, refl, sym, subst, ◌∙◌, ◌≢◌, false, some, arith, get_elem?, ==_self, get_elem?-modify_self,
  get_elem?-modify_ne,
}
use co_net.Base.Int.{signed}
use co_net.Async.Scheduled.{ScheduledTask, set_pending}
use co_net.Io.Token.{Op, CompletionToken, TaskRef, Coro, token}
use co_net.Io.Sqe.{Cqe, has_task}
use co_net.Io.World.{World, Platform, Ends, store, and_then}
use co_net.Io.Ring.{set_task_pending}
use co_net.Io.Ring.Steps.{set_task_pending-ok}
use co_net.Io.Handler.{handle_request, switch}
use co_net.Io.Handler.Dispatch.{handle_request-switch}

-- The operations that a UringAwaiter submits.
pub data IsAwaited : Op → Type 0 where
  socket : IsAwaited Op.socket
  accept : IsAwaited Op.accept
  send : IsAwaited Op.send
  receive : IsAwaited Op.receive
  timeout : IsAwaited Op.timeout
  close : IsAwaited Op.close
  async_close_direct : IsAwaited Op.async_close_direct

-- What the world owes to the task behind `ref` once its operation has completed.
pub record Woken (cqe : Cqe) (t : CompletionToken) (ref : TaskRef) (s : ScheduledTask Coro)
    (w w' : World) : Type 0 where
  pub result :
      w'.heap cqe.user_data
      ≡ some (token (record t { cqe_res = cqe.res; cqe_flags = signed 32 cqe.flags }))
  pub task : get_elem? (w'.ring ref.ring).tasks ref.index ≡ some (record s { pending = false })
  pub other_tasks :
      (i : ℕ)
      → i ≢ ref.index
      → get_elem? (w'.ring ref.ring).tasks i ≡ get_elem? (w.ring ref.ring).tasks i
  pub other_cells : (p : ℕ) → p ≢ cqe.user_data → w'.heap p ≡ w.heap p
  pub other_rings : (r : ℕ) → r ≢ ref.ring → w'.ring r ≡ w.ring r
  pub entries : (w'.ring ref.ring).waiting ≡ (w.ring ref.ring).waiting
  pub sent : (w'.ring ref.ring).submitted ≡ (w.ring ref.ring).submitted

module _ (lib : Platform) (this : ℕ) (cqe : Cqe) where
  switch-awaited :
      (p : ℕ) (t : CompletionToken) (op : Op) (w : World)
      → IsAwaited op
      → switch lib this cqe p t op w
        ≡ and_then
            (store p (token (record t { cqe_res = cqe.res; cqe_flags = signed 32 cqe.flags })) w)
            (λ _. set_task_pending false t.chain_task)
  unfolding switch
  switch-awaited p t op w socket = refl
  switch-awaited p t op w accept = refl
  switch-awaited p t op w send = refl
  switch-awaited p t op w receive = refl
  switch-awaited p t op w timeout = refl
  switch-awaited p t op w close = refl
  switch-awaited p t op w async_close_direct = refl

  module _ (t : CompletionToken) (ref : TaskRef) (s : ScheduledTask Coro) (w : World)
      (awaited : IsAwaited t.op) (plain : has_task cqe.flags ≡ false)
      (live : w.heap cqe.user_data ≡ some (token t)) (not_null : cqe.user_data ≢ 0)
      (chain : t.chain_task ≡ some ref)
      (queued : get_elem? (w.ring ref.ring).tasks ref.index ≡ some s) where
    -- The completion of an awaited operation, not marked as a task, whose token is live at an
    -- address that is not null and belongs to a task that stands in its loop: nothing fails, the
    -- token holds the result and the flags, that task is no longer pending, and no other task,
    -- ring, memory or entry has changed.
    pub handle_request-Woken : Ends (λ _. Woken cqe t ref s w) (handle_request lib this cqe w)
    unfolding store set_pending
    handle_request-Woken =
        subst (Ends λ _. Woken cqe t ref s w)
          (sym (
            handle_request-switch lib this cqe w t plain live not_null
            ∙ switch-awaited cqe.user_data t t.op w awaited
            ∙ set_task_pending-ok false ref _ chain queued))
          (record {
            result = ground arith;
            task = rw (==_self ref.ring) (get_elem?-modify_self ref.index _ _ queued);
            other_tasks = λ i h. rw (==_self ref.ring) (get_elem?-modify_ne ref.index i _ _ h);
            other_cells = ground arith;
            other_rings = ground arith;
            entries = ground arith;
            sent = ground arith;
          })
