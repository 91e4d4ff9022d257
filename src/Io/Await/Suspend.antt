-- ===== src/Io/Await/Suspend.antt =====
-- A coroutine that awaits an operation, from the submission to the result.
use co_net.Base.{
  ℕ, ◌≡◌, ◌≢◌, refl, ap, sym, subst, ◌∙◌, true, some, List, [], ◌∷◌, ◌++◌, arith, length, get_elem?,
  if◌then◌else◌,
}
use co_net.Async.Scheduled.{ScheduledTask, set_awaiting_handle, set_pending}
use co_net.Io.Token.{CompletionToken, new_token, TaskRef, Coro, token}
use co_net.Io.Sqe.{Sqe, prep, user_data}
use co_net.Io.World.{World, Platform, Ends, ok, update, alloc, store}
use co_net.Io.Ring.Steps.{
  with_sqe_waiting, with_sqe_tasks, with_task, with_task_self, with_task_ne, with_task_waiting,
  load-ok, put_sqe-ok, with_sqe, allocated, set_task_pending-ok,
}
use co_net.Io.Await.{await_resume, Awaiter, set_task_handle, await_suspend, construct, suspend}

pub set_task_handle-ok :
    (caller : Coro) (ref : TaskRef) {s : ScheduledTask Coro} (w : World)
    → get_elem? (w.ring ref.ring).tasks ref.index ≡ some s
    → set_task_handle caller (some ref) w
      ≡ ok tt (with_task ref.ring ref.index (set_awaiting_handle caller) w)
unfolding set_task_handle
set_task_handle-ok caller ref w queued = ground arith

pub await_resume-ok :
    (p : ℕ) (w : World) {t : CompletionToken}
    → w.heap p ≡ some (token t)
    → await_resume p w ≡ ok (t.cqe_res, t.cqe_flags) w
unfolding await_resume
await_resume-ok p w live = rw (load-ok w p live) refl

-- The ring that an awaiter submits to.
abbrev pub target : Platform → ℕ → Awaiter → ℕ
target lib local a = if a.on_sys_ring then lib.sys else local

abbrev pub entry : ℕ → Awaiter → Sqe
entry p a = prep a.call ∷ user_data p ∷ a.extra

module _ (lib : Platform) (local : ℕ) (a : Awaiter) (caller : Coro) (ref : TaskRef)
    (s : ScheduledTask Coro) (w : World) where
  -- The token lies at the next address, the task waits for it, and the entry that was handed out
  -- carries its address.
  pub record Parked (p : ℕ) (w' : World) : Type 0 where
    pub address : p ≡ w.next
    pub token_live :
        w'.heap p ≡ some (token (record new_token { op = a.op; chain_task = some ref }))
    pub task :
        get_elem? (w'.ring ref.ring).tasks ref.index
        ≡ some (record s { awaiting_handle = caller; pending = true })
    pub other_tasks :
        (i : ℕ)
        → i ≢ ref.index
        → get_elem? (w'.ring ref.ring).tasks i ≡ get_elem? (w.ring ref.ring).tasks i
    pub entries :
        (w'.ring (target lib local a)).waiting
        ≡ (w.ring (target lib local a)).waiting ++ entry w.next a ∷ []
    pub other_cells : (q : ℕ) → q ≢ w.next → w'.heap q ≡ w.heap q

module _ (lib : Platform) (local : ℕ) (a : Awaiter) (caller : Coro) (ref : TaskRef)
    {s : ScheduledTask Coro} (w : World)
    (queued : get_elem? (w.ring ref.ring).tasks ref.index ≡ some s)
    (room : lib.sqe_free (length (w.ring (target lib local a)).waiting) ≡ true) where
  abbrev built : World
  built =
      with_sqe lib (target lib local a) (entry w.next a)
        (allocated (token (record new_token { op = a.op })) w)

  construct-ok : construct lib local a w ≡ ok w.next built
  unfolding construct alloc
  construct-ok =
      rw
        (put_sqe-ok lib (target lib local a) (entry w.next a)
          (allocated (token (record new_token { op = a.op })) w) room)
        refl

  built_tasks : (built.ring ref.ring).tasks ≡ (w.ring ref.ring).tasks
  built_tasks =
      with_sqe_tasks lib (target lib local a) (entry w.next a)
        (allocated (token (record new_token { op = a.op })) w) ref.ring

  built_queued : get_elem? (built.ring ref.ring).tasks ref.index ≡ some s
  built_queued = rw built_tasks queued

  abbrev first_token : CompletionToken
  first_token = record new_token { op = a.op }

  abbrev handled : World
  handled = with_task ref.ring ref.index (set_awaiting_handle caller) built

  abbrev linked : World
  linked = record handled {
    heap = update built.heap w.next (some (token (record first_token { chain_task = some ref })));
  }

  handled_live : handled.heap w.next ≡ some (token first_token)
  handled_live = ground arith

  linked_queued :
      get_elem? (linked.ring ref.ring).tasks ref.index ≡ some (set_awaiting_handle caller s)
  linked_queued = with_task_self ref.ring ref.index (set_awaiting_handle caller) built built_queued

  abbrev parked : World
  parked = with_task ref.ring ref.index (set_pending true) linked

  pub suspend-ok : suspend lib local a caller (some ref) w ≡ ok w.next parked
  unfolding suspend await_suspend store
  suspend-ok = rw construct-ok (
      rw (set_task_handle-ok caller ref built built_queued) (
        rw (load-ok handled w.next handled_live)
          (rw (set_task_pending-ok true ref linked refl linked_queued) refl)))

  -- A task that stands in its loop awaits an operation on a ring with room for an entry: nothing
  -- fails, the token is live at the next address and belongs to the task, the task is pending and
  -- will go on at the awaiting coroutine, the other tasks are as they were, and the ring was handed
  -- one entry, which carries the token's address.
  pub suspend-Parked :
      Ends (Parked lib local a caller ref s w) (suspend lib local a caller (some ref) w)
  unfolding set_pending set_awaiting_handle
  suspend-Parked = subst (Ends (Parked lib local a caller ref s w)) (sym suspend-ok) (record {
    address = refl;
    token_live = ground arith;
    task = with_task_self ref.ring ref.index (set_pending true) linked linked_queued;
    other_tasks = λ i h.
        with_task_ne ref.ring ref.index (set_pending true) linked i h
        ∙ with_task_ne ref.ring ref.index (set_awaiting_handle caller) built i h
        ∙ ap (λ (l : List (ScheduledTask Coro)). get_elem? l i) built_tasks;
    entries =
        with_task_waiting ref.ring ref.index (set_pending true) linked (target lib local a)
        ∙ with_task_waiting ref.ring ref.index (set_awaiting_handle caller) built
            (target lib local a)
        ∙ with_sqe_waiting lib (target lib local a) (entry w.next a)
            (allocated (token first_token) w);
    other_cells = ground arith;
  })
