-- ===== src/Io/Handler/Matching.antt =====
-- The completions that a ring can take: each names memory in use, of the kind that its handler reads.
use co_net.Base.{
  ℕ, suc, ◌<◌, ◌≡◌, ◌≢◌, refl, ap, ◌∙◌, Bool, true, false, Option, some, List, [], ◌∷◌, map, length,
  length-append, get_elem?, get_elem?-some, lt-length_of_get_elem?, arith,
}
use co_net.Io.World.Later.{LaterBut, owner}
use co_net.Async.Scheduled.{ScheduledTask}
use co_net.Io.Token.{
  CompletionToken, Coro, Op, Func, Cell, TaskRef, token, task_msg, conn_msg, macc_msg, ring_task,
  ring_func_task, multi_acc_task, to_int,
}
use co_net.Base.Int.{ℤ}
use co_net.Io.Sqe.{Cqe, has_task}
use co_net.Io.World.{World, Platform}

-- Whether the handler of an operation's token resumes the token's task.
unfoldable pub by_task : Op → Bool
by_task Op.sync_close_direct = false
by_task Op.quit = false
by_task Op.cancel_any = false
by_task Op.ring_task = false
by_task Op.ring_fd_sender = false
by_task Op.ring_fd_receiver = false
by_task Op.main_ring_close_direct_socket = false
by_task Op.multishot_accept_fd_receiver = false
by_task _ = true

-- The task stands in its loop.
pub record HasTask (w : World) (chain : Option TaskRef) : Type 0 where
  pub ref : TaskRef
  pub named : chain ≡ some ref
  pub found : ScheduledTask Coro
  pub queued : get_elem? (w.ring ref.ring).tasks ref.index ≡ some found

pub data Matching (w : World) (cqe : Cqe) : Type 0 where
  task :
      (c : Coro)
      → has_task cqe.flags ≡ true
      → cqe.res ≡ to_int ring_task
      → w.heap cqe.user_data ≡ some (task_msg c)
      → Matching w cqe
  conn :
      (f : Func) (fd : ℤ)
      → has_task cqe.flags ≡ true
      → cqe.res ≡ to_int ring_func_task
      → w.heap cqe.user_data ≡ some (conn_msg f fd)
      → Matching w cqe
  macc :
      (op : Op) (f : Func)
      → has_task cqe.flags ≡ true
      → cqe.res ≡ to_int multi_acc_task
      → w.heap cqe.user_data ≡ some (macc_msg op f)
      → Matching w cqe
  own :
      (t : CompletionToken)
      → has_task cqe.flags ≡ false
      → cqe.user_data ≢ 0
      → w.heap cqe.user_data ≡ some (token t)
      → t.op ≢ Op.multishot_accept
      → (by_task t.op ≡ true → HasTask w t.chain_task)
      → Matching w cqe

-- A completion of the multishot accept: its token is the static one, and belongs to a task.
pub record Accepting (lib : Platform) (w : World) (cqe : Cqe) : Type 0 where
  pub unmarked : has_task cqe.flags ≡ false
  pub not_null : lib.multishot_token ≢ 0
  pub here : cqe.user_data ≡ lib.multishot_token
  pub static : CompletionToken
  pub live : w.heap lib.multishot_token ≡ some (token static)
  pub op : static.op ≡ Op.multishot_accept
  pub waits : HasTask w static.chain_task

length-map : {A B : Type 0} (f : A → B) (xs : List A) → length (map f xs) ≡ length xs
length-map f [] = refl
length-map f (x ∷ xs) = ap suc (length-map f xs)

-- A task stays in its loop.
pub HasTask-Later :
    {o n : ℕ} (w w' : World) (chain : Option TaskRef)
    → LaterBut o n w w'
    → HasTask w chain
    → HasTask w' chain
HasTask-Later w w' chain l h =
    let (more, e) = (l.rings h.ref.ring).tasks in
    let (u, queued) = get_elem?-some (w'.ring h.ref.ring).tasks h.ref.index (
      omega (
        arith,
        lt-length_of_get_elem? (w.ring h.ref.ring).tasks h.ref.index h.queued,
        length-map owner (w.ring h.ref.ring).tasks,
        length-map owner (w'.ring h.ref.ring).tasks,
        ap length e,
        length-append (map owner (w.ring h.ref.ring).tasks) more,
      )) in
    record { ref = h.ref; named = h.named; found = u; queued = queued }

-- A completion still matches after what has left its memory alone.
pub Matching-Later :
    {o n : ℕ} (w w' : World) (cqe : Cqe)
    → LaterBut o n w w'
    → cqe.user_data ≢ o
    → cqe.user_data < n
    → Matching w cqe
    → Matching w' cqe
Matching-Later w w' cqe l ne below (task c marked res live) =
    task c marked res (l.frame cqe.user_data ne below ∙ live)
Matching-Later w w' cqe l ne below (conn f fd marked res live) =
    conn f fd marked res (l.frame cqe.user_data ne below ∙ live)
Matching-Later w w' cqe l ne below (macc op f marked res live) =
    macc op f marked res (l.frame cqe.user_data ne below ∙ live)
Matching-Later w w' cqe l ne below (own t unmarked not_null live op waits) =
    own t unmarked not_null (l.frame cqe.user_data ne below ∙ live) op
      λ h. HasTask-Later w w' t.chain_task l (waits h)

pub Matching-live :
    (w : World) (cqe : Cqe) → Matching w cqe → (c : Cell) × (w.heap cqe.user_data ≡ some c)
Matching-live w cqe (task c marked res live) = (_, live)
Matching-live w cqe (conn f fd marked res live) = (_, live)
Matching-live w cqe (macc op f marked res live) = (_, live)
Matching-live w cqe (own t unmarked not_null live op waits) = (_, live)
