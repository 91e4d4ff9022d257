-- ===== src/Io/Tickets/Quiet.antt =====
-- The commands that ask for no completion.
use co_net.Base.{
  ℕ, zero, suc, ◌+◌, ◌≡◌, ◌∙◌, refl, ap, sym, Bool, true, false, Option, none, some, List, [], ◌∷◌,
  ◌++◌, append_assoc, append-nil, arith, if◌then◌else◌, ==_self, ==_ne, get_elem?, modify, take,
  drop, length, Option-cases, Bool-cases, inl, inr,
}
use native.Mathlib.Decide.{ℕ_discrete}
use co_net.Base.Int.{ℤ, is_neg}
use co_net.Async.Scheduled.{ScheduledTask, schedule, set_pending, set_awaiting_handle}
use co_net.Net.Connection.{TcpConnection}
use co_net.Io.Token.{Coro, Cell, TaskRef, Func, token, task_msg, conn_msg, macc_msg}
use co_net.Io.Sqe.{Sqe}
use co_net.Io.World.{
  World, Ring, Platform, Run, ok, fault, M, Fault, and_then, ◌>>=◌, ◌>>◌, pure, stop, update, load,
  store, free, get_ring, put_ring, cast_token,
}
use co_net.Io.World.Later.{LaterBut}
use co_net.Io.World.Keeps.{After, Keeps, at}
use co_net.Io.Ring.Steps.{posted-take}
use co_net.Io.Ring.{
  enqueue, consume, set_task_pending, put_sqe, submit_all, close_direct_socket, destroy,
}
use co_net.Io.Handler.{push_awaiting, invoke, destroy_each, start_each}
use co_net.Io.Await.{set_task_handle, pending_suspend}
use co_net.Io.Tickets.{Ticket, issued, tickets, recurs, sent, tickets_of, tickets_of-append}
use co_net.Io.Tickets.Posts.{Silent, Posts, Posts-silent, Posting, posting}

pub data Quiet {A : Type 0} (m : M A) : Type 0 where
  quiet : ((w : World) → After (Silent w) (m w)) → Quiet m

pub silent : {A : Type 0} {m : M A} → Quiet m → (w : World) → After (Silent w) (m w)
silent (quiet h) = h

pub Posting-Quiet :
    {o r : ℕ} {A : Type 0} (m : M A) → ((n : ℕ) → Keeps o n m) → Quiet m → Posting o r m
Posting-Quiet {o} {r} {A} m k h =
    posting λ w old. go w (m w) (at (k w.next) w (omega arith)) (silent h w)
  where
    go :
        (w : World) (x : Run A)
        → After (LaterBut o w.next w) x
        → After (Silent w) x
        → After (Posts o r w) x
    go w (ok a v) l s = Posts-silent w v l s
    go w (fault e) l s = tt

pub Quiet-bind :
    {A B : Type 0} (m : M A) (k : A → M B) → Quiet m → ((a : A) → Quiet (k a)) → Quiet (m >>= k)
Quiet-bind {A} {B} m k h next = quiet λ w. go w (m w) (silent h w)
  where
    then_go : (u v : World) → Silent u v → (x : Run B) → After (Silent v) x → After (Silent u) x
    then_go u v s (ok b w) t = λ q. t q ∙ s q
    then_go u v s (fault e) t = tt

    go : (w : World) (x : Run A) → After (Silent w) x → After (Silent w) (and_then x k)
    go w (ok a v) s = then_go w v s (k a v) (silent (next a) v)
    go w (fault e) s = tt

pub Quiet-then : {A B : Type 0} (m : M A) (k : M B) → Quiet m → Quiet k → Quiet (m >> k)
Quiet-then m k h l = Quiet-bind m (λ _. k) h λ _. l

pub Quiet-pure : {A : Type 0} (a : A) → Quiet {A = A} (pure a)
Quiet-pure a = quiet λ w q. refl

pub Quiet-stop : {A : Type 0} (e : Fault) → Quiet {A = A} (stop e)
Quiet-stop e = quiet λ w. tt

pub Quiet-if : {A : Type 0} (b : Bool) (m k : M A) → Quiet m → Quiet k → Quiet (if b then m else k)
Quiet-if true m k h l = h
Quiet-if false m k h l = l

pub Quiet-get_ring : (r : ℕ) → Quiet (get_ring r)
Quiet-get_ring r = quiet λ w q. refl

pub put_ring-Silent :
    (r : ℕ) (x : Ring) (w : World)
    → ((q : ℕ) → issued q x ≡ issued q (w.ring r))
    → Silent w (record w { ring = update w.ring r x })
put_ring-Silent r x w h = λ q. elim (ℕ_discrete q r) [
  | yes e ↦ rw e (rw (==_self r) (h r))
  | no ne ↦ rw (==_ne q r ne) refl
]

pub Quiet-change :
    (r : ℕ) (f : Ring → Ring)
    → ((q : ℕ) (x : Ring) → issued q (f x) ≡ issued q x)
    → Quiet (get_ring r >>= λ x. put_ring r (f x))
Quiet-change r f h = quiet λ w. put_ring-Silent r (f (w.ring r)) w λ q. h q (w.ring r)

pub Quiet-load : (p : ℕ) → Quiet (load p)
unfolding load
Quiet-load p = quiet λ w. elim (Option-cases (w.heap p)) [
  | inl e ↦ rw (e, load) tt
  | inr (c, e) ↦ rw (e, load) λ q. refl
]

pub Quiet-free : (p : ℕ) → Quiet (free p)
unfolding free
Quiet-free p = quiet λ w. elim (Option-cases (w.heap p)) [
  | inl e ↦ rw (e, free) tt
  | inr (c, e) ↦ rw (e, free) λ q. refl
]

pub Quiet-store : (p : ℕ) (c : Cell) → Quiet (store p c)
unfolding store
Quiet-store p c = quiet λ w q. refl

pub Quiet-cast_token : (c : Cell) → Quiet (cast_token c)
Quiet-cast_token (token t) = Quiet-pure t
Quiet-cast_token (task_msg _) = Quiet-stop _
Quiet-cast_token (conn_msg _ _) = Quiet-stop _
Quiet-cast_token (macc_msg _ _) = Quiet-stop _

pub Quiet-enqueue : (this : ℕ) (c : Coro) → Quiet (enqueue this c)
unfolding enqueue
Quiet-enqueue this c =
    Quiet-change this (λ r. record r { tasks = r.tasks ++ schedule c ∷ [] }) λ q x. refl

pub Quiet-consume : (this m : ℕ) → Quiet (consume this m)
unfolding consume
Quiet-consume this m = Quiet-change this (λ r. record r { consumed = r.consumed + m }) λ q x. refl

Quiet-modify :
    (t : TaskRef) (f : ScheduledTask Coro → ScheduledTask Coro)
    → Quiet (
        get_ring t.ring >>= λ r. elim (get_elem? r.tasks t.index) [
          | none ↦ stop {A = Unit {0}} Fault.dangling
          | some _ ↦ put_ring t.ring (record r { tasks = modify t.index f r.tasks })
        ])
Quiet-modify t f = quiet λ w.
    found w (get_elem? (w.ring t.ring).tasks t.index)
      (put_ring t.ring (record (w.ring t.ring) { tasks = modify t.index f (w.ring t.ring).tasks }))
      (put_ring-Silent t.ring _ w λ q. refl)
  where
    found :
        (w : World) (x : Option (ScheduledTask Coro)) (m : M (Unit {0}))
        → After (Silent w) (m w)
        → After (Silent w) (
            (elim x as (λ _. M (Unit {0})) [
              | none ↦ stop {A = Unit {0}} Fault.dangling
              | some _ ↦ m
            ])
              w)
    found w none m h = tt
    found w (some u) m h = h

pub Quiet-set_task_pending : (p : Bool) (chain : Option TaskRef) → Quiet (set_task_pending p chain)
unfolding set_task_pending
Quiet-set_task_pending p none = Quiet-stop Fault.null_task
Quiet-set_task_pending p (some t) = Quiet-modify t (set_pending p)

pub Quiet-set_task_handle :
    (caller : Coro) (chain : Option TaskRef) → Quiet (set_task_handle caller chain)
unfolding set_task_handle
Quiet-set_task_handle caller none = Quiet-stop Fault.null_task
Quiet-set_task_handle caller (some t) = Quiet-modify t (set_awaiting_handle caller)

pub Quiet-pending_suspend :
    (caller : Coro) (chain : Option TaskRef) → Quiet (pending_suspend caller chain)
unfolding pending_suspend
Quiet-pending_suspend caller chain =
    Quiet-then _ _ (Quiet-set_task_handle caller chain) (Quiet-set_task_pending true chain)

pub Quiet-push_awaiting : (this : ℕ) (fd : ℤ) → Quiet (push_awaiting this fd)
unfolding push_awaiting
Quiet-push_awaiting this fd = quiet λ w. elim (Bool-cases (is_neg fd)) [
  | inl e ↦ rw e λ q. refl
  | inr e ↦ rw e (put_ring-Silent this _ w λ q. refl)
]

pub Quiet-invoke : (f : Func) (c : TcpConnection) → Quiet (invoke f c)
Quiet-invoke none c = Quiet-stop _
Quiet-invoke (some f) c = Quiet-pure _

-- What an entry more adds to a ring's.
pub issued-entry :
    (q : ℕ) (x : Ring) (s : Sqe)
    → issued q (record x { waiting = x.waiting ++ s ∷ [] }) ≡ issued q x ++ tickets q s
unfolding tickets_of
issued-entry q x s =
    ap (tickets_of q) (sym (append_assoc x.submitted x.waiting (s ∷ [])))
    ∙ tickets_of-append q (x.submitted ++ x.waiting) (s ∷ [])
    ∙ ap (λ (l : List Ticket). issued q x ++ l) (append-nil (tickets q s))

module _ (lib : Platform) where
  pub Quiet-submit_all : (by this : ℕ) → Quiet (submit_all lib by this)
  unfolding submit_all
  Quiet-submit_all by this =
      Quiet-change this
        (λ r. record r {
          submitted = r.submitted ++ take (lib.accepted by this (length r.waiting)) r.waiting;
          waiting = drop (lib.accepted by this (length r.waiting)) r.waiting;
        })
        λ q r. ap (tickets_of q) (posted-take _ r.submitted r.waiting)

  -- An entry that asks for no completion.
  pub Quiet-put_sqe :
      (this : ℕ) (s : Sqe) → ((q : ℕ) → tickets q s ≡ []) → Quiet (put_sqe lib this s)
  unfolding put_sqe
  Quiet-put_sqe this s h = quiet λ w.
      elim (Bool-cases (lib.sqe_free (length (w.ring this).waiting))) [
        | inl e ↦ rw e (
            put_ring-Silent this _ w λ q.
              issued-entry q (w.ring this) s
              ∙ ap (λ (l : List Ticket). issued q (w.ring this) ++ l) (h q)
              ∙ append-nil _)
        | inr e ↦ rw e tt
      ]

  pub Quiet-close_direct_socket :
      (by this : ℕ) (fd : ℤ) → Quiet (close_direct_socket lib by this fd)
  unfolding close_direct_socket tickets recurs sent
  Quiet-close_direct_socket by this fd =
      Quiet-then _ _ (Quiet-put_sqe this _ λ q. refl) (Quiet-submit_all by this)

  pub Quiet-destroy : (local : ℕ) (c : TcpConnection) → Quiet (destroy lib local c)
  unfolding destroy
  Quiet-destroy local c =
      Quiet-if _ _ _ (Quiet-close_direct_socket local lib.sys c.socket)
        (Quiet-if _ _ _ (Quiet-pure tt) (Quiet-close_direct_socket local local c.socket))

  pub Quiet-destroy_each : (local n : ℕ) (c : TcpConnection) → Quiet (destroy_each lib local n c)
  unfolding destroy_each
  Quiet-destroy_each local zero c = Quiet-pure tt
  Quiet-destroy_each local (suc n) c =
      Quiet-then _ _ (Quiet-destroy local c) (Quiet-destroy_each local n c)

  pub Quiet-start_each :
      (this : ℕ) (func : Func) (fds : List ℤ) → Quiet (start_each lib this func fds)
  unfolding start_each
  Quiet-start_each this func [] = Quiet-pure tt
  Quiet-start_each this func (fd ∷ fds) = Quiet-bind _ _ (Quiet-invoke func _) λ c.
      Quiet-then _ _ (Quiet-destroy_each this (suc lib.call_moves) _)
        (Quiet-then _ _ (Quiet-enqueue this c) (Quiet-start_each this func fds))
