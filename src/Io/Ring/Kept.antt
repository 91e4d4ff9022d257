-- ===== src/Io/Ring/Kept.antt =====
-- No method that submits, queues or closes takes anything back.
use co_net.Base.{
  ℕ, suc, zero, ◌+◌, if◌then◌else◌, ◌≡◌, refl, sym, ap, ◌∙◌, Bool, true, false, Option, none, some,
  List, [], ◌∷◌, ◌++◌, map, take, drop, length, modify, get_elem?, arith, append-nil, append_assoc,
  map-append,
}
use co_net.Base.Int.{ℤ}
use co_net.Async.Scheduled.{ScheduledTask, schedule, set_pending}
use co_net.Io.Token.{Coro, TaskRef}
use co_net.Io.Sqe.{Sqe}
use co_net.Io.World.{World, Ring, Platform, M, Fault, get_ring, put_ring, stop, ◌>>=◌}
use co_net.Io.World.Later.{owner, RingLater, LaterBut}
use co_net.Io.World.Keeps.{
  After, Keeps, keeps, Keeps-bind, Keeps-then, Keeps-pure, Keeps-stop, Keeps-if, Keeps-change,
  Keeps-alloc, put_ring-Later,
}
use co_net.Net.Connection.{TcpConnection}
use co_net.Io.Ring.{
  enqueue, set_task_pending, consume, put_sqe, submit_all, notify_main_ring_release_fd,
  close_direct_socket, notify_workers_to_stop, notify_self_quit, destroy,
}
use co_net.Io.Ring.Steps.{posted-take}

more_tasks : (x : Ring) (c : Coro) → RingLater x (record x { tasks = x.tasks ++ schedule c ∷ [] })
unfolding schedule
more_tasks x c = record {
  tasks = (c ∷ [], map-append owner x.tasks _);
  entries = ([], sym (append-nil _));
  consumed = omega arith;
  stopped = λ h. h;
}

modify-owner :
    (i : ℕ) (f : ScheduledTask Coro → ScheduledTask Coro) (ts : List (ScheduledTask Coro))
    → ((t : ScheduledTask Coro) → owner (f t) ≡ owner t)
    → map owner (modify i f ts) ≡ map owner ts
modify-owner i f [] h = refl
modify-owner zero f (t ∷ ts) h = rw (h t) refl
modify-owner (suc i) f (t ∷ ts) h = ap (λ (l : List Coro). owner t ∷ l) (modify-owner i f ts h)

pub modify-RingLater :
    (i : ℕ) (f : ScheduledTask Coro → ScheduledTask Coro) (x : Ring)
    → ((u : ScheduledTask Coro) → owner (f u) ≡ owner u)
    → RingLater x (record x { tasks = modify i f x.tasks })
modify-RingLater i f x h = record {
  tasks = ([], modify-owner i f x.tasks h ∙ sym (append-nil _));
  entries = ([], sym (append-nil _));
  consumed = omega arith;
  stopped = λ q. q;
}

module _ {o n : ℕ} where
  pub Keeps-enqueue : (this : ℕ) (c : Coro) → Keeps o n (enqueue this c)
  unfolding enqueue
  Keeps-enqueue this c =
      Keeps-change this (λ r. record r { tasks = r.tasks ++ schedule c ∷ [] }) λ r. more_tasks r c

  pub Keeps-consume : (this m : ℕ) → Keeps o n (consume this m)
  unfolding consume
  Keeps-consume this m =
      Keeps-change this (λ r. record r { consumed = r.consumed + m })
        λ r. record {
          tasks = ([], sym (append-nil _));
          entries = ([], sym (append-nil _));
          consumed = omega arith;
          stopped = λ h. h;
        }

  -- A change of one task that keeps whose it is.
  pub Keeps-modify :
      (t : TaskRef) (f : ScheduledTask Coro → ScheduledTask Coro)
      → ((u : ScheduledTask Coro) → owner (f u) ≡ owner u)
      → Keeps o n (
          get_ring t.ring >>= λ r. elim (get_elem? r.tasks t.index) [
            | none ↦ stop {A = Unit {0}} Fault.dangling
            | some _ ↦ put_ring t.ring (record r { tasks = modify t.index f r.tasks })
          ])
  Keeps-modify t f h = keeps λ w le.
      After-found w (get_elem? (w.ring t.ring).tasks t.index)
        (put_ring t.ring
          (record (w.ring t.ring) { tasks = modify t.index f (w.ring t.ring).tasks }))
        (put_ring-Later t.ring _ w (modify-RingLater t.index f (w.ring t.ring) h))
    where
      After-found :
          (w : World) (found : Option (ScheduledTask Coro)) (m : M (Unit {0}))
          → After (LaterBut o n w) (m w)
          → After (LaterBut o n w) (
              (elim found as (λ _. M (Unit {0})) [
                | none ↦ stop {A = Unit {0}} Fault.dangling
                | some _ ↦ m
              ])
                w)
      After-found w none m h = tt
      After-found w (some u) m h = h

  pub Keeps-set_task_pending :
      (p : Bool) (chain : Option TaskRef) → Keeps o n (set_task_pending p chain)
  unfolding set_task_pending set_pending
  Keeps-set_task_pending p none = Keeps-stop Fault.null_task
  Keeps-set_task_pending p (some t) = Keeps-modify t (set_pending p) λ u. refl

  module _ (lib : Platform) where
    pub Keeps-put_sqe : (this : ℕ) (writes : Sqe) → Keeps o n (put_sqe lib this writes)
    unfolding put_sqe
    Keeps-put_sqe this writes = keeps λ w le.
        After-if w (lib.sqe_free (length (w.ring this).waiting))
          (put_ring this (record (w.ring this) { waiting = (w.ring this).waiting ++ writes ∷ [] }))
          (put_ring-Later this _ w (record {
            tasks = ([], sym (append-nil _));
            entries = (writes ∷ [], sym (append_assoc (w.ring this).submitted _ _));
            consumed = omega arith;
            stopped = λ q. q;
          }))
      where
        After-if :
            (w : World) (b : Bool) (m : M (Unit {0}))
            → After (LaterBut o n w) (m w)
            → After (LaterBut o n w) ((if b then m else stop Fault.null_sqe) w)
        After-if w true m h = h
        After-if w false m h = tt

    pub Keeps-submit_all : (by this : ℕ) → Keeps o n (submit_all lib by this)
    unfolding submit_all
    Keeps-submit_all by this =
        Keeps-change this
          (λ r. record r {
            submitted = r.submitted ++ take (lib.accepted by this (length r.waiting)) r.waiting;
            waiting = drop (lib.accepted by this (length r.waiting)) r.waiting;
          })
          λ r. record {
            tasks = ([], sym (append-nil _));
            entries = ([], posted-take _ r.submitted r.waiting ∙ sym (append-nil _));
            consumed = omega arith;
            stopped = λ q. q;
          }

    pub Keeps-close_direct_socket :
        (by this : ℕ) (fd : ℤ) → Keeps o n (close_direct_socket lib by this fd)
    unfolding close_direct_socket
    Keeps-close_direct_socket by this fd =
        Keeps-then _ _ (Keeps-put_sqe this _) (Keeps-submit_all by this)

    pub Keeps-notify_main_ring_release_fd :
        (this : ℕ) (fd : ℤ) → Keeps o n (notify_main_ring_release_fd lib this fd)
    unfolding notify_main_ring_release_fd
    Keeps-notify_main_ring_release_fd this fd =
        Keeps-bind _ _ (Keeps-alloc _)
          λ t. Keeps-then _ _ (Keeps-put_sqe this _) (Keeps-submit_all this this)

    pub Keeps-notify_workers_to_stop :
        (this : ℕ) (fds : List ℕ) → Keeps o n (notify_workers_to_stop lib this fds)
    unfolding notify_workers_to_stop
    Keeps-notify_workers_to_stop this [] = Keeps-pure tt
    Keeps-notify_workers_to_stop this (fd ∷ fds) =
        Keeps-bind _ _ (Keeps-alloc _)
          λ t. Keeps-then _ _ (Keeps-put_sqe this _) (Keeps-notify_workers_to_stop this fds)

    pub Keeps-notify_self_quit : (this : ℕ) → Keeps o n (notify_self_quit lib this)
    unfolding notify_self_quit
    Keeps-notify_self_quit this = Keeps-bind _ _ (Keeps-alloc _) λ t. Keeps-put_sqe this _

    pub Keeps-destroy : (local : ℕ) (c : TcpConnection) → Keeps o n (destroy lib local c)
    unfolding destroy
    Keeps-destroy local c =
        Keeps-if _ _ _ (Keeps-close_direct_socket local lib.sys c.socket)
          (Keeps-if _ _ _ (Keeps-pure tt) (Keeps-close_direct_socket local local c.socket))
