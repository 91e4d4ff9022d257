-- ===== src/Io/Ring/Steps.antt =====
-- One equation for each command of World.antt and Ring.antt that can fail, where it does not.
use co_net.Base.{
  length-append, ◌≢◌, get_elem?-modify_self, get_elem?-modify_ne, ==_self, sym, suc, take, drop, ap,
  ◌∙◌, append_assoc, take-append-drop, ℕ, ◌+◌, ◌≡◌, refl, Bool, true, false, Option, none, some,
  List, [], ◌∷◌, ◌++◌, length, get_elem?, modify, arith,
}
use co_net.Base.Int.{ℤ}
use co_net.Async.Scheduled.{ScheduledTask, set_pending}
use co_net.Io.Token.{Op, token, new_token, TaskRef, Coro, Cell}
use co_net.Io.Sqe.{Prep, prep, Flag, flag, Sqe}
use co_net.Io.World.{alloc, World, Ring, Platform, ok, fault, Fault, load, free, update}
use co_net.Io.Ring.{
  submit_all, close_direct_socket, notify_main_ring_release_fd, set_task_pending, put_sqe,
}

module _ (w : World) (p : ℕ) {c : Cell} (live : w.heap p ≡ some c) where
  pub load-ok : load p w ≡ ok c w
  unfolding load
  load-ok = rw (live, load)

  pub free-ok : free p w ≡ ok tt (record w { heap = update w.heap p none })
  unfolding free
  free-ok = rw (live, free)

-- A change to one task of one ring.
module _ (r i : ℕ) (f : ScheduledTask Coro → ScheduledTask Coro) (w : World) where
  abbrev pub with_task : World
  with_task = record w {
    ring = update w.ring r (record (w.ring r) { tasks = modify i f (w.ring r).tasks });
  }

  pub with_task_self :
      {x : ScheduledTask Coro}
      → get_elem? (w.ring r).tasks i ≡ some x
      → get_elem? (with_task.ring r).tasks i ≡ some (f x)
  with_task_self h = rw (==_self r) (get_elem?-modify_self i f (w.ring r).tasks h)

  pub with_task_ne :
      (j : ℕ) → j ≢ i → get_elem? (with_task.ring r).tasks j ≡ get_elem? (w.ring r).tasks j
  with_task_ne j h = rw (==_self r) (get_elem?-modify_ne i j f (w.ring r).tasks h)

  pub with_task_waiting : (q : ℕ) → (with_task.ring q).waiting ≡ (w.ring q).waiting
  with_task_waiting q = ground arith

pub set_task_pending-ok :
    (b : Bool) (ref : TaskRef) {s : ScheduledTask Coro} (w : World) {chain : Option TaskRef}
    → chain ≡ some ref
    → get_elem? (w.ring ref.ring).tasks ref.index ≡ some s
    → set_task_pending b chain w ≡ ok tt (with_task ref.ring ref.index (set_pending b) w)
unfolding set_task_pending
set_task_pending-ok b ref w c queued = ground arith

module _ (lib : Platform) (r : ℕ) (s : Sqe) (w : World) where
  abbrev pub with_sqe : World
  with_sqe = record w {
    ring = update w.ring r (record (w.ring r) { waiting = (w.ring r).waiting ++ s ∷ [] });
  }

  pub put_sqe-ok :
      lib.sqe_free (length (w.ring r).waiting) ≡ true → put_sqe lib r s w ≡ ok tt with_sqe
  unfolding put_sqe
  put_sqe-ok h = rw (h, put_sqe)

  pub with_sqe_tasks : (q : ℕ) → (with_sqe.ring q).tasks ≡ (w.ring q).tasks
  with_sqe_tasks q = ground arith

  pub with_sqe_waiting : (with_sqe.ring r).waiting ≡ (w.ring r).waiting ++ s ∷ []
  with_sqe_waiting = ground arith

  pub with_sqe_length : length (with_sqe.ring r).waiting ≡ length (w.ring r).waiting + 1
  with_sqe_length = rw with_sqe_waiting (length-append (w.ring r).waiting (s ∷ []))

  pub put_sqe-null :
      lib.sqe_free (length (w.ring r).waiting) ≡ false → put_sqe lib r s w ≡ fault Fault.null_sqe
  unfolding put_sqe
  put_sqe-null h = rw (h, put_sqe)

-- Every entry that was ever handed out, in order.
abbrev pub posted : Ring → List Sqe
posted r = r.submitted ++ r.waiting

module _ (lib : Platform) (by r : ℕ) (w : World) where
  abbrev pub flushed : World
  flushed = record w {
    ring = update w.ring r (record (w.ring r) {
      submitted =
          (w.ring r).submitted
          ++ take (lib.accepted by r (length (w.ring r).waiting)) (w.ring r).waiting;
      waiting = drop (lib.accepted by r (length (w.ring r).waiting)) (w.ring r).waiting;
    });
  }

  pub submit_all-ok : submit_all lib by r w ≡ ok tt flushed
  unfolding submit_all
  submit_all-ok = refl

-- A submission loses and reorders nothing.
pub posted-take :
    (n : ℕ) (sent waiting : List Sqe) → (sent ++ take n waiting) ++ drop n waiting ≡ sent ++ waiting
posted-take n sent waiting =
    append_assoc sent (take n waiting) (drop n waiting)
    ∙ ap (◌++◌ sent) (take-append-drop n waiting)

pub posted-flush :
    (n : ℕ) (sent waiting : List Sqe) (s : Sqe)
    → (sent ++ take n (waiting ++ s ∷ [])) ++ drop n (waiting ++ s ∷ [])
      ≡ (sent ++ waiting) ++ s ∷ []
posted-flush n sent waiting s =
    append_assoc sent (take n (waiting ++ s ∷ [])) (drop n (waiting ++ s ∷ []))
    ∙ ap (◌++◌ sent) (take-append-drop n (waiting ++ s ∷ []))
    ∙ sym (append_assoc sent waiting (s ∷ []))

-- What `close_direct_socket` and `notify_main_ring_release_fd` write.
abbrev pub close_sqe : ℤ → Sqe
close_sqe fd = prep (Prep.close_direct fd) ∷ flag Flag.cqe_skip_success ∷ []

abbrev pub release_sqe : ℕ → ℤ → ℕ → Sqe
release_sqe sys fd t = prep (Prep.msg_ring sys fd t) ∷ flag Flag.cqe_skip_success ∷ []

abbrev pub release_token : Cell
release_token = token (record new_token { op = Op.main_ring_close_direct_socket })

abbrev pub allocated : Cell → World → World
allocated c w = record w { heap = update w.heap w.next (some c); next = suc w.next }

module _ (lib : Platform) (by r : ℕ) (fd : ℤ) (w : World)
    (room : lib.sqe_free (length (w.ring r).waiting) ≡ true) where
  pub close_direct_socket-ok :
      close_direct_socket lib by r fd w ≡ ok tt (flushed lib by r (with_sqe lib r (close_sqe fd) w))
  unfolding close_direct_socket
  close_direct_socket-ok =
      rw (put_sqe-ok lib r (close_sqe fd) w room)
        (submit_all-ok lib by r (with_sqe lib r (close_sqe fd) w))

module _ (lib : Platform) (r : ℕ) (fd : ℤ) (w : World)
    (room : lib.sqe_free (length (w.ring r).waiting) ≡ true) where
  pub notify_main_ring_release_fd-ok :
      notify_main_ring_release_fd lib r fd w
      ≡ ok tt (
          flushed lib r r
            (with_sqe lib r (release_sqe lib.sys fd w.next) (allocated release_token w)))
  unfolding notify_main_ring_release_fd alloc
  notify_main_ring_release_fd-ok =
      rw (put_sqe-ok lib r (release_sqe lib.sys fd w.next) (allocated release_token w) room) (
        submit_all-ok lib r r
          (with_sqe lib r (release_sqe lib.sys fd w.next) (allocated release_token w)))
