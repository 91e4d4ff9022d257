-- ===== src/Io/World/Later.antt =====
-- What no operation of a process takes back.
use co_net.Base.{
  ◌⊎◌, ◌<◌, ◌≢◌, ℕ, ◌≤◌, ◌≡◌, refl, sym, ap, ◌∙◌, true, Option, none, some, List, [], ◌++◌, map,
  arith, append-nil, append_assoc, inl, inr,
}
use co_net.Async.Scheduled.{ScheduledTask}
use co_net.Io.Token.{Coro, Cell}
use co_net.Io.Sqe.{Sqe}
use co_net.Context.Workers.Picks.{CanPick}
use co_net.Io.World.{update_ne, World, Ring, update}

-- The coroutine that a place of a task loop was made for.
abbrev pub owner : ScheduledTask Coro → Coro
owner t = t.task

-- Tasks keep their places, entries and completions are only added, and a stop is for good.
pub record RingLater (x y : Ring) : Type 0 where
  pub tasks : (l : List Coro) × (map owner y.tasks ≡ map owner x.tasks ++ l)
  pub entries : (l : List Sqe) × (y.submitted ++ y.waiting ≡ (x.submitted ++ x.waiting) ++ l)
  pub consumed : x.consumed ≤ y.consumed
  pub stopped : x.stopped ≡ true → y.stopped ≡ true

-- Nothing lies at the addresses that have not been given out.
abbrev pub IsFresh : World → Type 0
IsFresh w = (p : ℕ) → w.next ≤ p → w.heap p ≡ none

-- Memory has changed at most at `o` and at the addresses from `n` on.
pub record LaterBut (o n : ℕ) (w w' : World) : Type 0 where
  pub rings : (r : ℕ) → RingLater (w.ring r) (w'.ring r)
  pub next : w.next ≤ w'.next
  pub fresh : IsFresh w → IsFresh w'
  pub halted : w.sys_loop.stopped ≡ true → w'.sys_loop.stopped ≡ true
  pub requested : w.sys_loop.stop_requested ≡ true → w'.sys_loop.stop_requested ≡ true
  pub picks : CanPick w.sys_loop → CanPick w'.sys_loop
  pub workers : w'.sys_loop.uring_fds ≡ w.sys_loop.uring_fds
  pub gone : (p : ℕ) → p < w.next → w.heap p ≡ none → w'.heap p ≡ none
  pub frame : (p : ℕ) → p ≢ o → p < n → w'.heap p ≡ w.heap p

-- With no claim on what memory holds.
abbrev pub Later : World → World → Type 0
Later = LaterBut 0 0

pub RingLater-refl : (x : Ring) → RingLater x x
RingLater-refl x = record {
  tasks = ([], sym (append-nil _));
  entries = ([], sym (append-nil _));
  consumed = omega arith;
  stopped = λ h. h;
}

pub RingLater-trans : (x y z : Ring) → RingLater x y → RingLater y z → RingLater x z
RingLater-trans x y z a b = record {
  tasks = (
    a.tasks.0 ++ b.tasks.0,
    b.tasks.1
        ∙ ap (λ (l : List Coro). l ++ b.tasks.0) a.tasks.1
        ∙ append_assoc (map owner x.tasks) a.tasks.0 b.tasks.0,
  );
  entries = (
    a.entries.0 ++ b.entries.0,
    b.entries.1
        ∙ ap (λ (l : List Sqe). l ++ b.entries.0) a.entries.1
        ∙ append_assoc (x.submitted ++ x.waiting) a.entries.0 b.entries.0,
  );
  consumed = omega (arith, a.consumed, b.consumed);
  stopped = λ h. b.stopped (a.stopped h);
}

pub Later-refl : {o n : ℕ} (w : World) → LaterBut o n w w
Later-refl w = record {
  rings = λ r. RingLater-refl (w.ring r);
  next = omega arith;
  fresh = λ f. f;
  halted = λ h. h;
  requested = λ h. h;
  picks = λ c. c;
  workers = refl;
  gone = λ p h e. e;
  frame = λ p h k. refl;
}

pub Later-trans : {o n : ℕ} (u v w : World) → LaterBut o n u v → LaterBut o n v w → LaterBut o n u w
Later-trans u v w a b = record {
  rings = λ r. RingLater-trans (u.ring r) (v.ring r) (w.ring r) (a.rings r) (b.rings r);
  next = omega (arith, a.next, b.next);
  fresh = λ f. b.fresh (a.fresh f);
  halted = λ h. b.halted (a.halted h);
  requested = λ h. b.requested (a.requested h);
  picks = λ c. b.picks (a.picks c);
  workers = b.workers ∙ a.workers;
  gone = λ p h e. b.gone p (omega (arith, h, a.next)) (a.gone p h e);
  frame = λ p h k. b.frame p h k ∙ a.frame p h k;
}

-- An address that may change.
abbrev pub Touches : ℕ → ℕ → ℕ → Type 0
Touches o n p = (p ≡ o) ⊎ (n ≤ p)

-- A cell in use that is written or freed.
pub heap-Later :
    {o n : ℕ} (p : ℕ) (c : Option Cell) (w : World) {old : Cell}
    → Touches o n p
    → w.heap p ≡ some old
    → LaterBut o n w (record w { heap = update w.heap p c })
heap-Later {o} {n} p c w h live = record {
  rings = λ r. RingLater-refl (w.ring r);
  next = omega arith;
  fresh = λ f q l. ground (arith, f q l);
  halted = λ k. k;
  requested = λ k. k;
  picks = λ k. k;
  workers = refl;
  gone = λ q l e. update_ne w.heap p q c (used q e) ∙ e;
  frame = λ q ne below. update_ne w.heap p q c (apart q ne below h);
}
  where
    empty : w.heap p ≢ none
    empty e = cc

    used : (q : ℕ) → w.heap q ≡ none → q ≢ p
    used q e k = absurd (empty (ap w.heap (sym k) ∙ e))

    apart : (q : ℕ) → q ≢ o → q < n → Touches o n p → q ≢ p
    apart q ne below (inl e) = λ k. ne (k ∙ e)
    apart q ne below (inr l) = λ k. absurd (omega (arith, k, l, below))
