-- ===== src/Io/Tickets/Drafts.antt =====
-- How a command that sends is put together: memory first, then the entries that name it.
use co_net.Base.{
  ℕ, ◌<◌, ◌≤◌, ◌≡◌, ◌≢◌, ◌∙◌, refl, ap, sym, true, false, some, List, [], ◌++◌, arith, ==_self,
  ==_ne, length, subst, Bool-cases, inl, inr,
}
use co_net.Base.Int.{ℤ}
use co_net.Io.Token.{
  CompletionToken, Op, Cell, Coro, Func, token, task_msg, conn_msg, macc_msg, ring_task,
  ring_func_task, multi_acc_task, to_int,
}
use co_net.Io.Sqe.{Sqe}
use co_net.Io.World.{World, Platform, Run, ok, fault, M, and_then, alloc}
use co_net.Io.World.Later.{LaterBut, Later-refl, Later-trans}
use co_net.Io.World.Keeps.{After, Keeps, at, Keeps-alloc}
use co_net.Io.Ring.{put_sqe}
use co_net.Io.Ring.Kept.{Keeps-put_sqe}
use co_net.Io.Ring.Steps.{with_sqe, allocated, put_sqe-ok, put_sqe-null}
use co_net.Io.Handler.Matching.{task, conn, macc, own, by_task, HasTask}
use co_net.Io.Tickets.{Ticket, tickets, Each, Apart, Sound, Each-append, Each-mono}
use co_net.Io.Tickets.Posts.{
  Silent, Issued, Posts, Posts-silent, Posts-trans, Silent-Issued, Issued-trans, Sound-Later,
  Later-weaken,
}
use co_net.Io.Tickets.Quiet.{Quiet, silent, issued-entry}

-- What has been sent since `w`.
pub record Drafted (o r : ℕ) (new : List Ticket) (w v : World) : Type 0 where
  pub later : LaterBut o w.next w v
  pub adds : Issued r new w v
  pub sound : Each (Sound w.next v) new

pub Drafted-refl : {o r : ℕ} (w : World) → Drafted o r [] w w
Drafted-refl w = record { later = Later-refl w; adds = Silent-Issued _ w w (λ q. refl); sound = tt }

-- After what changes neither old memory nor entries.
pub Drafted-step :
    {o r : ℕ} {new more : List Ticket} (w v u : World)
    → o < w.next
    → Drafted o r new w v
    → LaterBut o v.next v u
    → Issued r more v u
    → Each (Sound w.next u) more
    → Drafted o r (new ++ more) w u
Drafted-step {o} {r} {new} {more} w v u old d l i s = record {
  later = Later-trans w v u d.later (Later-weaken v.next w.next v u d.later.next l);
  adds = Issued-trans r new more w v u d.adds i;
  sound =
      Each-append (Sound w.next u) new more
        (Each-mono (Sound w.next v) (Sound w.next u) new
          (λ t h.
            Sound-Later w.next w.next v u t l (λ e. absurd (omega (arith, e, h.above, old))) h.below
              (omega arith) h)
          d.sound)
        s;
}

with_sqe-Later :
    {p n : ℕ} (lib : Platform) (r : ℕ) (s : Sqe) (v : World)
    → lib.sqe_free (length (v.ring r).waiting) ≡ true
    → n ≤ v.next
    → LaterBut p n v (with_sqe lib r s v)
with_sqe-Later {p} {n} lib r s v free le =
    subst (After (LaterBut p n v)) (put_sqe-ok lib r s v free) (at (Keeps-put_sqe lib r s) v le)

module _ (lib : Platform) {o r : ℕ} where
  Drafted-with_sqe :
      {new : List Ticket} (s : Sqe) (w v : World)
      → o < w.next
      → lib.sqe_free (length (v.ring r).waiting) ≡ true
      → Each (Sound w.next v) (tickets r s)
      → Drafted o r new w v
      → Drafted o r (new ++ tickets r s) w (with_sqe lib r s v)
  Drafted-with_sqe s w v old free sound d =
      Drafted-step w v (with_sqe lib r s v) old d (with_sqe-Later lib r s v free (omega arith))
        (record {
          here = rw (==_self r) (issued-entry r (v.ring r) s);
          there = λ q ne. rw (==_ne q r ne) refl;
        })
        (Each-mono (Sound w.next v) (Sound w.next (with_sqe lib r s v)) (tickets r s)
          (λ t h.
            Sound-Later {o = v.next} {n = v.next} w.next w.next v (with_sqe lib r s v) t
              (with_sqe-Later lib r s v free (omega arith))
              (λ e. absurd (omega (arith, e, h.below))) h.below (omega arith) h)
          sound)

  -- An entry, and what follows where there is room for it.
  pub After-put_sqe :
      {B : Type 0} {new : List Ticket} (s : Sqe) (w v : World) (k : Unit {0} → M B)
      → o < w.next
      → Each (Sound w.next v) (tickets r s)
      → Drafted o r new w v
      → (Drafted o r (new ++ tickets r s) w (with_sqe lib r s v)
          → After (Posts o r w) (k tt (with_sqe lib r s v)))
      → After (Posts o r w) (and_then (put_sqe lib r s v) k)
  After-put_sqe s w v k old sound d next =
      elim (Bool-cases (lib.sqe_free (length (v.ring r).waiting))) [
        | inl e ↦ rw (put_sqe-ok lib r s v e) (next (Drafted-with_sqe s w v old e sound d))
        | inr e ↦ rw (put_sqe-null lib r s v e) tt
      ]

  -- The last entry.
  pub End-put_sqe :
      {new : List Ticket} (s : Sqe) (w v : World)
      → o < w.next
      → Each (Sound w.next v) (tickets r s)
      → Apart (new ++ tickets r s)
      → Drafted o r new w v
      → After (Posts o r w) (put_sqe lib r s v)
  End-put_sqe {new} s w v old sound a d =
      elim (Bool-cases (lib.sqe_free (length (v.ring r).waiting))) [
        | inl e ↦
            let x = Drafted-with_sqe s w v old e sound d in
            rw (put_sqe-ok lib r s v e) (record {
              new = new ++ tickets r s;
              later = x.later;
              adds = x.adds;
              sound = x.sound;
              apart = a;
            })
        | inr e ↦ rw (put_sqe-null lib r s v e) tt
      ]

pub Drafted-alloc :
    {o r : ℕ} (c : Cell) (w v : World)
    → o < w.next
    → Drafted o r [] w v
    → Drafted o r [] w (allocated c v)
unfolding alloc
Drafted-alloc {o} {r} c w v old d =
    Drafted-step w v (allocated c v) old d (at (Keeps-alloc c) v (omega arith))
      (Silent-Issued r v (allocated c v) (λ q. refl)) tt

-- What has been sent, and a rest that sends nothing.
pub Drafted-then :
    {o r : ℕ} {new : List Ticket} {A : Type 0} (w v : World) (m : M A)
    → o < w.next
    → Drafted o r new w v
    → Apart new
    → ((n : ℕ) → Keeps o n m)
    → Quiet m
    → After (Posts o r w) (m v)
Drafted-then {o} {r} {new} {A} w v m old d a k h =
    go (m v) (at (k v.next) v (omega arith)) (silent h v)
  where
    go : (x : Run A) → After (LaterBut o v.next v) x → After (Silent v) x → After (Posts o r w) x
    go (ok b u) l s =
        Posts-trans w v u old
          (record { new = new; later = d.later; adds = d.adds; sound = d.sound; apart = a })
          (Posts-silent v u l s)
    go (fault e) l s = tt

module _ (n : ℕ) (w : World) (t : Ticket) (above : n ≤ t.address) (below : t.address < w.next) where
  -- A token, whose task stands in its loop where the handler resumes it.
  pub token-Sound :
      (u : CompletionToken)
      → 0 < n
      → t.marked ≡ false
      → w.heap t.address ≡ some (token u)
      → u.op ≢ Op.multishot_accept
      → (by_task u.op ≡ true → HasTask w u.chain_task)
      → Sound n w t
  token-Sound u pos plain live ne waits = record {
    above = above;
    below = below;
    reads = λ cqe a.
        own u (a.mark ∙ plain) (λ e. absurd (omega (arith, e, a.at, above, pos)))
          (ap w.heap a.at ∙ live) ne waits;
  }

  -- A token whose handler resumes no task.
  pub message-Sound :
      (u : CompletionToken)
      → 0 < n
      → t.marked ≡ false
      → w.heap t.address ≡ some (token u)
      → by_task u.op ≡ false
      → Sound n w t
  unfolding by_task
  message-Sound u pos plain live h =
      token-Sound u pos plain live (λ e. absurd (differ (sym (ap by_task e) ∙ h)))
        λ e. absurd (differ (sym e ∙ h))
    where
      differ : true ≢ false
      differ e = cc

  pub task-Sound :
      (c : Coro)
      → t.marked ≡ true
      → t.res ≡ some (to_int ring_task)
      → w.heap t.address ≡ some (task_msg c)
      → Sound n w t
  task-Sound c marked res live = record {
    above = above;
    below = below;
    reads =
        λ cqe a. task c (a.mark ∙ marked) (a.result (to_int ring_task) res) (ap w.heap a.at ∙ live);
  }

  pub conn-Sound :
      (f : Func) (fd : ℤ)
      → t.marked ≡ true
      → t.res ≡ some (to_int ring_func_task)
      → w.heap t.address ≡ some (conn_msg f fd)
      → Sound n w t
  conn-Sound f fd marked res live = record {
    above = above;
    below = below;
    reads = λ cqe a.
        conn f fd (a.mark ∙ marked) (a.result (to_int ring_func_task) res) (ap w.heap a.at ∙ live);
  }

  pub macc-Sound :
      (op : Op) (f : Func)
      → t.marked ≡ true
      → t.res ≡ some (to_int multi_acc_task)
      → w.heap t.address ≡ some (macc_msg op f)
      → Sound n w t
  macc-Sound op f marked res live = record {
    above = above;
    below = below;
    reads = λ cqe a.
        macc op f (a.mark ∙ marked) (a.result (to_int multi_acc_task) res) (ap w.heap a.at ∙ live);
  }
