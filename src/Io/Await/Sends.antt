-- ===== src/Io/Await/Sends.antt =====
-- What an await asks for.
use co_net.Base.{
  ℕ, ◌<◌, ◌≡◌, ◌≢◌, ◌∙◌, refl, ap, sym, subst, Bool, true, false, Option, none, some, List, [], ◌∷◌,
  arith, length, get_elem?, ==_self, ==_ne, Bool-cases, Option-cases, inl, inr,
}
use co_net.Async.Scheduled.{ScheduledTask}
use co_net.Io.Token.{Op, new_token, TaskRef, Coro, token}
use co_net.Io.World.{World, Platform, Run, ok, fault, Fault, Ends, M, ◌>>◌, pure, alloc}
use co_net.Io.World.Later.{LaterBut}
use co_net.Io.World.Keeps.{After, at, Keeps-then, Keeps-pure}
use co_net.Io.Ring.Steps.{put_sqe-ok, put_sqe-null, with_sqe, with_sqe_tasks, allocated}
use co_net.Io.Await.{Awaiter, suspend, construct, await_suspend, set_task_handle}
use co_net.Io.Await.Kept.{Keeps-suspend, Keeps-await_suspend}
use co_net.Io.Await.Suspend.{target, entry, Parked, suspend-Parked}
use co_net.Io.Tickets.{Ticket, own, tickets}
use co_net.Io.Tickets.Posts.{Silent, Issued, Posts, Posting, posting}
use co_net.Io.Tickets.Quiet.{
  Quiet, silent, issued-entry, Quiet-then, Quiet-bind, Quiet-pure, Quiet-load, Quiet-cast_token,
  Quiet-store, Quiet-set_task_handle, Quiet-set_task_pending,
}
use co_net.Io.Tickets.Drafts.{token-Sound}

-- Its entry completes once, with the token's address.
pub record IsOneShot (a : Awaiter) : Type 0 where
  pub once : (r p : ℕ) → tickets r (entry p a) ≡ own r p ∷ []
  pub op : a.op ≢ Op.multishot_accept

Quiet-await_suspend :
    (p : ℕ) (caller : Coro) (chain : Option TaskRef) → Quiet (await_suspend p caller chain)
unfolding await_suspend
Quiet-await_suspend p caller chain = Quiet-then _ _ (Quiet-set_task_handle caller chain) (
    Quiet-bind _ _ (Quiet-load p) λ c.
      Quiet-bind _ _ (Quiet-cast_token c)
        λ t. Quiet-then _ _ (Quiet-store p _) (Quiet-set_task_pending true chain))

module _ (lib : Platform) (local : ℕ) (a : Awaiter) (caller : Coro) (chain : Option TaskRef)
    (w : World) where
  abbrev run : Run ℕ
  run = suspend lib local a caller chain w

  abbrev room : Bool
  room = lib.sqe_free (length (w.ring (target lib local a)).waiting)

  abbrev started : World
  started = allocated (token (record new_token { op = a.op })) w

  abbrev begun : World
  begun = with_sqe lib (target lib local a) (entry w.next a) started

  abbrev rest : M ℕ
  rest = await_suspend w.next caller chain >> pure w.next

  begins : room ≡ true → run ≡ rest begun
  unfolding suspend construct alloc
  begins e = rw (put_sqe-ok lib (target lib local a) (entry w.next a) started e) refl

  stops : room ≡ false → run ≡ fault Fault.null_sqe
  unfolding suspend construct alloc
  stops e = rw (put_sqe-null lib (target lib local a) (entry w.next a) started e) refl

  begun-Issued : Issued (target lib local a) (tickets (target lib local a) (entry w.next a)) w begun
  begun-Issued = record {
    here =
        rw (==_self (target lib local a))
          (issued-entry (target lib local a) (w.ring (target lib local a)) (entry w.next a));
    there = λ q ne. rw (==_ne q (target lib local a) ne) refl;
  }

  suspend-Issued :
      After (Issued (target lib local a) (tickets (target lib local a) (entry w.next a)) w) run
  suspend-Issued = elim (Bool-cases room) [
    | inl e ↦ rw (begins e) (
        go (rest begun) (
          silent (Quiet-then _ _ (Quiet-await_suspend w.next caller chain) (Quiet-pure w.next))
            begun))
    | inr e ↦ rw (stops e) tt
  ]
    where
      go :
          (x : Run ℕ)
          → After (Silent begun) x
          → After (Issued (target lib local a) (tickets (target lib local a) (entry w.next a)) w) x
      go (ok p v) s = record {
        here = s (target lib local a) ∙ begun-Issued.here;
        there = λ q ne. s q ∙ begun-Issued.there q ne;
      }
      go (fault e) s = tt

  -- What an await that has not failed has found.
  record Suspended : Type 0 where
    ref : TaskRef
    named : chain ≡ some ref
    task : ScheduledTask Coro
    queued : get_elem? (w.ring ref.ring).tasks ref.index ≡ some task
    free : room ≡ true

begun_tasks :
    (lib : Platform) (local : ℕ) (a : Awaiter) (caller : Coro) (chain : Option TaskRef) (w : World)
    (r : ℕ)
    → ((begun lib local a caller chain w).ring r).tasks ≡ (w.ring r).tasks
begun_tasks lib local a caller chain w r =
    with_sqe_tasks lib (target lib local a) (entry w.next a) (started lib local a caller chain w) r

suspend-Suspended :
    (lib : Platform) (local : ℕ) (a : Awaiter) (caller : Coro) (chain : Option TaskRef) (w : World)
    {p : ℕ} {v : World}
    → suspend lib local a caller chain w ≡ ok p v
    → Suspended lib local a caller chain w
unfolding await_suspend set_task_handle
suspend-Suspended lib local a caller chain w {p} {v} e =
    elim (Bool-cases (room lib local a caller chain w)) [
      | inr full ↦ absurd (differ (sym (stops lib local a caller chain w full) ∙ e))
      | inl free ↦ go chain free (sym (begins lib local a caller chain w free) ∙ e)
    ]
  where
    differ : {f : Fault} → ◌≢◌ {A = Run ℕ} (fault f) (ok p v)
    differ k = cc

    go :
        (c : Option TaskRef)
        → room lib local a caller c w ≡ true
        → rest lib local a caller c w (begun lib local a caller c w) ≡ ok p v
        → Suspended lib local a caller c w
    go none free k = absurd (differ k)
    go (some ref) free k = elim (Option-cases (get_elem? (w.ring ref.ring).tasks ref.index)) [
      | inl gone ↦ absurd (
          differ (
            sym (
              lost (begun lib local a caller (some ref) w) ref (
                ap (λ (l : List (ScheduledTask Coro)). get_elem? l ref.index)
                  (begun_tasks lib local a caller (some ref) w ref.ring)
                ∙ gone))
            ∙ k))
      | inr (s, q) ↦ record { ref = ref; named = refl; task = s; queued = q; free = free }
    ]
      where
        none_there :
            (u : World) (ref : TaskRef)
            → get_elem? (u.ring ref.ring).tasks ref.index ≡ none
            → set_task_handle caller (some ref) u ≡ fault Fault.dangling
        none_there u ref h = ground arith

        lost :
            (u : World) (ref : TaskRef)
            → get_elem? (u.ring ref.ring).tasks ref.index ≡ none
            → rest lib local a caller (some ref) w u ≡ fault Fault.dangling
        lost u ref h = rw (none_there u ref h) refl

module _ (lib : Platform) (local : ℕ) (a : Awaiter) (caller : Coro) {o : ℕ} (h : IsOneShot a) where
  posted :
      (chain : Option TaskRef) (w : World) {p : ℕ} {v : World}
      → o < w.next
      → suspend lib local a caller chain w ≡ ok p v
      → Suspended lib local a caller chain w
      → Posts o (target lib local a) w v
  posted chain w {p} {v} old e s =
      let r = target lib local a in
      let named = s.named in
      let done : Parked lib local a caller s.ref s.task w p v =
        subst (Ends (Parked lib local a caller s.ref s.task w))
          (ap (λ (c : Option TaskRef). suspend lib local a caller c w) (sym named) ∙ e)
          (suspend-Parked lib local a caller s.ref w s.queued s.free) in
      let after : LaterBut w.next 0 (begun lib local a caller chain w) v =
        subst (After (LaterBut w.next 0 (begun lib local a caller chain w)))
          (sym (begins lib local a caller chain w s.free) ∙ e)
          (at
            (Keeps-then _ _ (Keeps-await_suspend w.next caller chain (inl refl))
              (Keeps-pure w.next))
            (begun lib local a caller chain w) (omega arith)) in
      let l : LaterBut o w.next w v =
        subst (After (LaterBut o w.next w)) e
          (at (Keeps-suspend lib local a caller chain) w (omega arith)) in
      record {
        new = own r w.next ∷ [];
        later = l;
        adds =
            subst (λ (ts : List Ticket). Issued r ts w v) (h.once r w.next)
              (subst (After (Issued r (tickets r (entry w.next a)) w)) e
                (suspend-Issued lib local a caller chain w));
        sound = (
          token-Sound w.next v (own r w.next) (omega arith) (omega (arith, after.next))
              (record new_token { op = a.op; chain_task = some s.ref }) (omega (arith, old)) refl
              (ap v.heap (sym done.address) ∙ done.token_live) h.op
              (λ _. record { ref = s.ref; named = refl; found = _; queued = done.task }),
          tt,
        );
        apart = (tt, tt);
      }

  pub Posting-suspend :
      (chain : Option TaskRef) → Posting o (target lib local a) (suspend lib local a caller chain)
  Posting-suspend chain = posting λ w old. go w old (suspend lib local a caller chain w) refl
    where
      go :
          (w : World)
          → o < w.next
          → (x : Run ℕ) → suspend lib local a caller chain w ≡ x
          → After (Posts o (target lib local a) w) x
      go w old (ok p v) e = posted chain w old e (suspend-Suspended lib local a caller chain w e)
      go w old (fault f) e = tt
