-- ===== src/Context/Flight/Batch.antt =====
-- A batch of completions, as a loop takes it from its ring.
pub mod Loops
use co_net.Base.{
  ℕ, zero, ◌+◌, ◌<◌, ◌≤◌, ◌≡◌, ◌≢◌, ◌∙◌, refl, ap, sym, subst, Bool, true, false, List, [], ◌∷◌,
  ◌++◌, append_assoc, arith, length, inr, if◌then◌else◌,
}
use co_net.Io.Sqe.{Cqe, Prep, prep}
use co_net.Io.World.{World, Platform, Run, ok, fault, M, and_then, ◌>>=◌, ◌>>◌, pure, get_ring}
use co_net.Io.World.Keeps.{
  After, Keeps, Keeps-then, Keeps-bind, Keeps-pure, Keeps-if, Keeps-get_ring,
}
use co_net.Io.Ring.{consume, put_sqe, submit_all}
use co_net.Io.Ring.Kept.{Keeps-consume, Keeps-put_sqe, Keeps-submit_all}
use co_net.Io.Handler.{handle_request, handle_all, process_all, handle_until_stopped, process_batch}
use co_net.Io.Handler.Harmless
use co_net.Io.Handler.Harmless.{Ordinary, Harmless, run_of}
use co_net.Io.Handler.Safety.{handle_request-Ordinary, accepting-Ordinary}
use co_net.Io.Handler.Sends.{Posting-handle_request}
use co_net.Io.Tickets.{Ticket, Answers, Each, tickets, recurs, sent}
use co_net.Io.Tickets.Posts.{Posts, post}
use co_net.Io.Tickets.Quiet.{
  Quiet, Posting-Quiet, Quiet-then, Quiet-bind, Quiet-pure, Quiet-if, Quiet-get_ring, Quiet-consume,
  Quiet-put_sqe, Quiet-submit_all,
}
use co_net.Context.Flight.{System, IsAccept, Handling}
use co_net.Context.Flight.Due.{Due, Each-remove}
use co_net.Context.Flight.Multishot.{IsArmed-Later, Accepting-Posts, IsArmed-Accepting}
use co_net.Context.Flight.Safe.{IsFlying, grow, not_zero, handles-Grown, accepts-Grown}

-- The completions of a batch of the ring `this` are among those to come, each at most once, or of the
-- multishot accept.
pub data Takes (lib : Platform) (armed : Bool) (this : ℕ) : List Ticket → List Cqe → Type 0 where
  done : {f : List Ticket} → Takes lib armed this f []
  message :
      {f : List Ticket} {cqe : Cqe} {cs : List Cqe}
      → (before : List Ticket) (t : Ticket) (after : List Ticket) → f ≡ before ++ t ∷ after
      → t.ring ≡ this
      → Answers cqe t
      → Takes lib armed this (before ++ after) cs
      → Takes lib armed this f (cqe ∷ cs)
  accept :
      {f : List Ticket} {cqe : Cqe} {cs : List Cqe}
      → armed ≡ true
      → lib.sys ≡ this
      → IsAccept lib cqe
      → Takes lib armed this f cs
      → Takes lib armed this f (cqe ∷ cs)

module _ (lib : Platform) (armed : Bool) (this : ℕ) where
  Takes-append :
      (new f : List Ticket) (cs : List Cqe)
      → Takes lib armed this f cs
      → Takes lib armed this (f ++ new) cs
  Takes-append new f [] done = done
  Takes-append new f (c ∷ cs) (message before t after among on a rest) =
      message before t (after ++ new)
        (ap (λ (l : List Ticket). l ++ new) among ∙ append_assoc before (t ∷ after) new) on a
        (subst (λ l. Takes lib armed this l cs) (append_assoc before after new)
          (Takes-append new (before ++ after) cs rest))
  Takes-append new f (c ∷ cs) (accept on main a rest) =
      accept on main a (Takes-append new f cs rest)

  -- A run that ends as it may, in a system from which the rest of the batch can be taken.
  abbrev pub Goes : List Cqe → Run (Unit {0}) → Type 0
  Goes cs run =
      Ordinary run
      × After
          (λ v.
            (u : System) × (u.world ≡ v)
            × IsFlying lib u
            × (u.armed ≡ armed)
            × Takes lib armed this u.flight cs)
          run

  abbrev Still : List Cqe → World → Type 0
  Still cs v =
      (u : System) × (u.world ≡ v)
      × IsFlying lib u
      × (u.armed ≡ armed)
      × Takes lib armed this u.flight cs

  -- The system once a completion of the batch has been handled.
  first-message :
      (s : System) (cqe : Cqe) (cs : List Cqe) (before : List Ticket) (t : Ticket)
      (after : List Ticket)
      → IsFlying lib s
      → s.armed ≡ armed
      → s.flight ≡ before ++ t ∷ after
      → t.ring ≡ this
      → Answers cqe t
      → Takes lib armed this (before ++ after) cs
      → (x : Run (Unit {0})) → handle_request lib this cqe s.world ≡ x
      → After (Posts cqe.user_data this s.world) x
      → After (Still cs) x
  first-message s cqe cs before t after f same among on a rest (fault k) e p = tt
  first-message s cqe cs before t after f same among on a rest (ok tt v) e p =
      let u : System = record { world = v; flight = (before ++ after) ++ p.new; armed = s.armed } in
      let h : Handling lib t s u = record {
        before = before;
        after = after;
        among = among;
        cqe = cqe;
        answers = a;
        runs = ap (λ r. handle_request lib r cqe s.world) on ∙ e;
        on = this;
        new = p.new;
        adds = p.adds;
        left = refl;
        same = refl;
      } in
      (
        u,
        refl,
        (handles-Grown lib s u t h f).flying,
        same,
        Takes-append p.new (before ++ after) cs rest,
      )

  first-accept :
      (s : System) (cqe : Cqe) (cs : List Cqe)
      → IsFlying lib s
      → s.armed ≡ armed
      → s.armed ≡ true
      → lib.sys ≡ this
      → IsAccept lib cqe
      → Takes lib armed this s.flight cs
      → (x : Run (Unit {0})) → handle_request lib this cqe s.world ≡ x
      → After (Posts 0 this s.world) x
      → After (Still cs) x
  first-accept s cqe cs f same on main a rest (fault k) e p = tt
  first-accept s cqe cs f same on main a rest (ok tt v) e p =
      let u : System = record { world = v; flight = s.flight ++ p.new; armed = s.armed } in
      (
        u,
        refl,
        (accepts-Grown lib s u on cqe a (ap (λ r. handle_request lib r cqe s.world) main ∙ e) this
            p.new p.adds refl f).flying,
        same,
        Takes-append p.new s.flight cs rest,
      )

  pub first :
      (s : System) (cqe : Cqe) (cs : List Cqe)
      → IsFlying lib s
      → s.armed ≡ armed
      → Takes lib armed this s.flight (cqe ∷ cs)
      → Goes cs (handle_request lib this cqe s.world)
  first s cqe cs f same (message before t after among on a rest) =
      let (d, due) =
        Each-remove (Due lib s.world) before t after (subst (Each (Due lib s.world)) among f.due) in
      (
        handle_request-Ordinary lib this cqe s.world f.fresh (d.sound.reads cqe a),
        first-message s cqe cs before t after f same among on a rest _ refl (
            post (Posting-handle_request lib this cqe) s.world
              (omega (arith, a.at, d.sound.below))),
      )
  first s cqe cs f same (accept on main a rest) =
      let armed_now = f.ready (same ∙ on) in
      let accepting = IsArmed-Accepting lib s.world cqe f.not_null armed_now a in
      (
        accepting-Ordinary lib this cqe s.world f.fresh accepting,
        first-accept s cqe cs f same (same ∙ on) main a rest _ refl
            (Accepting-Posts this lib this cqe s.world (omega (arith, f.static)) accepting),
      )

  -- A run that ends as it may, in a system of the kind that it started from.
  abbrev pub Safely : Run (Unit {0}) → Type 0
  Safely run = Ordinary run × After (λ v. (u : System) × (u.world ≡ v) × IsFlying lib u) run

  pub after_first :
      (cs : List Cqe) (x : Run (Unit {0})) (k : M (Unit {0}))
      → Goes cs x
      → ((u : System)
          → IsFlying lib u
          → u.armed ≡ armed
          → Takes lib armed this u.flight cs
          → Safely (k u.world))
      → Safely (and_then x λ _. k)
  after_first cs (fault e) k g next = (g.0, tt)
  after_first cs (ok tt v) k (o, (u, e, f, same, rest)) next =
      subst (λ w. Safely (k w)) e (next u f same rest)
