-- ===== src/Context/Flight/Safe.antt =====
-- Whatever the order of the calls and of the completions, a handler finds in memory what its
-- completion is about.
use co_net.Base.{
  ℕ, ◌<◌, ◌≤◌, ◌≡◌, ◌≢◌, ◌∙◌, ap, sym, subst, Bool, true, false, ◌||◌, List, ◌∷◌, ◌++◌, arith,
  Bool-cases, inl, inr,
}
use co_net.Io.Sqe.{Cqe}
use co_net.Io.World.{World, Platform, ok}
use co_net.Io.World.Later.{IsFresh}
use co_net.Io.World.Keeps.{After}
use co_net.Io.Handler.{handle_request}
use co_net.Io.Handler.Harmless.{Ordinary}
use co_net.Io.Handler.Safety.{handle_request-Ordinary, accepting-Ordinary}
use co_net.Io.Handler.Sends.{Posting-handle_request}
use co_net.Io.Tickets.{Ticket, Answers, Each, Apart, Each-append, Each-mono}
use co_net.Io.Tickets.Posts.{Issued, Posts, post}
use co_net.Context.Process.{Call, perform, accept_multishot}
use co_net.Context.Flight.{
  System, Handling, Sending, arms, IsAccept, Step, sends, handles, accepts, Reaches, here, next,
}
use co_net.Context.Flight.Sending.{entered, Posting-perform, Posting-accept_multishot}
use co_net.Context.Flight.Multishot.{
  IsArmed, IsArmed-Later, IsArmed-Accepting, Accepting-Posts, arms-IsArmed,
}
use co_net.Context.Flight.Due.{
  Due, Issued-unique, grown-Due, grown-Apart, Each-remove, Apart-remove,
}

-- What a system is from which every step is safe, and which every step keeps.
pub record IsFlying (lib : Platform) (s : System) : Type 0 where
  pub fresh : IsFresh s.world
  pub not_null : lib.multishot_token ≢ 0
  pub static : lib.multishot_token < s.world.next
  pub apart : Apart s.flight
  pub due : Each (Due lib s.world) s.flight
  pub ready : s.armed ≡ true → IsArmed lib s.world

-- A step after which the completions `kept` are still to come, and others with new addresses.
pub record Grown (lib : Platform) (kept : List Ticket) (s s' : System) : Type 0 where
  pub flying : IsFlying lib s'
  pub next : s.world.next ≤ s'.world.next
  pub avoids :
      (p : ℕ)
      → p < s.world.next
      → Each (λ t. t.address ≢ p) kept
      → Each (λ t. t.address ≢ p) s'.flight

module _ (lib : Platform) where
  -- Completions that are kept, and those of a command that has run.
  pub grow :
      (s s' : System) (kept : List Ticket) {o q r : ℕ} (new : List Ticket)
      → IsFlying lib s
      → Posts o q s.world s'.world
      → Issued r new s.world s'.world
      → s'.flight ≡ kept ++ new
      → Apart kept
      → Each (Due lib s.world) kept
      → Each (λ t. t.address ≢ o) kept
      → (s'.armed ≡ true → IsArmed lib s'.world)
      → Grown lib kept s s'
  grow s s' kept {o} {q} {r} new f p i e apart due from ready =
      let all : kept ++ p.new ≡ s'.flight =
        ap (λ (l : List Ticket). kept ++ l) (Issued-unique q r p.new new s.world s'.world p.adds i)
        ∙ sym e in
      record {
        flying = record {
          fresh = p.later.fresh f.fresh;
          not_null = f.not_null;
          static = omega (arith, f.static, p.later.next);
          apart = subst Apart all (grown-Apart lib s.world s'.world kept p f.static apart due from);
          due =
              subst (Each (Due lib s'.world)) all
                (grown-Due lib s.world s'.world kept p f.static apart due from);
          ready = ready;
        };
        next = p.later.next;
        avoids = λ x below h. subst (Each (λ t. t.address ≢ x)) all (
            Each-append _ kept p.new h (
              Each-mono _ _ p.new (λ t d. λ e. absurd (omega (arith, e, d.above, below))) p.sound));
      }

  pub not_zero : (w : World) (ts : List Ticket) → Each (Due lib w) ts → Each (λ t. t.address ≢ 0) ts
  not_zero w ts h =
      Each-mono (Due lib w) _ ts (λ t d. λ e. absurd (omega (arith, e, d.sound.above))) h

  not_static :
      (w : World) (ts : List Ticket)
      → Each (Due lib w) ts
      → Each (λ t. t.address ≢ lib.multishot_token) ts
  not_static w ts h = Each-mono (Due lib w) _ ts (λ t d. d.other) h

  differ : true ≢ false
  differ e = cc

  -- The call that arms the multishot accept.
  arming :
      (c : Call) (w : World)
      → arms c ≡ true
      → lib.multishot_token < w.next
      → After (Posts lib.multishot_token lib.sys w) (perform lib c w)
        × After (IsArmed lib) (perform lib c w)
  arming (accept_multishot socket caller chain) w k old = (
    post (Posting-accept_multishot lib socket caller chain) w old,
    arms-IsArmed lib socket caller chain w,
  )
  arming _ w k old = absurd (differ (sym k))

  sends-Grown :
      (s s' : System) (c : Call)
      → Sending c
      → perform lib c s.world ≡ ok tt s'.world
      → (r : ℕ) (new : List Ticket) → Issued r new s.world s'.world
      → s'.flight ≡ s.flight ++ new
      → s'.armed ≡ arms c || s.armed
      → IsFlying lib s
      → Grown lib s.flight s s'
  sends-Grown s s' c h e r new i flight armed f = elim (Bool-cases (arms c)) [
    | inl k ↦
        let (p, a) = arming c s.world k f.static in
        grow s s' s.flight new f (subst (After (Posts lib.multishot_token lib.sys s.world)) e p) i
          flight f.apart f.due (not_static s.world s.flight f.due)
          λ _. subst (After (IsArmed lib)) e a
    | inr k ↦
        let p : Posts 0 (entered lib c) s.world s'.world =
          subst (After (Posts 0 (entered lib c) s.world)) e
            (post (Posting-perform lib c h k) s.world (omega (arith, f.static))) in
        grow s s' s.flight new f p i flight f.apart f.due (not_zero s.world s.flight f.due) λ on.
          IsArmed-Later lib s.world s'.world p.later f.not_null f.static
            (f.ready (ap (λ (b : Bool). b || s.armed) (sym k) ∙ sym armed ∙ on))
  ]

  pub handles-Grown :
      (s s' : System) (t : Ticket) (h : Handling lib t s s')
      → IsFlying lib s
      → Grown lib (h.before ++ h.after) s s'
  handles-Grown s s' t h f =
      let kept = h.before ++ h.after in
      let (d, due) =
        Each-remove (Due lib s.world) h.before t h.after
          (subst (Each (Due lib s.world)) h.among f.due) in
      let (others, apart) = Apart-remove h.before t h.after (subst Apart h.among f.apart) in
      let p : Posts h.cqe.user_data t.ring s.world s'.world =
        subst (After (Posts h.cqe.user_data t.ring s.world)) h.runs (
          post (Posting-handle_request lib t.ring h.cqe) s.world
            (omega (arith, h.answers.at, d.sound.below))) in
      grow s s' kept h.new f p h.adds h.left apart due
        (Each-mono _ _ kept (λ u ne. λ k. ne (k ∙ h.answers.at)) others)
        λ on.
          IsArmed-Later lib s.world s'.world p.later (λ k. d.other (sym h.answers.at ∙ sym k))
            f.static (f.ready (sym h.same ∙ on))

  pub accepts-Grown :
      (s s' : System)
      → s.armed ≡ true
      → (cqe : Cqe) → IsAccept lib cqe
      → handle_request lib lib.sys cqe s.world ≡ ok tt s'.world
      → (r : ℕ) (new : List Ticket) → Issued r new s.world s'.world
      → s'.flight ≡ s.flight ++ new
      → IsFlying lib s
      → Grown lib s.flight s s'
  accepts-Grown s s' on cqe c e r new i flight f =
      let p : Posts 0 lib.sys s.world s'.world = subst (After (Posts 0 lib.sys s.world)) e (
        Accepting-Posts lib.sys lib lib.sys cqe s.world (omega (arith, f.static))
          (IsArmed-Accepting lib s.world cqe f.not_null (f.ready on) c)) in
      grow s s' s.flight new f p i flight f.apart f.due (not_zero s.world s.flight f.due)
        λ _. IsArmed-Later lib s.world s'.world p.later f.not_null f.static (f.ready on)

  pub Step-IsFlying : (s s' : System) → Step lib s s' → IsFlying lib s → IsFlying lib s'
  Step-IsFlying s s' (sends c h e r new i flight armed) f =
      (sends-Grown s s' c h e r new i flight armed f).flying
  Step-IsFlying s s' (handles t h) f = (handles-Grown s s' t h f).flying
  Step-IsFlying s s' (accepts on cqe c e r new i flight armed) f =
      (accepts-Grown s s' on cqe c e r new i flight f).flying

  -- An old address that no completion to come has is not sent again.
  pub Step-avoids :
      (s s' : System) (p : ℕ)
      → Step lib s s'
      → IsFlying lib s
      → p < s.world.next
      → Each (λ t. t.address ≢ p) s.flight
      → (p < s'.world.next) × Each (λ t. t.address ≢ p) s'.flight
  Step-avoids s s' p (sends c h e r new i flight armed) f below a =
      let g = sends-Grown s s' c h e r new i flight armed f in
      (omega (arith, below, g.next), g.avoids p below a)
  Step-avoids s s' p (handles t h) f below a =
      let g = handles-Grown s s' t h f in
      let (ne, kept) =
        Each-remove (λ u. u.address ≢ p) h.before t h.after
          (subst (Each (λ u. u.address ≢ p)) h.among a) in
      (omega (arith, below, g.next), g.avoids p below kept)
  Step-avoids s s' p (accepts on cqe c e r new i flight armed) f below a =
      let g = accepts-Grown s s' on cqe c e r new i flight f in
      (omega (arith, below, g.next), g.avoids p below a)

  -- Along the same runs the system stays one in which nothing lies at addresses that have not been
  -- given out, the static token's address is a given one and not null, every completion to come has
  -- an address of its own, given out and not the static token's, with what its handler reads, and a
  -- multishot accept that is under way has a live static token whose task stands in its loop. What
  -- the handler reads is a task, a function, a function with a descriptor, or a token whose task,
  -- where the handler resumes one, stands in its loop.
  pub Reaches-IsFlying : {s s' : System} → IsFlying lib s → Reaches lib s s' → IsFlying lib s'
  Reaches-IsFlying f here = f
  Reaches-IsFlying f (next {u} {v} run step) = Step-IsFlying u v step (Reaches-IsFlying f run)

  -- What every handler does with any completion that may come next.
  pub record IsSafe (s : System) : Type 0 where
    pub message :
        (before : List Ticket) (t : Ticket) (after : List Ticket)
        → s.flight ≡ before ++ t ∷ after
        → (cqe : Cqe) → Answers cqe t
        → Ordinary (handle_request lib t.ring cqe s.world)
    pub accept :
        s.armed ≡ true
        → (cqe : Cqe) → IsAccept lib cqe
        → Ordinary (handle_request lib lib.sys cqe s.world)

  -- From a system in which nothing lies at addresses that have not been given out, the static
  -- token's address is a given one and not null, every completion to come has an address of its
  -- own, given out and not the static token's, with what its handler reads, and a multishot accept
  -- that is under way has a live static token whose task stands in its loop (as where nothing is to
  -- come and no accept is under way): after any spawns, awaits of the program's operations,
  -- accepts, destructions of connections, submissions and terminations, and any completions handled
  -- one by one in any order, none of which fails, handling any completion that can come next (of an
  -- entry with user data on its own ring, of a message on the ring that it is for, of the multishot
  -- accept on the main ring) touches no memory that is not in use, takes none for another kind than
  -- it is, and misses no task: it ends, or fails for want of a free entry or at the call of an
  -- empty function.
  pub Reaches-IsSafe : {s s' : System} → IsFlying lib s → Reaches lib s s' → IsSafe s'
  Reaches-IsSafe {s} {s'} start run =
      let f = Reaches-IsFlying start run in
      record {
        message = λ before t after flight cqe a.
            let (d, due) =
              Each-remove (Due lib s'.world) before t after
                (subst (Each (Due lib s'.world)) flight f.due) in
            handle_request-Ordinary lib t.ring cqe s'.world f.fresh (d.sound.reads cqe a);
        accept = λ on cqe c.
            accepting-Ordinary lib lib.sys cqe s'.world f.fresh
              (IsArmed-Accepting lib s'.world cqe f.not_null (f.ready on) c);
      }
