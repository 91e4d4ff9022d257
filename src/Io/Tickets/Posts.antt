-- ===== src/Io/Tickets/Posts.antt =====
-- What a command adds to the completions to come.
use co_net.Base.{
  ℕ, ◌<◌, ◌≤◌, ◌≡◌, ◌≢◌, ◌∙◌, refl, ap, sym, Bool, true, false, List, [], ◌++◌, append_assoc,
  append-nil, arith, if◌then◌else◌,
}
use co_net.Io.World.{World, Run, ok, fault, M, and_then, ◌>>=◌, ◌>>◌, pure}
use co_net.Io.World.Later.{LaterBut, Later-refl, Later-trans}
use co_net.Io.World.Keeps.{After}
use co_net.Io.Handler.Matching.{Matching-Later}
use co_net.Io.Tickets.{Ticket, issued, Each, Apart, Sound, Each-append, Each-mono, Apart-append}

-- No completion more.
abbrev pub Silent : World → World → Type 0
Silent w w' = (q : ℕ) → issued q (w'.ring q) ≡ issued q (w.ring q)

-- The completions `new` more, of entries of the ring `r`.
pub record Issued (r : ℕ) (new : List Ticket) (w w' : World) : Type 0 where
  pub here : issued r (w'.ring r) ≡ issued r (w.ring r) ++ new
  pub there : (q : ℕ) → q ≢ r → issued q (w'.ring q) ≡ issued q (w.ring q)

-- The new completions have new addresses, each its own, and memory has changed at most there and
-- at `o`.
pub record Posts (o r : ℕ) (w w' : World) : Type 0 where
  pub new : List Ticket
  pub later : LaterBut o w.next w w'
  pub adds : Issued r new w w'
  pub sound : Each (Sound w.next w') new
  pub apart : Apart new

pub Silent-Issued : (r : ℕ) (w w' : World) → Silent w w' → Issued r [] w w'
Silent-Issued r w w' h = record { here = h r ∙ sym (append-nil _); there = λ q _. h q }

pub Issued-trans :
    (r : ℕ) (xs ys : List Ticket) (u v w : World)
    → Issued r xs u v
    → Issued r ys v w
    → Issued r (xs ++ ys) u w
Issued-trans r xs ys u v w a b = record {
  here =
      b.here ∙ ap (λ (l : List Ticket). l ++ ys) a.here ∙ append_assoc (issued r (u.ring r)) xs ys;
  there = λ q h. b.there q h ∙ a.there q h;
}

pub Later-weaken : {o : ℕ} (n m : ℕ) (w w' : World) → m ≤ n → LaterBut o n w w' → LaterBut o m w w'
Later-weaken n m w w' h l = record {
  rings = l.rings;
  next = l.next;
  fresh = l.fresh;
  halted = l.halted;
  requested = l.requested;
  picks = l.picks;
  workers = l.workers;
  gone = l.gone;
  frame = λ p ne below. l.frame p ne (omega (arith, below, h));
}

-- A ticket is still sound after what leaves its memory alone.
pub Sound-Later :
    {o n : ℕ} (low low' : ℕ) (v w : World) (t : Ticket)
    → LaterBut o n v w
    → t.address ≢ o
    → t.address < n
    → low' ≤ low
    → Sound low v t
    → Sound low' w t
Sound-Later low low' v w t l ne below less s = record {
  above = omega (arith, s.above, less);
  below = omega (arith, s.below, l.next);
  reads = λ cqe a.
      Matching-Later v w cqe l (λ e. ne (sym a.at ∙ e)) (omega (arith, a.at, below))
        (s.reads cqe a);
}

pub Posts-silent : {o r : ℕ} (w w' : World) → LaterBut o w.next w w' → Silent w w' → Posts o r w w'
Posts-silent {o} {r} w w' l h = record {
  new = [];
  later = l;
  adds = Silent-Issued r w w' h;
  sound = tt;
  apart = tt;
}

pub Posts-trans :
    {o r : ℕ} (u v w : World) → o < u.next → Posts o r u v → Posts o r v w → Posts o r u w
Posts-trans {o} {r} u v w old a b = record {
  new = a.new ++ b.new;
  later = Later-trans u v w a.later (Later-weaken v.next u.next v w a.later.next b.later);
  adds = Issued-trans r a.new b.new u v w a.adds b.adds;
  sound =
      Each-append (Sound u.next w) a.new b.new
        (Each-mono (Sound u.next v) (Sound u.next w) a.new
          (λ t s.
            Sound-Later u.next u.next v w t b.later (λ e. absurd (omega (arith, e, s.above, old)))
              s.below (omega arith) s)
          a.sound)
        (Each-mono (Sound v.next w) (Sound u.next w) b.new
          (λ t s. record {
            above = omega (arith, s.above, a.later.next);
            below = s.below;
            reads = s.reads;
          })
          b.sound);
  apart =
      Apart-append v.next a.new b.new (Each-mono (Sound u.next v) _ a.new (λ t s. s.below) a.sound)
        (Each-mono (Sound v.next w) _ b.new (λ t s. s.above) b.sound) a.apart b.apart;
}

-- A command that posts on the ring `r` and writes no old memory but `o`.
pub data Posting (o r : ℕ) {A : Type 0} (m : M A) : Type 0 where
  posting : ((w : World) → o < w.next → After (Posts o r w) (m w)) → Posting o r m

pub post :
    {o r : ℕ} {A : Type 0} {m : M A}
    → Posting o r m
    → (w : World) → o < w.next
    → After (Posts o r w) (m w)
post (posting h) = h

pub After-Posts :
    {o r : ℕ} {A B : Type 0} (w : World) (m : Run A) (k : A → M B)
    → o < w.next
    → After (Posts o r w) m
    → ((a : A) (v : World) → m ≡ ok a v → Posting o r (k a))
    → After (Posts o r w) (and_then m k)
After-Posts w (fault e) k old h next = tt
After-Posts {o} {r} {A} {B} w (ok a v) k old h next =
    go (k a v) (post (next a v refl) v (omega (arith, old, h.later.next)))
  where
    go : (x : Run B) → After (Posts o r v) x → After (Posts o r w) x
    go (fault e) l = tt
    go (ok b u) l = Posts-trans w v u old h l

pub Posting-bind :
    {o r : ℕ} {A B : Type 0} (m : M A) (k : A → M B)
    → Posting o r m
    → ((a : A) → Posting o r (k a))
    → Posting o r (m >>= k)
Posting-bind m k h next = posting λ w old. After-Posts w (m w) k old (post h w old) λ a _ _. next a

pub Posting-then :
    {o r : ℕ} {A B : Type 0} (m : M A) (k : M B)
    → Posting o r m
    → Posting o r k
    → Posting o r (m >> k)
Posting-then m k h next =
    posting λ w old. After-Posts w (m w) (λ _. k) old (post h w old) λ _ _ _. next

pub Posting-pure : {o r : ℕ} {A : Type 0} (a : A) → Posting o r {A = A} (pure a)
Posting-pure a = posting λ w old. Posts-silent w w (Later-refl w) (λ q. refl)

pub Posting-if :
    {o r : ℕ} {A : Type 0} (b : Bool) (m k : M A)
    → Posting o r m
    → Posting o r k
    → Posting o r (if b then m else k)
Posting-if true m k h l = h
Posting-if false m k h l = l
