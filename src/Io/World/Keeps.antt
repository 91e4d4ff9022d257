-- ===== src/Io/World/Keeps.antt =====
-- The commands that take nothing back, by how they are built.
use co_net.Base.{
  ℕ, ◌≤◌, ◌≡◌, refl, sym, subst, ◌∙◌, Bool, true, false, none, some, arith, Option-cases, inl, inr,
  ==_self, ==_ne, if◌then◌else◌,
}
use native.Mathlib.Decide.{ℕ_discrete}
use co_net.Io.Token.{CompletionToken, Cell, token, task_msg, conn_msg, macc_msg}
use co_net.Io.World.{
  update_ne, World, Ring, Run, ok, fault, M, Fault, and_then, ◌>>=◌, ◌>>◌, pure, stop, update,
  alloc, load, store, free, get_ring, put_ring, cast_token,
}
use co_net.Io.World.Later.{
  RingLater, RingLater-refl, LaterBut, Later-refl, Later-trans, Touches, heap-Later,
}

-- A run that stops at a fault leaves no world.
abbrev pub After : {A : Type 0} → (World → Type 0) → Run A → Type 0
After P (ok a w) = P w
After P (fault e) = Unit {0}

pub After-if :
    {A : Type 0} (P : World → Type 0) (b : Bool) (x y : Run A)
    → After P x
    → After P y
    → After P (if b then x else y)
After-if P true x y h k = h
After-if P false x y h k = k

-- A command that takes nothing back and writes no memory but `o` and what is at `n` or above.
pub data Keeps (o n : ℕ) {A : Type 0} (m : M A) : Type 0 where
  keeps : ((w : World) → n ≤ w.next → After (LaterBut o n w) (m w)) → Keeps o n m

pub at :
    {o n : ℕ} {A : Type 0} {m : M A}
    → Keeps o n m
    → (w : World) → n ≤ w.next
    → After (LaterBut o n w) (m w)
at (keeps k) = k

module _ {o n : ℕ} where
  pub After-and_then :
      {A B : Type 0} (w : World) (m : Run A) (k : A → M B)
      → n ≤ w.next
      → After (LaterBut o n w) m
      → ((a : A) (v : World) → m ≡ ok a v → Keeps o n (k a))
      → After (LaterBut o n w) (and_then m k)
  After-and_then w (fault e) k le h next = tt
  After-and_then {A} {B} w (ok a v) k le h next =
      go (k a v) (at (next a v refl) v (omega (arith, le, h.next)))
    where
      go : (r : Run B) → After (LaterBut o n v) r → After (LaterBut o n w) r
      go (fault e) l = tt
      go (ok b u) l = Later-trans w v u h l

  pub Keeps-bind :
      {A B : Type 0} (m : M A) (k : A → M B)
      → Keeps o n m
      → ((a : A) → Keeps o n (k a))
      → Keeps o n (m >>= k)
  Keeps-bind m k h next = keeps λ w le. After-and_then w (m w) k le (at h w le) λ a _ _. next a

  pub Keeps-then :
      {A B : Type 0} (m : M A) (k : M B) → Keeps o n m → Keeps o n k → Keeps o n (m >> k)
  Keeps-then m k h next = keeps λ w le. After-and_then w (m w) (λ _. k) le (at h w le) λ _ _ _. next

  pub Keeps-pure : {A : Type 0} (a : A) → Keeps o n {A = A} (pure a)
  Keeps-pure a = keeps λ w _. Later-refl w

  pub Keeps-stop : {A : Type 0} (e : Fault) → Keeps o n {A = A} (stop e)
  Keeps-stop e = keeps λ w _. tt

  pub Keeps-if :
      {A : Type 0} (b : Bool) (m k : M A)
      → Keeps o n m
      → Keeps o n k
      → Keeps o n (if b then m else k)
  Keeps-if true m k h l = h
  Keeps-if false m k h l = l

  -- A change of one ring.
  pub put_ring-Later :
      (r : ℕ) (x : Ring) (w : World)
      → RingLater (w.ring r) x
      → LaterBut o n w (record w { ring = update w.ring r x })
  put_ring-Later r x w h = record {
    rings = λ q. elim (ℕ_discrete q r) [
      | yes e ↦ rw e (rw (==_self r) h)
      | no ne ↦ rw (==_ne q r ne) (RingLater-refl (w.ring q))
    ];
    next = omega arith;
    fresh = λ f. f;
    halted = λ h. h;
    requested = λ h. h;
    picks = λ c. c;
    workers = refl;
    gone = λ _ _ e. e;
    frame = λ _ _ _. refl;
  }

  pub Keeps-change :
      (r : ℕ) (f : Ring → Ring)
      → ((x : Ring) → RingLater x (f x))
      → Keeps o n (get_ring r >>= λ x. put_ring r (f x))
  Keeps-change r f h = keeps λ w le. put_ring-Later r (f (w.ring r)) w (h (w.ring r))

  pub Keeps-get_ring : (r : ℕ) → Keeps o n (get_ring r)
  Keeps-get_ring r = keeps λ w _. Later-refl w

  pub Keeps-alloc : (c : Cell) → Keeps o n (alloc c)
  unfolding alloc
  Keeps-alloc c = keeps λ w le. record {
    rings = λ r. RingLater-refl (w.ring r);
    next = omega arith;
    fresh = λ f p h. ground (arith, f p);
    halted = λ h. h;
    requested = λ h. h;
    picks = λ c. c;
    workers = refl;
    gone = λ q l e. update_ne w.heap w.next q (some c) (λ k. absurd (omega (arith, k, l))) ∙ e;
    frame = λ q ne below.
        update_ne w.heap w.next q (some c) (λ e. absurd (omega (arith, e, below, le)));
  }

  pub Keeps-load : (p : ℕ) → Keeps o n (load p)
  unfolding load
  Keeps-load p = keeps λ w le. elim (Option-cases (w.heap p)) [
    | inl e ↦ rw (e, load) tt
    | inr (c, e) ↦ rw (e, load) (Later-refl w)
  ]

  pub store-Later :
      (p : ℕ) (c c' : Cell) (w : World)
      → Touches o n p
      → w.heap p ≡ some c
      → After (LaterBut o n w) (store p c' w)
  unfolding store
  store-Later p c c' w h live = heap-Later p (some c') w h live

  pub Keeps-free : (p : ℕ) → Touches o n p → Keeps o n (free p)
  unfolding free
  Keeps-free p h = keeps λ w le. elim (Option-cases (w.heap p)) [
    | inl e ↦ rw (e, free) tt
    | inr (c, e) ↦ rw (e, free) (heap-Later p none w h e)
  ]

  -- A token that is read; what follows may rely on its place being in use.
  pub Keeps-token :
      {A : Type 0} (p : ℕ) (k : CompletionToken → M A)
      → ((t : CompletionToken) (c : Cell) (w : World)
          → n ≤ w.next
          → w.heap p ≡ some c
          → After (LaterBut o n w) (k t w))
      → Keeps o n (load p >>= λ c. cast_token c >>= k)
  unfolding load
  Keeps-token {A} p k h = keeps λ w le. elim (Option-cases (w.heap p)) [
    | inl e ↦ rw (e, load) tt
    | inr (c, e) ↦ subst (After (LaterBut o n w)) (sym (loaded w c e)) (go w le c e)
  ]
    where
      body : Cell → M A
      body c = cast_token c >>= k

      loaded : (w : World) (c : Cell) → w.heap p ≡ some c → (load p >>= body) w ≡ body c w
      loaded w c e = rw (e, load) refl

      go :
          (w : World)
          → n ≤ w.next
          → (c : Cell) → w.heap p ≡ some c
          → After (LaterBut o n w) (body c w)
      go w le (token t) e = h t (token t) w le e
      go w le (task_msg _) e = tt
      go w le (conn_msg _ _) e = tt
      go w le (macc_msg _ _) e = tt

  pub Keeps-cast_token : (c : Cell) → Keeps o n (cast_token c)
  Keeps-cast_token (token t) = Keeps-pure t
  Keeps-cast_token (task_msg _) = Keeps-stop _
  Keeps-cast_token (conn_msg _ _) = Keeps-stop _
  Keeps-cast_token (macc_msg _ _) = Keeps-stop _

  -- A ring that is read, changed and left behind.
  pub Keeps-get_put :
      {A : Type 0} (r : ℕ) (f : Ring → Ring) (k : Ring → M A)
      → ((x : Ring) → RingLater x (f x))
      → ((x : Ring) → Keeps o n (k x))
      → Keeps o n (get_ring r >>= λ x. put_ring r (f x) >> k x)
  Keeps-get_put r f k h next = keeps λ w le.
      After-and_then w (put_ring r (f (w.ring r)) w) (λ _. k (w.ring r)) le
        (put_ring-Later r (f (w.ring r)) w (h (w.ring r))) λ _ _ _. next (w.ring r)

  -- A cell that is read as what `cast` makes of it.
  pub Keeps-load_as :
      {A B : Type 0} (p : ℕ) (cast : Cell → M A) (k : A → M B)
      → ((c : Cell) → Keeps o n (cast c))
      → ((a : A) → Keeps o n (k a))
      → Keeps o n (load p >>= λ c. cast c >>= k)
  Keeps-load_as p cast k h next =
      Keeps-bind (load p) _ (Keeps-load p) λ c. Keeps-bind (cast c) k (h c) next
