-- ===== src/Context/Flight/Batch/Loops.antt =====
-- `process_all` and `process_batch`.
use co_net.Base.{
  ℕ, ◌≡◌, refl, subst, Bool, true, false, List, [], ◌∷◌, ◌++◌, arith, length, if◌then◌else◌,
}
use co_net.Io.Sqe.{Cqe, Prep, prep}
use co_net.Io.World.{Platform, Run, ok, fault, M, and_then, ◌>>=◌, ◌>>◌, pure, get_ring}
use co_net.Io.World.Keeps.{
  After, Keeps, Keeps-then, Keeps-bind, Keeps-pure, Keeps-if, Keeps-get_ring,
}
use co_net.Io.Ring.{consume, put_sqe, submit_all}
use co_net.Io.Ring.Kept.{Keeps-consume, Keeps-put_sqe, Keeps-submit_all}
use co_net.Io.Handler.{handle_request, handle_all, process_all, handle_until_stopped, process_batch}
use co_net.Io.Handler.Harmless
use co_net.Io.Handler.Harmless.{Ordinary, Harmless, run_of}
use co_net.Io.Tickets.{tickets, recurs, sent}
use co_net.Io.Tickets.Posts.{Posts, post}
use co_net.Io.Tickets.Quiet.{
  Quiet, Posting-Quiet, Quiet-then, Quiet-bind, Quiet-pure, Quiet-if, Quiet-get_ring, Quiet-consume,
  Quiet-put_sqe, Quiet-submit_all,
}
use co_net.Context.Flight.{System}
use co_net.Context.Flight.Multishot.{IsArmed-Later}
use co_net.Context.Flight.Safe.{IsFlying, grow, not_zero}
use co_net.Context.Flight.Batch.{Takes, first, after_first, Safely}

module _ (lib : Platform) (armed : Bool) (this : ℕ) where
  handle_all-Safely :
      (cs : List Cqe) (s : System)
      → IsFlying lib s
      → s.armed ≡ armed
      → Takes lib armed this s.flight cs
      → Safely lib armed this (handle_all lib this cs s.world)
  unfolding handle_all
  handle_all-Safely [] s f same t = (tt, (s, refl, f))
  handle_all-Safely (c ∷ cs) s f same t =
      after_first lib armed this cs _ (handle_all lib this cs)
        (first lib armed this s c cs f same t) λ u g e rest. handle_all-Safely cs u g e rest

  handle_until_stopped-Safely :
      (cs : List Cqe) (s : System)
      → IsFlying lib s
      → s.armed ≡ armed
      → Takes lib armed this s.flight cs
      → Safely lib armed this (handle_until_stopped lib this cs s.world)
  unfolding handle_until_stopped
  handle_until_stopped-Safely [] s f same t = (tt, (s, refl, f))
  handle_until_stopped-Safely (c ∷ cs) s f same t =
      either (s.world.ring this).stopped (pure tt)
        (handle_request lib this c >> handle_until_stopped lib this cs) (tt, (s, refl, f))
        (after_first lib armed this cs _ (handle_until_stopped lib this cs)
          (first lib armed this s c cs f same t)
          λ u g e rest. handle_until_stopped-Safely cs u g e rest)
    where
      either :
          (b : Bool) (x y : M (Unit {0}))
          → Safely lib armed this (x s.world)
          → Safely lib armed this (y s.world)
          → Safely lib armed this ((if b then x else y) s.world)
      either true x y h k = h
      either false x y h k = k

  -- What only tidies up afterwards.
  tidies :
      (x : Run (Unit {0})) (k : M (Unit {0}))
      → Harmless k
      → Quiet k
      → ((n : ℕ) → Keeps 0 n k)
      → Safely lib armed this x
      → Safely lib armed this (and_then x λ _. k)
  tidies (fault e) k h q l g = (g.0, tt)
  tidies (ok tt v) k h q l (o, (s, e, f)) =
      subst (λ w. Safely lib armed this (k w)) e
        (
          run_of h s.world,
          go (k s.world) (post (Posting-Quiet {r = this} k l q) s.world (omega (arith, f.static))),
        )
    where
      go :
          (y : Run (Unit {0}))
          → After (Posts 0 this s.world) y
          → After (λ v. (u : System) × (u.world ≡ v) × IsFlying lib u) y
      go (fault e) p = tt
      go (ok tt v) p =
          let u : System = record { world = v; flight = s.flight ++ p.new; armed = s.armed } in
          (
            u,
            refl,
            (grow lib s u s.flight p.new f p p.adds refl f.apart f.due
                (not_zero lib s.world s.flight f.due)
                λ on. IsArmed-Later lib s.world v p.later f.not_null f.static (f.ready on)).flying,
          )

  Harmless-consume : (n : ℕ) → Harmless (consume this n)
  unfolding consume
  Harmless-consume n = Harmless.harmless λ w. tt

  -- The end of a batch after which the ring has stopped.
  abbrev over : ℕ → ℕ → M (Unit {0})
  over left after =
      consume this left
      >> (put_sqe lib this (prep Prep.cancel_any ∷ [])
          >> (submit_all lib this this >> consume this after))

  abbrev finish : ℕ → ℕ → M (Unit {0})
  finish left after = get_ring this >>= λ r. if r.stopped then over left after else pure tt

  Harmless-finish : (left after : ℕ) → Harmless (finish left after)
  Harmless-finish left after = Harmless.Harmless-bind _ _ (Harmless.Harmless-get_ring this) λ r.
      Harmless.Harmless-if r.stopped (over left after) (pure tt)
        (Harmless.Harmless-then _ _ (Harmless-consume left) (
          Harmless.Harmless-then _ _ (Harmless.Harmless-put_sqe lib this _) (
            Harmless.Harmless-then _ _ (Harmless.Harmless-submit_all lib this this)
              (Harmless-consume after))))
        (Harmless.Harmless-pure tt)

  Quiet-finish : (left after : ℕ) → Quiet (finish left after)
  unfolding tickets sent recurs
  Quiet-finish left after = Quiet-bind _ _ (Quiet-get_ring this) λ r.
      Quiet-if r.stopped (over left after) (pure tt)
        (Quiet-then _ _ (Quiet-consume this left) (
          Quiet-then _ _ (Quiet-put_sqe lib this _ λ q. refl)
            (Quiet-then _ _ (Quiet-submit_all lib this this) (Quiet-consume this after))))
        (Quiet-pure tt)

  Keeps-finish : (left after n : ℕ) → Keeps 0 n (finish left after)
  Keeps-finish left after n = Keeps-bind _ _ (Keeps-get_ring this) λ r.
      Keeps-if r.stopped (over left after) (pure tt)
        (Keeps-then _ _ (Keeps-consume this left) (
          Keeps-then _ _ (Keeps-put_sqe lib this _)
            (Keeps-then _ _ (Keeps-submit_all lib this this) (Keeps-consume this after))))
        (Keeps-pure tt)

  -- In a system as `IsFlying` says, a batch of completions on a ring, each of another completion to
  -- come there or of the multishot accept that is under way on the main ring, is taken by
  -- `process_all` and by `process_batch`, which may stop the ring within it, without touching
  -- memory that is not in use, taking it for another kind or missing a task: each ends in the world
  -- of a system of that kind again, or fails for want of a free entry or at the call of an empty
  -- function.
  pub batches-Safely :
      (s : System) (cqes : List Cqe) (left after : ℕ)
      → IsFlying lib s
      → s.armed ≡ armed
      → Takes lib armed this s.flight cqes
      → Safely lib armed this (process_all lib this cqes s.world)
        × Safely lib armed this (process_batch lib this cqes left after s.world)
  unfolding process_all process_batch
  batches-Safely s cqes left after f same t = (
    tidies _ (consume this (length cqes)) (Harmless-consume (length cqes))
        (Quiet-consume this (length cqes)) (λ n. Keeps-consume this (length cqes))
        (handle_all-Safely cqes s f same t),
    tidies _ (consume this (length cqes) >> finish left after)
        (Harmless.Harmless-then _ _ (Harmless-consume (length cqes)) (Harmless-finish left after))
        (Quiet-then _ _ (Quiet-consume this (length cqes)) (Quiet-finish left after))
        (λ n. Keeps-then _ _ (Keeps-consume this (length cqes)) (Keeps-finish left after n))
        (handle_until_stopped-Safely cqes s f same t),
  )
