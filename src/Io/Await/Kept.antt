-- ===== src/Io/Await/Kept.antt =====
-- No await takes anything back.
use co_net.Base.{ℕ, ◌≡◌, inr, arith, true, Option, none, some, refl}
use co_net.Async.Scheduled.{set_awaiting_handle}
use co_net.Io.Token.{TaskRef, Coro, token}
use co_net.Io.World.{World, Platform, Fault, store, alloc, ok, fault, Run, and_then, pure}
use co_net.Io.World.Later.{Touches}
use co_net.Io.World.Keeps.{
  Keeps, Keeps-bind, Keeps-then, Keeps-pure, Keeps-stop, Keeps-alloc, Keeps-token, After-and_then,
  store-Later, keeps, at,
}
use co_net.Io.Ring.Kept.{Keeps-modify, Keeps-set_task_pending, Keeps-put_sqe}
use co_net.Io.Await.{Awaiter, set_task_handle, await_suspend, pending_suspend, construct, suspend}

-- The address of the token is the next one.
construct-place :
    (lib : Platform) (local : ℕ) (a : Awaiter) (w : World) {p : ℕ} {v : World}
    → construct lib local a w ≡ ok p v
    → p ≡ w.next
unfolding construct alloc
construct-place lib local a w e = last _ w.next e
  where
    last :
        (r : Run (Unit {0})) (a : ℕ) {b : ℕ} {u : World} → and_then r (λ _. pure a) ≡ ok b u → b ≡ a
    last (fault x) a h = cc
    last (ok x v) a h = cc

module _ {o n : ℕ} where
  pub Keeps-set_task_handle :
      (caller : Coro) (chain : Option TaskRef) → Keeps o n (set_task_handle caller chain)
  unfolding set_task_handle set_awaiting_handle
  Keeps-set_task_handle caller none = Keeps-stop Fault.null_task
  Keeps-set_task_handle caller (some t) = Keeps-modify t (set_awaiting_handle caller) λ u. refl

  pub Keeps-await_suspend :
      (p : ℕ) (caller : Coro) (chain : Option TaskRef)
      → Touches o n p
      → Keeps o n (await_suspend p caller chain)
  unfolding await_suspend
  Keeps-await_suspend p caller chain mine = Keeps-then _ _ (Keeps-set_task_handle caller chain) (
      Keeps-token p _ λ t c w le live.
        After-and_then w (store p (token (record t { chain_task = chain })) w) _ le
          (store-Later p c (token (record t { chain_task = chain })) w mine live)
          λ _ _ _. Keeps-set_task_pending true chain)

  pub Keeps-pending_suspend :
      (caller : Coro) (chain : Option TaskRef) → Keeps o n (pending_suspend caller chain)
  unfolding pending_suspend
  Keeps-pending_suspend caller chain =
      Keeps-then _ _ (Keeps-set_task_handle caller chain) (Keeps-set_task_pending true chain)

  Keeps-construct : (lib : Platform) (local : ℕ) (a : Awaiter) → Keeps o n (construct lib local a)
  unfolding construct
  Keeps-construct lib local a =
      Keeps-bind _ _ (Keeps-alloc _) λ p. Keeps-then _ _ (Keeps-put_sqe lib _ _) (Keeps-pure p)

  pub Keeps-suspend :
      (lib : Platform) (local : ℕ) (a : Awaiter) (caller : Coro) (chain : Option TaskRef)
      → Keeps o n (suspend lib local a caller chain)
  unfolding suspend
  Keeps-suspend lib local a caller chain = keeps λ w le.
      After-and_then w (construct lib local a w) _ le (at (Keeps-construct lib local a) w le)
        λ p v e.
          Keeps-then _ _
            (Keeps-await_suspend p caller chain
              (inr (omega (arith, le, construct-place lib local a w e))))
            (Keeps-pure p)
