-- ===== src/Async/Frame/Chain.antt =====
-- Coroutines that await one another.
use co_net.Base.{ℕ, ◌≡◌, ◌≢◌, refl, List, [], ◌∷◌, Option, none, some, ==_self, ==_ne}
use co_net.Async.Frame.{
  Promise, Frames, put, to, await_suspend, final_suspend, set_caller, set_chain_root,
}

abbrev pub NotIn : ℕ → List ℕ → Type 0
NotIn h [] = Unit {0}
NotIn h (k ∷ ks) = (k ≢ h) × NotIn h ks

module _ {C E A : Type 0} where
  -- The coroutines that a scheduled task runs, innermost first: each was awaited by the next, all
  -- belong to the task `c`, and the last was awaited by none.
  pub data Chain (c : Option C) (fs : Frames C E A) : List ℕ → Type 0 where
    root :
        {h : ℕ} {p : Promise C E A}
        → fs h ≡ some p
        → p.caller ≡ none
        → p.this_chain_task ≡ c
        → Chain c fs (h ∷ [])
    link :
        {h k : ℕ} {hs : List ℕ} {p : Promise C E A}
        → fs h ≡ some p
        → p.caller ≡ some k
        → p.this_chain_task ≡ c
        → Chain c fs (k ∷ hs)
        → Chain c fs (h ∷ k ∷ hs)

  Chain-put :
      {c : Option C} {fs : Frames C E A} {hs : List ℕ} (h : ℕ) (p : Promise C E A)
      → NotIn h hs
      → Chain c fs hs
      → Chain c (put h p fs) hs
  Chain-put h p out (root {p = q} e n t) = root {p = q} (rw (==_ne _ h out.0) e) n t
  Chain-put h p out (link {p = q} e n t ch) =
      link {p = q} (rw (==_ne _ h out.0) e) n t (Chain-put h p out.1 ch)

  Chain-head :
      {c : Option C} {fs : Frames C E A} {h : ℕ} {hs : List ℕ}
      → Chain c fs (h ∷ hs)
      → (p : Promise C E A) × (fs h ≡ some p) × (p.this_chain_task ≡ c)
  Chain-head (root {p} e n t) = (p, e, t)
  Chain-head (link {p} e n t ch) = (p, e, t)

  -- When the innermost coroutine of a task's chain awaits a live coroutine that is not in the
  -- chain, the callee runs next and is the innermost one of the same task's chain, in front of the
  -- members that it had.
  pub await_suspend-Chain :
      {c : Option C} {fs : Frames C E A} {caller : ℕ} {hs : List ℕ} {p : Promise C E A} (callee : ℕ)
      → Chain c fs (caller ∷ hs)
      → fs callee ≡ some p
      → NotIn callee (caller ∷ hs)
      → (gs : Frames C E A) × (await_suspend callee caller fs ≡ some (gs, to callee))
        × Chain c gs (callee ∷ caller ∷ hs)
  unfolding await_suspend set_caller set_chain_root
  await_suspend-Chain {fs} {caller} {p} callee ch e out =
      let (q, live, owner) = Chain-head ch in
      let p' : Promise C E A = record p {
        caller = some caller;
        this_chain_task = q.this_chain_task;
      } in
      (
        put callee p' fs,
        rw (e, live, await_suspend) refl,
        link {p = p'} (rw (==_self callee) refl) refl owner (Chain-put callee p' out ch),
      )

  -- When the innermost coroutine of a task's chain ends and another awaits it, control goes to the
  -- one that awaits it, which is the innermost of the rest of the chain.
  pub final_suspend-Chain :
      {c : Option C} {fs : Frames C E A} {h k : ℕ} {hs : List ℕ}
      → Chain c fs (h ∷ k ∷ hs)
      → (p : Promise C E A) × (fs h ≡ some p) × (final_suspend p ≡ to k) × Chain c fs (k ∷ hs)
  unfolding final_suspend
  final_suspend-Chain (link {p} e n t ch) = (p, e, rw (n, final_suspend) refl, ch)
