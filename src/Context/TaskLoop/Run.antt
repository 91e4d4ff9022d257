-- ===== src/Context/TaskLoop/Run.antt =====
-- A pass of the task loop ends, and drops nothing.
use mathlib.Core.Option
use co_net.Base.{
  ℕ, zero, suc, ◌+◌, ◌≤◌, ◌<◌, ◌≡◌, refl, ap, inl, inr, true, false, List, [], ◌∷◌, ◌++◌, map, some,
  arith, length, length-append, get_elem?, get_elem?-append_left, Bool-cases,
}
use co_net.Async.Scheduled.{ScheduledTask, schedule}
use co_net.Context.TaskLoop.{Effect, is_ready, resume, run}

length-map : {A B : Type 0} (f : A → B) (xs : List A) → length (map f xs) ≡ length xs
length-map f [] = refl
length-map f (x ∷ xs) = ap suc (length-map f xs)

-- How a list of tasks may look after a pass: no task has gone; at its place a task that was not ready
-- is as it was, and one that was ready has been resumed once.
pub record Passed {S H : Type 0} (coro : S → H → S × Effect H) (ts ts' : List (ScheduledTask H))
    : Type 0 where
  pub kept : length ts ≤ length ts'
  pub untouched :
      (i : ℕ) (t : ScheduledTask H)
      → get_elem? ts i ≡ some t
      → is_ready t ≡ false
      → get_elem? ts' i ≡ some t
  pub resumed :
      (i : ℕ) (t : ScheduledTask H)
      → get_elem? ts i ≡ some t
      → is_ready t ≡ true
      → (s : S) × (get_elem? ts' i ≡ some (resume coro s t))

module _ {S H : Type 0} (coro : S → H → S × Effect H) where
  Passed-append :
      (ts us ts' : List (ScheduledTask H)) → Passed coro (ts ++ us) ts' → Passed coro ts ts'
  Passed-append ts us ts' p = record {
    kept = omega (arith, p.kept, length-append ts us);
    untouched = λ i t e n. p.untouched i t (get_elem?-append_left ts us i e) n;
    resumed = λ i t e y. p.resumed i t (get_elem?-append_left ts us i e) y;
  }

  Passed-resumed :
      (s : S) (t : ScheduledTask H) (ts ts' : List (ScheduledTask H))
      → is_ready t ≡ true
      → Passed coro ts ts'
      → Passed coro (t ∷ ts) (resume coro s t ∷ ts')
  Passed-resumed s t ts ts' go p = record {
    kept = omega (arith, p.kept);
    untouched = others;
    resumed = run_once;
  }
    where
      others :
          (i : ℕ) (x : ScheduledTask H)
          → get_elem? (t ∷ ts) i ≡ some x
          → is_ready x ≡ false
          → get_elem? (resume coro s t ∷ ts') i ≡ some x
      others zero x e n = ground arith
      others (suc i) x e n = p.untouched i x e n

      run_once :
          (i : ℕ) (x : ScheduledTask H)
          → get_elem? (t ∷ ts) i ≡ some x
          → is_ready x ≡ true
          → (s₁ : S) × (get_elem? (resume coro s t ∷ ts') i ≡ some (resume coro s₁ x))
      run_once zero x e y = (s, ap (Option.map (resume coro s)) e)
      run_once (suc i) x e y = p.resumed i x e y

  Passed-skipped :
      (t : ScheduledTask H) (ts ts' : List (ScheduledTask H))
      → is_ready t ≡ false
      → Passed coro ts ts'
      → Passed coro (t ∷ ts) (t ∷ ts')
  Passed-skipped t ts ts' skip p = record {
    kept = omega (arith, p.kept);
    untouched = others;
    resumed = run_once;
  }
    where
      others :
          (i : ℕ) (x : ScheduledTask H)
          → get_elem? (t ∷ ts) i ≡ some x
          → is_ready x ≡ false
          → get_elem? (t ∷ ts') i ≡ some x
      others zero x e n = e
      others (suc i) x e n = p.untouched i x e n

      run_once :
          (i : ℕ) (x : ScheduledTask H)
          → get_elem? (t ∷ ts) i ≡ some x
          → is_ready x ≡ true
          → (s₁ : S) × (get_elem? (t ∷ ts') i ≡ some (resume coro s₁ x))
      run_once zero x e y = absurd (ground arith)
      run_once (suc i) x e y = p.resumed i x e y

module _ {S H : Type 0} (coro : S → H → S × Effect H) (budget : S → ℕ)
    (spends : (s : S) (h : H) → budget (coro s h).0 + length (coro s h).1.spawned ≤ budget s) where
  -- A pass of the task loop ends, with fuel for one round for each task and for each coroutine that
  -- `budget` still allows to be spawned, where every resumption spends what it spawns from the
  -- budget. No task has gone, a task that was not ready is as it was at its place, and a task that
  -- was ready has been resumed once at its place.
  pub run-Passed :
      (fuel : ℕ) (s : S) (ts : List (ScheduledTask H))
      → length ts + budget s < fuel
      → (s' : S) × (ts' : List (ScheduledTask H)) × (run coro fuel s ts ≡ some (s', ts'))
        × Passed coro ts ts'
  unfolding run
  run-Passed zero s ts h = absurd (omega arith)
  run-Passed (suc fuel) s [] h = (
    s,
    [],
    refl,
    record { kept = omega arith; untouched = λ i t e _. e; resumed = λ i t e _. cc },
  )
  run-Passed (suc fuel) s (t ∷ ts) h = elim (Bool-cases (is_ready t)) [
    | inl go ↦
        let (s', e) = coro s t.awaiting_handle in
        let (s'', ts', eq, p) = run-Passed fuel s' (ts ++ map schedule e.spawned) (
          omega (
            arith,
            spends s t.awaiting_handle,
            length-append ts (map schedule e.spawned),
            length-map schedule e.spawned,
          )) in
        (
          s'',
          resume coro s t ∷ ts',
          rw (go, eq) refl,
          Passed-resumed coro s t ts ts' go (Passed-append coro ts (map schedule e.spawned) ts' p),
        )
    | inr skip ↦
        let (s', ts', eq, p) = run-Passed fuel s ts (omega arith) in
        (s', t ∷ ts', rw (skip, eq) refl, Passed-skipped coro t ts ts' skip p)
  ]
