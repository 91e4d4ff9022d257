-- ===== src/Context/Workers/RoundRobin.antt =====
-- Work is dealt to the workers in turn.
use co_net.Base.{
  ℕ, zero, suc, ◌+◌, ◌-◌, ◌<◌, ◌≡◌, ◌⊎◌, inl, inr, refl, sym, ap, subst, ◌∙◌, some, List, [], ◌∷◌,
  ◌++◌, arith, append_assoc, length, length-append, get_elem?, get_elem?-length,
}
use native.Mathlib.Nat.{mod-eq_of_lt, mod_self}
use co_net.Base.Int.{ℤ, pos, minus_one}
use co_net.Io.World.{World, M, Ends, Ends-and_then, ok, pure, ◌>>=◌}
use co_net.Context.Workers.{pick_worker, next_index, count, get_uring_fd}

-- The rings that `n` calls of `pick_worker` choose.
pub pick_times : ℕ → M (List ℕ)
pick_times zero = pure []
pick_times (suc n) = do fd ← pick_worker; fds ← pick_times n; pure (fd ∷ fds)

abbrev pub picked : World → ℕ → World
picked w j = record w { sys_loop = record (w.sys_loop) { current_worker_uring_idx = pos j } }

pub pick_worker-ok :
    (w : World) (j : ℕ) (fd : ℕ)
    → next_index w.sys_loop.current_worker_uring_idx (length w.sys_loop.uring_fds) ≡ pos j
    → get_elem? w.sys_loop.uring_fds j ≡ some fd
    → 0 < length w.sys_loop.uring_fds
    → pick_worker w ≡ ok fd (picked w j)
unfolding pick_worker count get_uring_fd
pick_worker-ok w j fd n e h = ground arith

abbrev Dealt : World → List ℕ → ℕ → List ℕ → World → Type 0
Dealt w ys last fds w' = (fds ≡ ys) × (w' ≡ picked w last)

module _ (xs : List ℕ) (y : ℕ) (ys : List ℕ) (w : World) (e : w.sys_loop.uring_fds ≡ xs ++ y ∷ ys)
    (n : next_index w.sys_loop.current_worker_uring_idx (length w.sys_loop.uring_fds)
      ≡ pos (length xs)) where
  pick-next : pick_worker w ≡ ok y (picked w (length xs))
  pick-next =
      pick_worker-ok w (length xs) y n (rw e (get_elem?-length xs y ys))
        (rw e (omega (arith, length-append xs (y ∷ ys))))

next-length :
    (xs : List ℕ) (y z : ℕ) (zs : List ℕ) (w : World)
    → w.sys_loop.uring_fds ≡ xs ++ y ∷ z ∷ zs
    → next_index (pos (length xs)) (length w.sys_loop.uring_fds) ≡ pos (length (xs ++ y ∷ []))
unfolding next_index
next-length xs y z zs w e = ap pos (
    mod-eq_of_lt (omega (arith, ap length e, length-append xs (y ∷ z ∷ zs)))
    ∙ omega (arith, length-append xs (y ∷ [])))

-- What is left to deal in this turn: `y ∷ ys`, after `xs`.
picks :
    (xs : List ℕ) (y : ℕ) (ys : List ℕ) (w : World)
    → w.sys_loop.uring_fds ≡ xs ++ y ∷ ys
    → next_index w.sys_loop.current_worker_uring_idx (length w.sys_loop.uring_fds) ≡ pos (length xs)
    → Ends (Dealt w (y ∷ ys) (length xs + length ys)) (pick_times (suc (length ys)) w)
unfolding pick_times
picks xs y [] w e n = rw (pick-next xs y [] w e n) (refl, ap (picked w) (omega arith))
picks xs y (z ∷ zs) w e n = rw (pick-next xs y (z ∷ zs) w e n) (
    Ends-and_then (Dealt (picked w (length xs)) (z ∷ zs) (length (xs ++ y ∷ []) + length zs))
      (Dealt w (y ∷ z ∷ zs) (length xs + suc (length zs)))
      (pick_times (suc (length zs)) (picked w (length xs))) (λ fds. pure (y ∷ fds))
      (picks (xs ++ y ∷ []) z zs (picked w (length xs))
        (e ∙ sym (append_assoc xs (y ∷ []) (z ∷ zs))) (next-length xs y z zs w e))
      λ fds w' d. (ap (◌∷◌ y) d.0, d.1 ∙ ap (picked w) (omega (arith, length-append xs (y ∷ [])))))

next-start : (i : ℤ) (n : ℕ) → 0 < n → (i ≡ minus_one) ⊎ (i ≡ pos (n - 1)) → next_index i n ≡ pos 0
unfolding next_index
next-start i n h (inl e) = rw e (ground (arith, mod-eq_of_lt {n = 0} {m = n} h))
next-start i n h (inr e) = rw e (ap pos (let p : n - 1 + 1 ≡ n = omega arith in rw p (mod_self n)))

-- From the initial index or that of the last worker, as many picks as there are workers, of which
-- there is one at least, do not fail, choose every worker's ring once, in the order of the rings,
-- and end at the last.
pub pick_times-uring_fds :
    (w : World)
    → 0 < length w.sys_loop.uring_fds
    → (w.sys_loop.current_worker_uring_idx ≡ minus_one)
      ⊎ (w.sys_loop.current_worker_uring_idx ≡ pos (length w.sys_loop.uring_fds - 1))
    → Ends
        (λ fds w'. (fds ≡ w.sys_loop.uring_fds) × (w' ≡ picked w (length w.sys_loop.uring_fds - 1)))
        (pick_times (length w.sys_loop.uring_fds) w)
pick_times-uring_fds w h turn = go w.sys_loop.uring_fds refl
  where
    go :
        (l : List ℕ)
        → w.sys_loop.uring_fds ≡ l
        → Ends
            (λ fds w'.
              (fds ≡ w.sys_loop.uring_fds) × (w' ≡ picked w (length w.sys_loop.uring_fds - 1)))
            (pick_times (length w.sys_loop.uring_fds) w)
    go [] e = absurd (omega (arith, ap length e))
    go (y ∷ ys) e =
        subst
          (λ l.
            Ends (λ fds w'. (fds ≡ l) × (w' ≡ picked w (length l - 1))) (pick_times (length l) w))
          (sym e)
          (subst (λ k. Ends (Dealt w (y ∷ ys) k) (pick_times (suc (length ys)) w)) last
            (picks [] y ys w e (next-start _ _ h turn)))
      where
        last : 0 + length ys ≡ suc (length ys) - 1
        last = omega arith
