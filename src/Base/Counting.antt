-- ===== src/Base/Counting.antt =====
-- How many of the first `n` places of a family of tests hold.
use co_net.Base.Tests.{◌==◌, if◌then◌else◌, Bool-cases}
use Prim.Native.Nat.{ℕ, zero, suc, ◌+◌, ◌≤◌, ◌<◌}
use mathlib.Core.Path.{◌≡◌, refl}
use mathlib.Core.Logic.{inl, inr}
use mathlib.Core.Bool.{Bool, true, false}
use native.Mathlib.Decide.{dec_lt}
use native.Mathlib.Omega.{arith}

pub count : ℕ → (ℕ → Bool) → ℕ
count zero f = 0
count (suc n) f = count n f + (if f n then 1 else 0)

abbrev mark : (ℕ → Bool) → ℕ → ℕ → Bool
mark f i j = if j == i then true else f j

count-update_of_le : (n : ℕ) (f : ℕ → Bool) (i : ℕ) → n ≤ i → count n (mark f i) ≡ count n f
unfolding count
count-update_of_le zero f i h = refl
count-update_of_le (suc n) f i h = ground (arith, count-update_of_le n f i)

pub count-update :
    (n : ℕ) (f : ℕ → Bool) (i : ℕ) → i < n → f i ≡ false → count n (mark f i) ≡ count n f + 1
unfolding count
count-update zero f i below new = absurd (omega arith)
count-update (suc n) f i below new = elim (dec_lt i n) [
  | yes h ↦ ground (arith, count-update n f i h new)
  | no h ↦ ground (arith, count-update_of_le n f i)
]

pub count-le : (n : ℕ) (f : ℕ → Bool) → count n f ≤ n
unfolding count
count-le zero f = omega arith
count-le (suc n) f = ground (arith, count-le n f)

pub count-full : (n : ℕ) (f : ℕ → Bool) → count n f ≡ n → (i : ℕ) → i < n → f i ≡ true
unfolding count
count-full zero f h i below = absurd (omega arith)
count-full (suc n) f h i below = elim (dec_lt i n) [
  | yes lower ↦ count-full n f (ground (arith, count-le n f)) i lower
  | no last ↦ ground (arith, count-le n f)
]

pub count-less : (n : ℕ) (f : ℕ → Bool) → count n f < n → (i : ℕ) × (i < n) × (f i ≡ false)
unfolding count
count-less zero f h = absurd (omega arith)
count-less (suc n) f h = elim (Bool-cases (f n)) [
  | inr new ↦ (n, omega arith, new)
  | inl old ↦ let (i, below, new) = count-less n f (ground (arith, h, old)) in (i, omega arith, new)
]

pub count-none : (n : ℕ) → count n (λ _. false) ≡ 0
unfolding count
count-none zero = refl
count-none (suc n) = ground (arith, count-none n)
