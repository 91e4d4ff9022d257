-- ===== src/Base/Int.antt =====
-- Signed integers over the native numbers, under the library's names, and the two readings of a
-- 32-bit and of a 64-bit pattern.
use co_net.Base.{ℕ, ◌-◌, ◌^◌, ◌%◌, ◌≡◌, Bool, true, false, arith, ◌==◌, ltb, if◌then◌else◌}

-- `negsuc n` is -(n + 1).
pub data ℤ : Type 0 where
  pos : ℕ → ℤ
  negsuc : ℕ → ℤ

abbrev pub minus_one : ℤ
minus_one = negsuc 0

abbrev pub neg : ℕ → ℤ
neg n = if n == 0 then pos 0 else negsuc (n - 1)

infix 50 ◌==ℤ◌
abbrev pub ◌==ℤ◌ : ℤ → ℤ → Bool
pos a ==ℤ pos b = a == b
negsuc a ==ℤ negsuc b = a == b
pos a ==ℤ negsuc b = false
negsuc a ==ℤ pos b = false

-- z < 0
abbrev pub is_neg : ℤ → Bool
is_neg (pos n) = false
is_neg (negsuc n) = true

pub ==ℤ_self : (a : ℤ) → (a ==ℤ a) ≡ true
==ℤ_self (pos n) = ground arith
==ℤ_self (negsuc n) = ground arith

pub eq_of_==ℤ : (a b : ℤ) → (a ==ℤ b) ≡ true → a ≡ b
eq_of_==ℤ a b h = ground arith

-- The value of a `w`-bit pattern read as a signed integer.
abbrev pub signed : ℕ → ℕ → ℤ
signed w n =
    if ltb (n % 2 ^ w) (2 ^ (w - 1)) then pos (n % 2 ^ w) else negsuc (2 ^ w - n % 2 ^ w - 1)
