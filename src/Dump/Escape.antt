-- ===== src/Dump/Escape.antt =====
-- What becomes of a message and of a file's path.
use co_net.Base.{
  ℕ, ◌≡◌, ◌≢◌, refl, sym, ap, Bool, true, false, [], ◌∷◌, ◌++◌, ◌==◌, ==_ne, if◌then◌else◌, subst,
  arith,
}
use native.Mathlib.Decide.{ℕ_discrete}
use co_net.Dump.{Text, nul, newline, backslash, letter_n, transfer}

-- Every character of a text has the property.
abbrev pub Every : (ℕ → Type 0) → Text → Type 0
Every P [] = Unit {0}
Every P (c ∷ cs) = P c × Every P cs

-- The message up to its first null character, which is part of it.
abbrev pub through_nul : Text → Text
through_nul [] = []
through_nul (c ∷ cs) = let rest = through_nul cs in c ∷ (if c == nul then [] else rest)

-- The texts of the characters one after the other.
abbrev pub each : (ℕ → Text) → Text → Text
each f [] = []
each f (c ∷ cs) = f c ++ each f cs

abbrev pub shown : ℕ → Text
shown c = if c == newline then backslash ∷ letter_n ∷ [] else c ∷ []

Every-append : (P : ℕ → Type 0) (xs ys : Text) → Every P xs → Every P ys → Every P (xs ++ ys)
Every-append P [] ys h k = k
Every-append P (x ∷ xs) ys (p, h) k = (p, Every-append P xs ys h k)

shown-Every : (c : ℕ) → Every (λ d. d ≢ newline) (shown c)
shown-Every c = elim (ℕ_discrete c newline) [
  | yes e ↦ rw e (λ h. absurd (omega (arith, h)), (λ h. absurd (omega (arith, h)), tt))
  | no ne ↦ rw (==_ne c newline ne) (ne, tt)
]

each-Every : (msg : Text) → Every (λ d. d ≢ newline) (each shown msg)
each-Every [] = tt
each-Every (c ∷ cs) = Every-append _ (shown c) (each shown cs) (shown-Every c) (each-Every cs)

transfer-each : (msg : Text) → transfer msg ≡ each shown (through_nul msg)
unfolding transfer
transfer-each [] = refl
transfer-each (c ∷ cs) = ap (◌++◌ (shown c)) (go (c == nul) (transfer-each cs))
  where
    go :
        (b : Bool)
        → transfer cs ≡ each shown (through_nul cs)
        → (if b then [] else transfer cs) ≡ each shown (if b then [] else through_nul cs)
    go true h = refl
    go false h = h

-- The loop of `Dump` over the characters of a message, for any message: its text is that of the
-- characters up to the first null character and with it, one after the other, each as it is, but a
-- newline as a backslash and the letter n; so it has no newline.
pub transfer-shown :
    (msg : Text)
    → (transfer msg ≡ each shown (through_nul msg)) × Every (λ c. c ≢ newline) (transfer msg)
transfer-shown msg = (
  transfer-each msg,
  subst (Every (λ c. c ≢ newline)) (sym (transfer-each msg)) (each-Every (through_nul msg)),
)
