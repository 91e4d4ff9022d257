-- ===== src/Io/Tickets.antt =====
-- The completions that the entries of the rings ask for, as io_uring documents them: an entry with
-- user data completes with it on its own ring, and a message to a ring arrives there with what the
-- entry says. An entry whose user data is never written asks for none here, and neither does that of the
-- multishot accept, which completes many times.
pub mod Posts
pub mod Quiet
pub mod Drafts
pub mod Sends
use co_net.Base.{
  ℕ, ◌<◌, ◌≤◌, ◌≡◌, ◌≢◌, ◌∙◌, ap, sym, Bool, true, false, Option, none, some, List, [], ◌∷◌, ◌++◌,
  append_assoc, refl, arith,
}
use co_net.Base.Int.{ℤ}
use co_net.Io.Sqe.{Prep, Flag, Write, Sqe, Cqe, prep, flag, user_data, buf_group, has_task}
use co_net.Io.World.{World, Ring}
use co_net.Io.Handler.Matching.{Matching}

-- A completion to come: on which ring, with which user data, with which result where it is known,
-- and whether it is marked as a task.
pub record Ticket : Type 0 where
  pub ring : ℕ
  pub address : ℕ
  pub res : Option ℤ
  pub marked : Bool

abbrev pub own : ℕ → ℕ → Ticket
own r p = record { ring = r; address = p; res = none; marked = false }

-- The completion on the ring that a message is for.
unfoldable pub sent : Prep → List Ticket
sent (Prep.msg_ring fd len p) =
    record { ring = fd; address = p; res = some len; marked = false } ∷ []
sent (Prep.msg_ring_cqe_flags fd len p flags) =
    record { ring = fd; address = p; res = some len; marked = has_task flags } ∷ []
sent (Prep.msg_ring_fd_alloc fd target p) = own fd p ∷ []
sent _ = []

unfoldable pub recurs : Prep → Bool
recurs (Prep.multishot_accept_direct socket) = true
recurs _ = false

-- The completions that an entry of the ring `r` asks for.
unfoldable pub tickets : ℕ → Sqe → List Ticket
tickets r [] = []
tickets r (prep c ∷ ws) = elim (recurs c) [ true ↦ [] | false ↦ sent c ++ tickets r ws ]
tickets r (flag f ∷ ws) = tickets r ws
tickets r (user_data p ∷ ws) = own r p ∷ tickets r ws
tickets r (buf_group g ∷ ws) = tickets r ws

unfoldable pub tickets_of : ℕ → List Sqe → List Ticket
tickets_of r [] = []
tickets_of r (s ∷ ss) = tickets r s ++ tickets_of r ss

pub tickets_of-append :
    (r : ℕ) (xs ys : List Sqe) → tickets_of r (xs ++ ys) ≡ tickets_of r xs ++ tickets_of r ys
unfolding tickets_of
tickets_of-append r [] ys = refl
tickets_of-append r (s ∷ xs) ys =
    ap (λ (l : List Ticket). tickets r s ++ l) (tickets_of-append r xs ys)
    ∙ sym (append_assoc (tickets r s) (tickets_of r xs) (tickets_of r ys))

-- Of every entry that the ring has handed out.
abbrev pub issued : ℕ → Ring → List Ticket
issued r x = tickets_of r (x.submitted ++ x.waiting)

pub record Answers (cqe : Cqe) (t : Ticket) : Type 0 where
  pub at : cqe.user_data ≡ t.address
  pub mark : has_task cqe.flags ≡ t.marked
  pub result : (x : ℤ) → t.res ≡ some x → cqe.res ≡ x

abbrev pub Each : (Ticket → Type 0) → List Ticket → Type 0
Each P [] = Unit {0}
Each P (t ∷ ts) = P t × Each P ts

-- No two have the same address.
abbrev pub Apart : List Ticket → Type 0
Apart [] = Unit {0}
Apart (t ∷ ts) = Each (λ u. u.address ≢ t.address) ts × Apart ts

-- Its address is one from `n` on that has been given out, and what lies there is what the handler of
-- the completion will read.
pub record Sound (n : ℕ) (w : World) (t : Ticket) : Type 0 where
  pub above : n ≤ t.address
  pub below : t.address < w.next
  pub reads : (cqe : Cqe) → Answers cqe t → Matching w cqe

pub Each-append :
    (P : Ticket → Type 0) (xs ys : List Ticket) → Each P xs → Each P ys → Each P (xs ++ ys)
Each-append P [] ys a b = b
Each-append P (x ∷ xs) ys a b = (a.0, Each-append P xs ys a.1 b)

pub Each-mono :
    (P Q : Ticket → Type 0) (xs : List Ticket) → ((t : Ticket) → P t → Q t) → Each P xs → Each Q xs
Each-mono P Q [] f a = tt
Each-mono P Q (x ∷ xs) f a = (f x a.0, Each-mono P Q xs f a.1)

-- Tickets below `n` and tickets from `n` on.
pub Apart-append :
    (n : ℕ) (xs ys : List Ticket)
    → Each (λ t. t.address < n) xs
    → Each (λ t. n ≤ t.address) ys
    → Apart xs
    → Apart ys
    → Apart (xs ++ ys)
Apart-append n [] ys a b c d = d
Apart-append n (x ∷ xs) ys a b c d = (
  Each-append _ xs ys c.0 (Each-mono _ _ ys (λ t h. λ e. absurd (omega (arith, a.0, h, e))) b),
  Apart-append n xs ys a.1 b c.1 d,
)
