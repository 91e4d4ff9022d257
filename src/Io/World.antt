-- ===== src/Io/World.antt =====
-- The memory and the rings of a process, and the commands that the ring's methods are made of.
-- A ring is named by its file descriptor. `malloc` gives addresses that were never used before.
pub mod Later
pub mod Keeps
use co_net.Base.{
  ◌≡◌, ◌≢◌, ==_self, ==_ne, ℕ, suc, Bool, List, Option, none, some, ◌==◌, if◌then◌else◌,
}
use co_net.Base.Int.{ℤ}
use co_net.Async.Scheduled.{ScheduledTask}
use co_net.Io.Token.{CompletionToken, Coro, Cell, token, Func}
use co_net.Io.Sqe.{Sqe}

-- class Uring, with the tasks of its peer loop. `waiting` are the entries handed out since the last
-- submission, `submitted` those that the kernel has, `consumed` the completions given back.
pub record Ring : Type 0 where
  pub waiting : List Sqe
  pub submitted : List Sqe
  pub consumed : ℕ
  pub stopped : Bool
  pub direct_map : List (ℤ × ℤ)
  pub awaiting_direct_fd : List ℤ
  pub tasks : List (ScheduledTask Coro)

-- The fields of class SystemLoop that are no ring, and the rings of its Workers. `stop_requested` is
-- the stop token of the worker threads.
pub record SystemLoop : Type 0 where
  pub uring_fds : List ℕ
  pub current_worker_uring_idx : ℤ
  pub stopped : Bool
  pub stop_requested : Bool

pub record World : Type 0 where
  pub heap : ℕ → Option Cell
  pub next : ℕ
  pub ring : ℕ → Ring
  pub sys_loop : SystemLoop

-- What liburing and the C++ library decide: whether an entry is free while `n` wait, how many of
-- `n` waiting entries a submission takes, given the ring of the thread that submits and the ring
-- that it submits (each ring has a single issuer, so another thread's submission may take nothing),
-- how many moved-from copies of its argument a call of a `std::function` destroys, and what is left
-- of a `std::function` that was moved from. `sys` is the main ring, the target of
-- `sys_ctx::sys_uring_loop`, and `multishot_token` the address of the static token of that name.
pub record Platform : Type 0 where
  pub sqe_free : ℕ → Bool
  pub accepted : (by this n : ℕ) → ℕ
  pub call_moves : ℕ
  pub moved_from : Func → Func
  pub multishot_token : ℕ
  pub sys : ℕ

pub data Fault : Type 0 where
  null_sqe dangling bad_cast bad_function_call null_task : Fault
  logic_error out_of_range division_by_zero : Fault

-- A run ends in a world, or stops: at an undefined access, or at an exception that no caller in
-- the ring's `noexcept` methods handles.
pub data Run {ℓ} (A : Type ℓ) : Type ℓ where
  ok : A → World → Run A
  fault : Fault → Run A

abbrev pub M {ℓ} : Type ℓ → Type ℓ
M A = World → Run A

abbrev pub pure {ℓ} : {A : Type ℓ} → A → M A
pure a w = ok a w

abbrev pub stop {ℓ} : {A : Type ℓ} → Fault → M A
stop e w = fault e

module _ {ℓ κ} {A : Type ℓ} {B : Type κ} where
  abbrev pub and_then : Run A → (A → M B) → Run B
  and_then (ok a w) k = k a w
  and_then (fault e) k = fault e

  infixl 5 ◌>>=◌ ◌>>◌
  abbrev pub ◌>>=◌ : M A → (A → M B) → M B
  m >>= k = λ w. and_then (m w) k

  abbrev pub ◌>>◌ : M A → M B → M B
  m >> k = λ w. and_then (m w) (λ _. k)

abbrev pub update {ℓ} : {A : Type ℓ} → (ℕ → A) → ℕ → A → ℕ → A
update f i a j = if j == i then a else f j

pub update_self {ℓ} : {A : Type ℓ} (f : ℕ → A) (i : ℕ) (a : A) → update f i a i ≡ a
update_self f i a = rw (==_self i)

pub update_ne {ℓ} : {A : Type ℓ} (f : ℕ → A) (i j : ℕ) (a : A) → j ≢ i → update f i a j ≡ f j
update_ne f i j a h = rw (==_ne j i h)

-- Reads and writes of one ring's fields.
abbrev pub get_ring : ℕ → M Ring
get_ring r w = ok (w.ring r) w

abbrev pub put_ring : ℕ → Ring → M (Unit {0})
put_ring r x w = ok tt (record w { ring = update w.ring r x })

-- `new`
unfoldable pub alloc : Cell → M ℕ
alloc c w = ok w.next (record w { heap = update w.heap w.next (some c); next = suc w.next })

unfoldable pub load : ℕ → M Cell
load p w = elim (w.heap p) [ none ↦ fault dangling | some c ↦ ok c w ]

unfoldable pub store : ℕ → Cell → M (Unit {0})
store p c w = ok tt (record w { heap = update w.heap p (some c) })

-- `delete`
unfoldable pub free : ℕ → M (Unit {0})
free p w = elim (w.heap p) [
  | none ↦ fault dangling
  | some _ ↦ ok tt (record w { heap = update w.heap p none })
]

abbrev pub cast_token : Cell → M CompletionToken
cast_token (token t) = pure t
cast_token _ = stop Fault.bad_cast

-- Total correctness: the run ends, with `P` of its result and of the world that it leaves.
abbrev pub Ends : {A : Type 0} → (A → World → Type 0) → Run A → Type 0
Ends P (ok a w) = P a w
Ends P (fault e) = ⊥

pub Ends-and_then :
    {A B : Type 0} (P : A → World → Type 0) (Q : B → World → Type 0) (m : Run A) (k : A → M B)
    → Ends P m
    → ((a : A) (w : World) → P a w → Ends Q (k a w))
    → Ends Q (and_then m k)
Ends-and_then P Q (ok a w) k p next = next a w p
Ends-and_then P Q (fault e) k p next = absurd p

pub Ends-mono :
    {A : Type 0} (P Q : A → World → Type 0) (m : Run A)
    → Ends P m
    → ((a : A) (w : World) → P a w → Q a w)
    → Ends Q m
Ends-mono P Q (ok a w) p weaken = weaken a w p
Ends-mono P Q (fault e) p weaken = p
