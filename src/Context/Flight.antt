-- ===== src/Context/Flight.antt =====
-- The messages between the threads of a process: what the calls send, and what the loops handle one
-- completion after another, in any order that the kernel chooses.
pub mod Sending
pub mod Multishot
pub mod Due
pub mod Safe
pub mod Once
pub mod Batch
use co_net.Base.{ℕ, ◌≡◌, ◌≢◌, Bool, true, false, ◌||◌, List, [], ◌∷◌, ◌++◌}
use co_net.Io.Sqe.{Cqe, has_task}
use co_net.Io.World.{World, Platform, ok}
use co_net.Io.Handler.{handle_request}
use co_net.Io.Await.Operations.{IsOperation}
use co_net.Io.Tickets.{Ticket, Answers}
use co_net.Io.Tickets.Posts.{Issued}
use co_net.Context.Process.{
  Call, spawn, spawn_conn, spawn_task, await, await_pending, accept_multishot, accept_again,
  drop_connection, submit, complete_all, complete_batch, end_main, perform,
}

-- The calls that handle no completion, whose awaits are of the program's operations; the
-- completions are steps of their own here.
abbrev pub Sending : Call → Type 0
Sending (await local a caller chain) = IsOperation a
Sending (complete_all this cqes) = ⊥
Sending (complete_batch this cqes left after) = ⊥
Sending (end_main []) = Unit {0}
Sending (end_main (c ∷ cqes)) = ⊥
Sending _ = Unit {0}

-- The call that hands the static token to the kernel.
abbrev pub arms : Call → Bool
arms (accept_multishot socket caller chain) = true
arms _ = false

-- The world, the completions to come, and whether the multishot accept is under way.
pub record System : Type 0 where
  pub world : World
  pub flight : List Ticket
  pub armed : Bool

module _ (lib : Platform) where
  -- A completion of the multishot accept, which arrives on the main ring.
  pub record IsAccept (cqe : Cqe) : Type 0 where
    pub unmarked : has_task cqe.flags ≡ false
    pub here : cqe.user_data ≡ lib.multishot_token

  -- The completion `t` is handled on its ring, and what that sends is to come.
  pub record Handling (t : Ticket) (s s' : System) : Type 0 where
    pub before : List Ticket
    pub after : List Ticket
    pub among : s.flight ≡ before ++ t ∷ after
    pub cqe : Cqe
    pub answers : Answers cqe t
    pub runs : handle_request lib t.ring cqe s.world ≡ ok tt s'.world
    pub on : ℕ
    pub new : List Ticket
    pub adds : Issued on new s.world s'.world
    pub left : s'.flight ≡ (before ++ after) ++ new
    pub same : s'.armed ≡ s.armed

  pub data Step (s s' : System) : Type 0 where
    sends :
        (c : Call)
        → Sending c
        → perform lib c s.world ≡ ok tt s'.world
        → (r : ℕ) (new : List Ticket) → Issued r new s.world s'.world
        → s'.flight ≡ s.flight ++ new
        → s'.armed ≡ arms c || s.armed
        → Step s s'
    handles : (t : Ticket) → Handling t s s' → Step s s'
    accepts :
        s.armed ≡ true
        → (cqe : Cqe) → IsAccept cqe
        → handle_request lib lib.sys cqe s.world ≡ ok tt s'.world
        → (r : ℕ) (new : List Ticket) → Issued r new s.world s'.world
        → s'.flight ≡ s.flight ++ new
        → s'.armed ≡ s.armed
        → Step s s'

  pub data Reaches (s : System) : System → Type 0 where
    here : Reaches s s
    next : {u v : System} → Reaches s u → Step u v → Reaches s v
