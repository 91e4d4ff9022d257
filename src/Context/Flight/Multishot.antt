-- ===== src/Context/Flight/Multishot.antt =====
-- The multishot accept, whose token is static.
use co_net.Base.{
  ℕ, ◌<◌, ◌≡◌, ◌≢◌, ◌∙◌, refl, sym, subst, Bool, true, false, Option, none, some, arith, length,
  get_elem?, Bool-cases, Option-cases, inl, inr, ==_self,
}
use co_net.Base.Int.{ℤ}
use co_net.Async.Scheduled.{set_awaiting_handle}
use co_net.Io.Token.{CompletionToken, Op, Coro, TaskRef, Cell, token, task_msg, conn_msg, macc_msg}
use co_net.Io.Sqe.{Cqe}
use co_net.Io.World.{
  World, Platform, update_self, and_then, Run, fault, Fault, ◌>>=◌, ◌>>◌, load, store, cast_token,
  update,
}
use co_net.Io.World.Later.{LaterBut}
use co_net.Io.World.Keeps.{After, Keeps-load, Keeps-cast_token}
use co_net.Io.Ring.Steps.{put_sqe-ok, put_sqe-null, with_task_self, with_sqe, load-ok}
use co_net.Io.Ring.{set_task_pending}
use co_net.Io.Ring.Kept.{Keeps-set_task_pending}
use co_net.Io.Handler.{handle_request, switch, push_awaiting}
use co_net.Io.Handler.Dispatch.{handle_request-switch}
use co_net.Io.Handler.Kept.{Keeps-push_awaiting}
use co_net.Io.Handler.Matching.{HasTask, HasTask-Later, Accepting}
use co_net.Io.Await.{set_task_handle}
use co_net.Io.Await.Suspend.{set_task_handle-ok}
use co_net.Io.Tickets.Posts.{Posts, Posting, post, Posting-then, Posting-bind}
use co_net.Io.Tickets.Quiet.{
  Posting-Quiet, Quiet-push_awaiting, Quiet-load, Quiet-cast_token, Quiet-set_task_pending,
}
use co_net.Context.Accept.{construct_multishot, suspend_multishot}
use co_net.Context.Accept.Armed.{accept_entry}
use co_net.Context.Process.{accept_multishot, perform}
use co_net.Context.Flight.{IsAccept}

set_task_handle-none :
    (caller : Coro) (ref : TaskRef) (u : World)
    → get_elem? (u.ring ref.ring).tasks ref.index ≡ none
    → set_task_handle caller (some ref) u ≡ fault Fault.dangling
unfolding set_task_handle
set_task_handle-none caller ref u h = ground arith

load-none : (w : World) (p : ℕ) → w.heap p ≡ none → load p w ≡ fault Fault.dangling
unfolding load
load-none w p e = rw (e, load) refl

-- The static token says what it is for, and its task stands in its loop.
pub record IsArmed (lib : Platform) (w : World) : Type 0 where
  pub static : CompletionToken
  pub live : w.heap lib.multishot_token ≡ some (token static)
  pub op : static.op ≡ Op.multishot_accept
  pub waits : HasTask w static.chain_task

pub IsArmed-Later :
    {o n : ℕ} (lib : Platform) (w w' : World)
    → LaterBut o n w w'
    → lib.multishot_token ≢ o
    → lib.multishot_token < n
    → IsArmed lib w
    → IsArmed lib w'
IsArmed-Later lib w w' l ne below a = record {
  static = a.static;
  live = l.frame lib.multishot_token ne below ∙ a.live;
  op = a.op;
  waits = HasTask-Later w w' a.static.chain_task l a.waits;
}

pub IsArmed-Accepting :
    (lib : Platform) (w : World) (cqe : Cqe)
    → lib.multishot_token ≢ 0
    → IsArmed lib w
    → IsAccept lib cqe
    → Accepting lib w cqe
IsArmed-Accepting lib w cqe not_null a c = record {
  unmarked = c.unmarked;
  not_null = not_null;
  here = c.here;
  static = a.static;
  live = a.live;
  op = a.op;
  waits = a.waits;
}

-- Its handler writes no memory and sends nothing.
pub Accepting-Posts :
    {o : ℕ} (r : ℕ) (lib : Platform) (this : ℕ) (cqe : Cqe) (w : World)
    → o < w.next
    → Accepting lib w cqe
    → After (Posts o r w) (handle_request lib this cqe w)
unfolding switch
Accepting-Posts {o} r lib this cqe w old a =
    subst (After (Posts o r w))
      (sym (handle_request-switch lib this cqe w a.static a.unmarked at_own not_own))
      (rw a.op (post body w old))
  where
    at_own : w.heap cqe.user_data ≡ some (token a.static)
    at_own = rw a.here a.live

    not_own : cqe.user_data ≢ 0
    not_own = rw a.here a.not_null

    body : Posting o r (
        push_awaiting this cqe.res
        >> (load lib.multishot_token >>= λ c.
            cast_token c >>= λ s. set_task_pending false s.chain_task))
    body =
        Posting-then _ _
          (Posting-Quiet _ (λ n. Keeps-push_awaiting this cqe.res)
            (Quiet-push_awaiting this cqe.res))
          (Posting-bind _ _
            (Posting-Quiet _ (λ n. Keeps-load lib.multishot_token) (Quiet-load lib.multishot_token))
            λ c.
              Posting-bind _ _ (Posting-Quiet _ (λ n. Keeps-cast_token c) (Quiet-cast_token c)) λ s.
                Posting-Quiet _ (λ n. Keeps-set_task_pending false s.chain_task)
                  (Quiet-set_task_pending false s.chain_task))

module _ (lib : Platform) (socket : ℤ) (caller : Coro) (chain : Option TaskRef) (w : World) where
  abbrev run : Run (Unit {0})
  run = perform lib (accept_multishot socket caller chain) w

  abbrev handed : World
  handed = with_sqe lib lib.sys (accept_entry lib socket) w

  abbrev room : Bool
  room = lib.sqe_free (length (w.ring lib.sys).waiting)

  full : room ≡ false → run ≡ fault Fault.null_sqe
  unfolding perform construct_multishot
  full e = rw (put_sqe-null lib lib.sys (accept_entry lib socket) w e) refl

  -- The token, as it is read.
  abbrev from : Cell → Run (Unit {0})
  from c =
      and_then
        (and_then (cast_token c handed)
          λ t. store lib.multishot_token (token (record t { op = Op.multishot_accept })))
        λ _. suspend_multishot lib caller chain

  missing : room ≡ true → w.heap lib.multishot_token ≡ none → run ≡ fault Fault.dangling
  unfolding perform construct_multishot
  missing e m =
      rw (put_sqe-ok lib lib.sys (accept_entry lib socket) w e)
        (rw (load-none handed lib.multishot_token m) refl)

  loaded : room ≡ true → (c : Cell) → w.heap lib.multishot_token ≡ some c → run ≡ from c
  unfolding perform construct_multishot
  loaded e c live =
      rw (put_sqe-ok lib lib.sys (accept_entry lib socket) w e)
        (rw (load-ok handed lib.multishot_token live) refl)

  abbrev linked : CompletionToken → World
  linked t = record handed {
    heap =
        update
          (update w.heap lib.multishot_token (some (token (record t { op = Op.multishot_accept }))))
          lib.multishot_token
          (some (token (record t { op = Op.multishot_accept; chain_task = chain })));
  }

  written : (t : CompletionToken) → from (token t) ≡ set_task_handle caller chain (linked t)
  unfolding suspend_multishot store
  written t =
      rw
        (load-ok
          (record handed {
            heap =
                update w.heap lib.multishot_token
                  (some (token (record t { op = Op.multishot_accept })));
          })
          lib.multishot_token (update_self w.heap lib.multishot_token _))
        refl

-- Where the call does not fail, the token says what it is for and belongs to the task that waits.
pub arms-IsArmed :
    (lib : Platform) (socket : ℤ) (caller : Coro) (chain : Option TaskRef) (w : World)
    → After (IsArmed lib) (perform lib (accept_multishot socket caller chain) w)
unfolding set_task_handle
arms-IsArmed lib socket caller chain w = elim (Bool-cases (room lib socket caller chain w)) [
  | inr e ↦ rw (full lib socket caller chain w e) tt
  | inl e ↦ elim (Option-cases (w.heap lib.multishot_token)) [
    | inl m ↦ rw (missing lib socket caller chain w e m) tt
    | inr (c, live) ↦ rw (loaded lib socket caller chain w e c live) (read c)
  ]
]
  where
    handle :
        (t : CompletionToken) (k : Option TaskRef)
        → After (IsArmed lib) (set_task_handle caller k (linked lib socket caller k w t))
    handle t none = tt
    handle t (some ref) =
        let u = linked lib socket caller (some ref) w t in
        elim (Option-cases (get_elem? (u.ring ref.ring).tasks ref.index)) [
          | inl gone ↦ rw (set_task_handle-none caller ref u gone) tt
          | inr (s, queued) ↦ rw (set_task_handle-ok caller ref u queued) (record {
            static = record t { op = Op.multishot_accept; chain_task = some ref };
            live = rw (==_self lib.multishot_token) refl;
            op = refl;
            waits = record {
              ref = ref;
              named = refl;
              found = set_awaiting_handle caller s;
              queued = with_task_self ref.ring ref.index (set_awaiting_handle caller) u queued;
            };
          })
        ]

    read : (c : Cell) → After (IsArmed lib) (from lib socket caller chain w c)
    read (token t) = rw (written lib socket caller chain w t) (handle t chain)
    read (task_msg _) = tt
    read (conn_msg _ _) = tt
    read (macc_msg _ _) = tt
