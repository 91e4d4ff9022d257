-- ===== src/Io/Handler/Safety.antt =====
-- A completion that names memory of the right kind is handled without touching memory that is not in
-- use.
use co_net.Base.{
  ℕ, suc, ◌<◌, ◌≡◌, ◌≢◌, refl, sym, subst, ◌∙◌, true, false, Option, none, some, arith,
}
use native.Mathlib.Decide.{dec_lt}
use co_net.Base.Int.{ℤ, minus_one}
use co_net.Net.Connection.{TcpConnection, connection, move, set_subring_socket}
use co_net.Io.Token.{CompletionToken, Op, Cell, TaskRef, token}
use co_net.Io.Sqe.{Cqe}
use co_net.Io.World.{World, Platform, ok, M, ◌>>◌, free, store}
use co_net.Io.World.Later.{LaterBut, IsFresh}
use co_net.Io.World.Keeps.{After, Keeps, at}
use co_net.Io.Ring.Steps.{load-ok, free-ok, set_task_pending-ok}
use co_net.Io.Ring.{set_task_pending, close_direct_socket, enqueue}
use co_net.Io.Ring.Kept.{Keeps-enqueue, Keeps-close_direct_socket}
use co_net.Io.Handler.Kept.{Keeps-push_awaiting}
use co_net.Io.Handler.Harmless
use co_net.Io.Handler.Harmless.{Allowed, Ordinary, Ordinary-and_then, Harmless, run_of}
use co_net.Io.Handler.Matching.{
  Matching, task, conn, macc, own, HasTask, HasTask-Later, Accepting, by_task,
}
use co_net.Io.Handler.Dispatch.{
  handle_request-ring_task, handle_request-msg_conn, handle_request-macc_task,
  handle_request-switch,
}
use co_net.Io.Handler.{
  handle_request, handle_ring_task, impl_handle_msg_conn, impl_handle_macc_task, switch,
  push_awaiting, index,
}

-- What is in use lies below the next address.
pub below_next : (w : World) (p : ℕ) {c : Cell} → IsFresh w → w.heap p ≡ some c → p < w.next
below_next w p f live = elim (dec_lt p w.next) [
  | yes h ↦ h
  | no h ↦ absurd (gone (f p (omega (arith, h))))
]
  where
    gone : w.heap p ≢ none
    gone e = cc

-- A command that writes only new memory leaves a cell in use.
still_live :
    (m : M (Unit {0})) (w v : World) (p : ℕ) {c : Cell}
    → Keeps (suc p) (suc p) m
    → p < w.next
    → m w ≡ ok tt v
    → w.heap p ≡ some c
    → v.heap p ≡ some c
still_live m w v p {c} h below e live =
    (subst (After (LaterBut (suc p) (suc p) w)) e (at h w (omega arith))).frame p
      (λ k. absurd (omega (arith, k))) (omega arith)
    ∙ live

then-free :
    (m : M (Unit {0})) (w : World) (p : ℕ) {c : Cell}
    → Harmless m
    → Keeps (suc p) (suc p) m
    → IsFresh w
    → w.heap p ≡ some c
    → Ordinary ((m >> free p) w)
then-free m w p {c} h k f live =
    Ordinary-and_then (m w) (λ _. free p) (run_of h w)
      λ _ v e.
        subst Ordinary (sym (free-ok v p (still_live m w v p k (below_next w p f live) e live))) tt

resumes :
    (chain : Option TaskRef) (w : World)
    → HasTask w chain
    → Ordinary (set_task_pending false chain w)
resumes chain w h = subst Ordinary (sym (set_task_pending-ok false h.ref w h.named h.queued)) tt

freed : (w : World) (p : ℕ) {c : Cell} → w.heap p ≡ some c → Ordinary (free p w)
freed w p live = subst Ordinary (sym (free-ok w p live)) tt

module _ (lib : Platform) (this : ℕ) (cqe : Cqe) where
  switch-Ordinary :
      (p : ℕ) (t : CompletionToken) (op : Op) (w : World)
      → IsFresh w
      → w.heap p ≡ some (token t)
      → op ≢ Op.multishot_accept
      → (by_task op ≡ true → HasTask w t.chain_task)
      → Ordinary (switch lib this cqe p t op w)
  unfolding switch by_task store
  switch-Ordinary p t Op.sync_close_direct w f live ne h = freed w p live
  switch-Ordinary p t Op.quit w f live ne h = freed _ p live
  switch-Ordinary p t Op.cancel_any w f live ne h = freed w p live
  switch-Ordinary p t Op.ring_task w f live ne h = freed w p live
  switch-Ordinary p t Op.ring_fd_sender w f live ne h = freed w p live
  switch-Ordinary p t Op.ring_fd_receiver w f live ne h = freed _ p live
  switch-Ordinary p t Op.main_ring_close_direct_socket w f live ne h =
      then-free (close_direct_socket lib this this cqe.res) w p
        (Harmless.Harmless-close_direct_socket lib this this cqe.res)
        (Keeps-close_direct_socket lib this this cqe.res) f live
  switch-Ordinary p t Op.multishot_accept w f live ne h = absurd (ne refl)
  switch-Ordinary p t Op.multishot_accept_fd_receiver w f live ne h =
      then-free (push_awaiting this cqe.res) w p (Harmless.Harmless-push_awaiting this cqe.res)
        (Keeps-push_awaiting this cqe.res) f live
  switch-Ordinary p t _ w f live ne h =
      let k = h refl in
      resumes t.chain_task _
        (record { ref = k.ref; named = k.named; found = k.found; queued = k.queued })

  -- The connection that the handler of a function's message makes.
  abbrev mine : ℤ → World → TcpConnection
  mine fd w = set_subring_socket (index fd (w.ring this).direct_map).0 (connection minus_one)

  pub handle_request-Ordinary :
      (w : World) → IsFresh w → Matching w cqe → Ordinary (handle_request lib this cqe w)
  unfolding handle_ring_task impl_handle_msg_conn impl_handle_macc_task
  handle_request-Ordinary w f (own u plain not_null live ne h) =
      subst Ordinary (sym (handle_request-switch lib this cqe w u plain live not_null))
        (switch-Ordinary cqe.user_data u u.op w f live ne h)
  handle_request-Ordinary w f (task c marked res live) =
      rw (handle_request-ring_task lib this cqe marked res w, load-ok w cqe.user_data live)
        (then-free (enqueue this c) w cqe.user_data (Harmless.Harmless-enqueue this c)
          (Keeps-enqueue this c) f live)
  handle_request-Ordinary w f (macc op g marked res live) =
      rw
        (
          handle_request-macc_task lib this cqe marked res w,
          load-ok w cqe.user_data live,
          free-ok w cqe.user_data live,
        )
        (run_of (Harmless.Harmless-start_each lib this g _) _)
  handle_request-Ordinary w f (conn g fd marked res live) =
      rw
        (
          handle_request-msg_conn lib this cqe marked res w,
          load-ok w cqe.user_data live,
          free-ok w cqe.user_data live,
        )
        (run_of
          (Harmless.Harmless-bind _ _ (Harmless.Harmless-invoke g (move (mine fd w)).0) λ c.
            Harmless.Harmless-then _ _
              (Harmless.Harmless-destroy_each lib this lib.call_moves (move (mine fd w)).1)
              (Harmless.Harmless-then _ _ (Harmless.Harmless-enqueue this c) (
                Harmless.Harmless-then _ _
                  (Harmless.Harmless-notify_main_ring_release_fd lib this fd)
                  (Harmless.Harmless-destroy lib this (move (mine fd w)).1))))
          _)

  -- So is one of the multishot accept.
  pub accepting-Ordinary :
      (w : World) → IsFresh w → Accepting lib w cqe → Ordinary (handle_request lib this cqe w)
  unfolding switch
  accepting-Ordinary w f a =
      rw (handle_request-switch lib this cqe w a.static a.unmarked (at_own a) (not_own a)) (
        rw a.op (
          Ordinary-and_then (push_awaiting this cqe.res w) _
            (run_of (Harmless.Harmless-push_awaiting this cqe.res) w)
            λ _ v e.
              let l : LaterBut (suc lib.multishot_token) (suc lib.multishot_token) w v =
                subst (After (LaterBut (suc lib.multishot_token) (suc lib.multishot_token) w)) e (
                  at (Keeps-push_awaiting this cqe.res) w
                    (below_next w lib.multishot_token f a.live)) in
              let static_live =
                l.frame lib.multishot_token (λ k. absurd (omega (arith, k))) (omega arith)
                ∙ a.live in
              rw (load-ok v lib.multishot_token static_live)
                (resumes a.static.chain_task v (HasTask-Later w v a.static.chain_task l a.waits))))
    where
      at_own : (a : Accepting lib w cqe) → w.heap cqe.user_data ≡ some (token a.static)
      at_own a = rw a.here a.live

      not_own : (a : Accepting lib w cqe) → cqe.user_data ≢ 0
      not_own a = rw a.here a.not_null
