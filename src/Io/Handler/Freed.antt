-- ===== src/Io/Handler/Freed.antt =====
-- The memory of a message is freed by its handler.
use co_net.Base.{
  ℕ, ◌<◌, ◌≡◌, ◌≢◌, sym, subst, ◌∙◌, Bool, true, false, none, some, arith, Option-cases, inl, inr,
}
use mathlib.Core.Option.{some-injective}
use co_net.Io.Token.{CompletionToken, Op, Cell, token, task_msg, conn_msg, macc_msg}
use co_net.Io.Sqe.{Cqe}
use co_net.Io.World.{World, Platform, Run, ok, fault, M, and_then, ◌>>◌, free, update, update_self}
use co_net.Io.World.Later.{LaterBut}
use co_net.Io.World.Keeps.{After, Keeps, at, Keeps-bind, Keeps-get_ring}
use co_net.Io.Ring.Steps.{load-ok, free-ok}
use co_net.Io.Ring.{enqueue, close_direct_socket}
use co_net.Io.Handler.Kept.{Keeps-serve, Keeps-start_each}
use co_net.Io.Handler.Matching.{Matching, task, conn, macc, own, by_task}
use co_net.Io.Handler.Dispatch.{
  handle_request-ring_task, handle_request-msg_conn, handle_request-macc_task,
  handle_request-switch,
}
use co_net.Io.Handler.{
  handle_request, handle_ring_task, impl_handle_msg_conn, impl_handle_macc_task, switch,
  push_awaiting,
}

-- Whether a cell belongs to a coroutine that waits; the others are messages.
unfoldable pub awaited : Cell → Bool
awaited (token t) = by_task t.op
awaited (task_msg c) = false
awaited (conn_msg f fd) = false
awaited (macc_msg op f) = false

-- Nothing lies there.
abbrev pub Gone : ℕ → World → Type 0
Gone p w = w.heap p ≡ none

free-Gone : (p : ℕ) (w : World) → After (Gone p) (free p w)
unfolding free
free-Gone p w = elim (Option-cases (w.heap p)) [
  | inl e ↦ rw (e, free) tt
  | inr (c, e) ↦ rw (e, free) (update_self w.heap p none)
]

then_free-Gone : (m : M (Unit {0})) (p : ℕ) (w : World) → After (Gone p) ((m >> free p) w)
then_free-Gone m p w = go (m w)
  where
    go : (x : Run (Unit {0})) → After (Gone p) (and_then x λ _. free p)
    go (ok a v) = free-Gone p v
    go (fault e) = tt

-- It stays so.
stays-Gone :
    (m : M (Unit {0})) (p : ℕ) (w : World)
    → Keeps 0 0 m
    → p < w.next
    → Gone p w
    → After (Gone p) (m w)
stays-Gone m p w k below e = go (m w) (at k w (omega arith))
  where
    go : (x : Run (Unit {0})) → After (LaterBut 0 0 w) x → After (Gone p) x
    go (ok a v) l = l.gone p below e
    go (fault f) l = tt

module _ (lib : Platform) (this : ℕ) (cqe : Cqe) where
  switch-Gone :
      (p : ℕ) (t : CompletionToken) (op : Op) (w : World)
      → by_task op ≡ false
      → After (Gone p) (switch lib this cqe p t op w)
  unfolding switch by_task
  switch-Gone p t Op.sync_close_direct w h = free-Gone p w
  switch-Gone p t Op.quit w h = free-Gone p _
  switch-Gone p t Op.cancel_any w h = free-Gone p w
  switch-Gone p t Op.ring_task w h = free-Gone p w
  switch-Gone p t Op.ring_fd_sender w h = free-Gone p w
  switch-Gone p t Op.ring_fd_receiver w h = free-Gone p _
  switch-Gone p t Op.main_ring_close_direct_socket w h =
      then_free-Gone (close_direct_socket lib this this cqe.res) p w
  switch-Gone p t Op.multishot_accept_fd_receiver w h =
      then_free-Gone (push_awaiting this cqe.res) p w
  switch-Gone p t _ w h = absurd (differ h)
    where
      differ : true ≢ false
      differ e = cc

  pub handle_request-Gone :
      (w : World) {c : Cell}
      → Matching w cqe
      → cqe.user_data < w.next
      → w.heap cqe.user_data ≡ some c
      → awaited c ≡ false
      → After (Gone cqe.user_data) (handle_request lib this cqe w)
  unfolding handle_ring_task impl_handle_msg_conn impl_handle_macc_task awaited
  handle_request-Gone w {c} (own u plain not_null live ne h) below at_c message =
      subst (After (Gone cqe.user_data))
        (sym (handle_request-switch lib this cqe w u plain live not_null))
        (switch-Gone cqe.user_data u u.op w (subst (λ x. awaited x ≡ false) (same live) message))
    where
      same : {d : Cell} → w.heap cqe.user_data ≡ some d → c ≡ d
      same e = some-injective c _ (sym at_c ∙ e)
  handle_request-Gone w (task c marked res live) below at_c message =
      rw (handle_request-ring_task lib this cqe marked res w, load-ok w cqe.user_data live)
        (then_free-Gone (enqueue this c) cqe.user_data w)
  handle_request-Gone w (macc op g marked res live) below at_c message =
      rw
        (
          handle_request-macc_task lib this cqe marked res w,
          load-ok w cqe.user_data live,
          free-ok w cqe.user_data live,
        )
        (stays-Gone _ cqe.user_data (record w { heap = update w.heap cqe.user_data none })
          (Keeps-bind _ _ (Keeps-get_ring this)
            λ r. Keeps-start_each lib this g r.awaiting_direct_fd)
          below (update_self w.heap cqe.user_data none))
  handle_request-Gone w (conn g fd marked res live) below at_c message =
      rw
        (
          handle_request-msg_conn lib this cqe marked res w,
          load-ok w cqe.user_data live,
          free-ok w cqe.user_data live,
        )
        (stays-Gone _ cqe.user_data (record w { heap = update w.heap cqe.user_data none })
          (Keeps-serve lib this (g, fd)) below (update_self w.heap cqe.user_data none))
