-- ===== src/Io/Handler/Dispatch.antt =====
-- Which handler a completion goes to.
use co_net.Base.{ℕ, zero, suc, ◌≡◌, refl, ◌≢◌, true, false, some, and_false, ◌∙◌}
use co_net.Io.Token.{CompletionToken, token, ring_task, ring_func_task, multi_acc_task, to_int}
use co_net.Io.Sqe.{Cqe, has_task}
use co_net.Io.World.{World, Platform, load}
use co_net.Io.Handler.{
  handle_request, handle_token, handle_ring_task, impl_handle_msg_conn, impl_handle_macc_task,
  switch,
}

module _ (lib : Platform) (this : ℕ) (cqe : Cqe) where
  pub handle_request-token :
      has_task cqe.flags ≡ false
      → (w : World) → handle_request lib this cqe w ≡ handle_token lib this cqe cqe.user_data w
  unfolding handle_request
  handle_request-token h w = simp (h, and_false)

  handle_token-switch :
      (w : World) (t : CompletionToken) (p : ℕ)
      → w.heap p ≡ some (token t)
      → p ≢ 0
      → handle_token lib this cqe p w ≡ switch lib this cqe p t t.op w
  unfolding handle_token load
  handle_token-switch w t zero e h = absurd (h refl)
  handle_token-switch w t (suc q) e h = rw (e, handle_token, load)

  pub handle_request-switch :
      (w : World) (t : CompletionToken)
      → has_task cqe.flags ≡ false
      → w.heap cqe.user_data ≡ some (token t)
      → cqe.user_data ≢ 0
      → handle_request lib this cqe w ≡ switch lib this cqe cqe.user_data t t.op w
  handle_request-switch w t h e z =
      handle_request-token h w ∙ handle_token-switch w t cqe.user_data e z

  module _ (marked : has_task cqe.flags ≡ true) where
    pub handle_request-ring_task :
        cqe.res ≡ to_int ring_task
        → (w : World) → handle_request lib this cqe w ≡ handle_ring_task lib this cqe w
    unfolding handle_request
    handle_request-ring_task e w = simp (e, marked)

    pub handle_request-msg_conn :
        cqe.res ≡ to_int ring_func_task
        → (w : World) → handle_request lib this cqe w ≡ impl_handle_msg_conn lib this cqe w
    unfolding handle_request
    handle_request-msg_conn e w = simp (e, marked)

    pub handle_request-macc_task :
        cqe.res ≡ to_int multi_acc_task
        → (w : World) → handle_request lib this cqe w ≡ impl_handle_macc_task lib this cqe w
    unfolding handle_request
    handle_request-macc_task e w = simp (e, marked)
