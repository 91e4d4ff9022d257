-- ===== src/Io/Tickets/Sends.antt =====
-- The methods of a ring that ask for completions.
use co_net.Base.{ℕ, ◌≡◌, refl, sym, false, some, List, [], ◌∷◌, arith, subst}
use co_net.Base.Int.{ℤ, pos}
use co_net.Io.Token.{CompletionToken, Op, new_token, token}
use co_net.Io.Sqe.{Sqe, Prep, prep, Flag, flag}
use co_net.Io.World.{Platform, ◌>>=◌, alloc}
use co_net.Io.Ring.{
  put_sqe, submit_all, notify_main_ring_release_fd, notify_workers_to_stop, notify_self_quit,
}
use co_net.Io.Ring.Kept.{Keeps-submit_all}
use co_net.Io.Ring.Steps.{allocated}
use co_net.Io.Handler.Matching.{by_task}
use co_net.Io.Tickets.{Each, Apart, Sound, tickets, sent, recurs}
use co_net.Io.Tickets.Posts.{Posting, posting, post, Posting-pure, Posting-then}
use co_net.Io.Tickets.Quiet.{Quiet-submit_all, Posting-Quiet}
use co_net.Io.Tickets.Drafts.{End-put_sqe, Drafted-refl, Drafted-alloc, message-Sound}

abbrev quit_token : CompletionToken
quit_token = record new_token { op = Op.quit }

module _ (lib : Platform) {o : ℕ} where
  pub Posting-submit_all : {r : ℕ} (by this : ℕ) → Posting o r (submit_all lib by this)
  Posting-submit_all by this =
      Posting-Quiet _ (λ n. Keeps-submit_all lib by this) (Quiet-submit_all lib by this)

  -- A token that is sent to a ring, where no task waits for it.
  send_token :
      (this target : ℕ) (len : ℤ) (u : CompletionToken) (s : ℕ → Sqe)
      → by_task u.op ≡ false
      → ((p : ℕ)
          → tickets this (s p)
            ≡ record { ring = target; address = p; res = some len; marked = false } ∷ [])
      → Posting o this (alloc (token u) >>= λ p. put_sqe lib this (s p))
  unfolding alloc
  send_token this target len u s plain one = posting λ w old.
      let v = allocated (token u) w in
      End-put_sqe lib (s w.next) w v old
        (subst (Each (Sound w.next v)) (sym (one w.next)) (
          message-Sound w.next v _ (omega arith) (omega arith) u (omega (arith, old)) refl
              (ground arith) plain,
          tt,
        ))
        (subst Apart (sym (one w.next)) (tt, tt)) (Drafted-alloc _ w w old (Drafted-refl w))

  pub Posting-notify_main_ring_release_fd :
      (this : ℕ) (fd : ℤ) → Posting o this (notify_main_ring_release_fd lib this fd)
  unfolding notify_main_ring_release_fd alloc tickets sent recurs by_task
  Posting-notify_main_ring_release_fd this fd = posting λ w old.
      post
        (Posting-then _ _
          (send_token this lib.sys fd (record new_token { op = Op.main_ring_close_direct_socket })
            (λ p. prep (Prep.msg_ring lib.sys fd p) ∷ flag Flag.cqe_skip_success ∷ []) refl
            λ p. refl)
          (Posting-submit_all this this))
        w old

  pub Posting-notify_workers_to_stop :
      (this : ℕ) (fds : List ℕ) → Posting o this (notify_workers_to_stop lib this fds)
  unfolding notify_workers_to_stop alloc tickets sent recurs by_task
  Posting-notify_workers_to_stop this [] = Posting-pure tt
  Posting-notify_workers_to_stop this (fd ∷ fds) = posting λ w old.
      post
        (Posting-then _ _
          (send_token this fd (pos 0) quit_token
            (λ p. flag Flag.cqe_skip_success ∷ prep (Prep.msg_ring fd (pos 0) p) ∷ []) refl
            λ p. refl)
          (Posting-notify_workers_to_stop this fds))
        w old

  pub Posting-notify_self_quit : (this : ℕ) → Posting o this (notify_self_quit lib this)
  unfolding notify_self_quit alloc tickets sent recurs by_task
  Posting-notify_self_quit this =
      send_token this this (pos 0) quit_token
        (λ p. flag Flag.cqe_skip_success ∷ prep (Prep.msg_ring this (pos 0) p) ∷ []) refl λ p. refl
