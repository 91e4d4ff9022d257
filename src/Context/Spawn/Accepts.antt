-- ===== src/Context/Spawn/Accepts.antt =====
-- What the accepts and the termination ask for.
use co_net.Base.{ℕ, refl, sym, Option, List, [], ◌∷◌, arith, append-nil}
use co_net.Base.Int.{ℤ}
use co_net.Io.Token.{CompletionToken, Op, Coro, Func, new_token, token, macc_msg, TaskRef}
use co_net.Io.World.{Platform, ◌>>=◌, alloc, get_ring, put_ring}
use co_net.Io.Ring.Kept.{Keeps-consume}
use co_net.Io.Await.Kept.{Keeps-pending_suspend}
use co_net.Io.Handler.{process_all, handle_all}
use co_net.Context.Accept.{accept_round}
use co_net.Io.Ring.Steps.{allocated}
use co_net.Io.World.Keeps.{After-if, Keeps-get_ring, Keeps-change}
use co_net.Io.Handler.Matching.{by_task}
use co_net.Context.Workers.{get_worker_ids}
use co_net.Context.Spawn.{
  terminate, mshot_accept_send_awaiting_fd_and_process, send_one, send_each, close_entry,
}
use co_net.Context.Spawn.Kept.{Keeps-stop_loop}
use co_net.Io.Tickets.{tickets, sent, recurs}
use co_net.Io.Tickets.Posts.{
  Posts, Posting, posting, post, Posting-bind, Posting-then, Posting-pure,
}
use co_net.Io.Tickets.Sends.{
  Posting-submit_all, Posting-notify_workers_to_stop, Posting-notify_self_quit,
}
use co_net.Io.Tickets.Quiet.{
  quiet, Quiet-get_ring, Quiet-change, Quiet-consume, Quiet-pending_suspend, Posting-Quiet,
}
use co_net.Io.Tickets.Drafts.{
  End-put_sqe, After-put_sqe, Drafted-refl, Drafted-alloc, message-Sound, macc-Sound,
}
use co_net.Context.Spawn.Sends.{Posting-pick_worker}

abbrev accepted_token : CompletionToken
accepted_token = record new_token { op = Op.multishot_accept_fd_receiver }

module _ (lib : Platform) {o : ℕ} where
  Posting-send_one : (func : Func) (fd : ℤ) → Posting o lib.sys (send_one lib func fd)
  unfolding send_one alloc tickets sent recurs by_task
  Posting-send_one func fd = Posting-bind _ _ Posting-pick_worker λ worker. posting λ w old.
      let first = allocated (token accepted_token) w in
      let second = allocated (macc_msg Op.multishot_accept_task_receiver func) first in
      After-put_sqe lib _ w second _ old
        (
          message-Sound w.next second _ (omega arith) (omega arith) accepted_token
              (omega (arith, old)) refl (ground arith) refl,
          tt,
        )
        (Drafted-alloc _ w first old (Drafted-alloc _ w w old (Drafted-refl w)))
        λ d.
          After-put_sqe lib _ w _ _ old
            (
              macc-Sound w.next _ _ (omega arith) (omega arith) Op.multishot_accept_task_receiver
                  func refl refl (ground arith),
              tt,
            )
            d
            λ e.
              End-put_sqe lib (close_entry fd) w _ old tt
                ((λ k. absurd (omega (arith, k)), tt), (tt, tt)) e

  Posting-send_each : (func : Func) (fds : List ℤ) → Posting o lib.sys (send_each lib func fds)
  unfolding send_each
  Posting-send_each func [] = Posting-pure tt
  Posting-send_each func (fd ∷ fds) =
      Posting-then _ _ (Posting-send_one func fd) (Posting-send_each (lib.moved_from func) fds)

  pub Posting-accept_round :
      (func : Func) (caller : Coro) (chain : Option TaskRef)
      → Posting o lib.sys (accept_round lib func caller chain)
  unfolding accept_round mshot_accept_send_awaiting_fd_and_process
  Posting-accept_round func caller chain =
      Posting-then _ _
        (Posting-bind _ _ (Posting-Quiet _ (λ n. Keeps-get_ring lib.sys) (Quiet-get_ring lib.sys))
          λ r. Posting-then _ _ (Posting-send_each func r.awaiting_direct_fd) (
            posting λ w old.
              post (Posting-then _ _ cleared (Posting-submit_all lib lib.sys lib.sys)) w old))
        (Posting-Quiet _ (λ n. Keeps-pending_suspend caller chain)
          (Quiet-pending_suspend caller chain))
    where
      cleared :
          Posting o lib.sys
            (get_ring lib.sys >>= λ x. put_ring lib.sys (record x { awaiting_direct_fd = [] }))
      cleared =
          Posting-Quiet _
            (λ n.
              Keeps-change lib.sys (λ x. record x { awaiting_direct_fd = [] })
                λ x. record {
                  tasks = ([], sym (append-nil _));
                  entries = ([], sym (append-nil _));
                  consumed = omega arith;
                  stopped = λ h. h;
                })
            (Quiet-change lib.sys (λ x. record x { awaiting_direct_fd = [] }) λ q x. refl)

  -- The termination, before the completions that it waits for.
  pub Posting-terminate : Posting o lib.sys (terminate lib [])
  unfolding terminate process_all handle_all
  Posting-terminate = posting λ w old.
      After-if (Posts o lib.sys w) w.sys_loop.stopped _ _ (post (Posting-pure tt) w old) (
        post
          (Posting-then _ _ (Posting-Quiet _ (λ n. Keeps-stop_loop) (quiet λ v q. refl)) (
            Posting-then _ _
              (Posting-notify_workers_to_stop lib lib.sys (get_worker_ids w.sys_loop))
              (Posting-then _ _ (Posting-notify_self_quit lib lib.sys) (
                Posting-then _ _ (Posting-submit_all lib lib.sys lib.sys)
                  (Posting-Quiet _ (λ n. Keeps-consume lib.sys 0) (Quiet-consume lib.sys 0))))))
          w old)
