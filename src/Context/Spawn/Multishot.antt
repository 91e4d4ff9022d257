-- ===== src/Context/Spawn/Multishot.antt =====
-- The multishot accept loop of the main ring, and the room that it needs.
pub mod Loop
use mathlib.Core.List.{filter_map, append-nil}
use native.Mathlib.Decide.{dec_le}
use co_net.Base.{
  append_three, ◌%◌, ℕ, zero, suc, ◌+◌, ◌*◌, ◌≤◌, ◌<◌, ◌≡◌, ◌≢◌, ◌⊎◌, inl, inr, refl, sym, ap,
  subst, ◌∙◌, Bool, true, false, Option, none, some, List, [], ◌∷◌, ◌++◌, arith, length,
  length-append, append_assoc, get_elem?, get_elem?-some, ==_self, if◌then◌else◌,
}
use native.Mathlib.Nat.{mod-lt}
use co_net.Base.Int.{ℤ, pos, minus_one}
use co_net.Io.Token.{Op, Func, token, new_token, macc_msg}
use co_net.Io.Sqe.{Sqe, Prep, Write, prep}
use co_net.Io.World.{
  World, Ring, SystemLoop, Platform, Fault, M, Run, Ends, Ends-and_then, ok, fault, alloc, update,
  ◌>>=◌, ◌>>◌,
}
use co_net.Io.Ring.{put_sqe, submit_all}
use co_net.Io.Ring.Steps.{
  with_sqe_waiting, with_sqe_length, put_sqe-ok, put_sqe-null, with_sqe, allocated, posted, flushed,
}
use co_net.Context.Workers.{pick_worker, next_index, count, get_uring_fd}
use co_net.Context.Workers.Picks.{CanPick, pick_worker-CanPick}
use co_net.Context.Workers.RoundRobin.{picked, pick_worker-ok}
use co_net.Context.Spawn.{
  fd_entry, task_entry, close_entry, send_one, send_each, mshot_accept_send_awaiting_fd_and_process,
}

-- The descriptor that an entry sends to a worker, and the one that it closes.
pub sent_fd : Sqe → Option ℤ
sent_fd (Write.prep (Prep.msg_ring_fd_alloc _ fd _) ∷ _) = some fd
sent_fd _ = none

pub closed_fd : Sqe → Option ℤ
closed_fd (Write.prep (Prep.close_direct fd) ∷ _) = some fd
closed_fd _ = none

module _ (lib : Platform) where
  -- What one round adds for `fd`.
  pub record Sent (func : Func) (fd : ℤ) (w w' : World) : Type 0 where
    pub worker : ℕ
    pub receiver : ℕ
    pub task_token : ℕ
    pub entries :
        (w'.ring lib.sys).waiting
        ≡ (w.ring lib.sys).waiting
          ++ fd_entry worker fd receiver ∷ task_entry worker task_token ∷ close_entry fd ∷ []
    pub submitted : (w'.ring lib.sys).submitted ≡ (w.ring lib.sys).submitted
    pub receiver_live :
        w'.heap receiver ≡ some (token (record new_token { op = Op.multishot_accept_fd_receiver }))
    pub task_live : w'.heap task_token ≡ some (macc_msg Op.multishot_accept_task_receiver func)
    pub can_pick : CanPick w'.sys_loop

  module _ (func : Func) (fd : ℤ) (w : World) (c : CanPick w.sys_loop) where
    abbrev worker : ℕ
    worker = (pick_worker-CanPick w c).0

    abbrev dealt : World
    dealt = picked w (pick_worker-CanPick w c).1

    abbrev ready : World
    ready =
        allocated (macc_msg Op.multishot_accept_task_receiver func)
          (allocated (token (record new_token { op = Op.multishot_accept_fd_receiver })) dealt)

    abbrev one : World
    one = with_sqe lib lib.sys (fd_entry worker fd w.next) ready

    abbrev two : World
    two = with_sqe lib lib.sys (task_entry worker (suc w.next)) one

    abbrev three : World
    three = with_sqe lib lib.sys (close_entry fd) two

    len_one : length (one.ring lib.sys).waiting ≡ length (w.ring lib.sys).waiting + 1
    len_one = with_sqe_length lib lib.sys (fd_entry worker fd w.next) ready

    len_two : length (two.ring lib.sys).waiting ≡ length (w.ring lib.sys).waiting + 2
    len_two =
        omega (arith, len_one, with_sqe_length lib lib.sys (task_entry worker (suc w.next)) one)

    three_entries :
        (three.ring lib.sys).waiting
        ≡ (w.ring lib.sys).waiting
          ++ fd_entry worker fd w.next ∷ task_entry worker (suc w.next) ∷ close_entry fd ∷ []
    three_entries =
        with_sqe_waiting lib lib.sys (close_entry fd) two
        ∙ ap (λ (l : List Sqe). l ++ close_entry fd ∷ [])
            (with_sqe_waiting lib lib.sys (task_entry worker (suc w.next)) one
              ∙ ap (λ (l : List Sqe). l ++ task_entry worker (suc w.next) ∷ [])
                  (with_sqe_waiting lib lib.sys (fd_entry worker fd w.next) ready))
        ∙ append_three (w.ring lib.sys).waiting (fd_entry worker fd w.next)
            (task_entry worker (suc w.next)) (close_entry fd)

    three_submitted : (three.ring lib.sys).submitted ≡ (w.ring lib.sys).submitted
    three_submitted = ground arith

    module _ (cap : ℕ) (free : (n : ℕ) → n < cap → lib.sqe_free n ≡ true)
        (room : length (w.ring lib.sys).waiting + 3 ≤ cap) where
      send_one-ok : send_one lib func fd w ≡ ok tt three
      unfolding send_one alloc
      send_one-ok = rw ((pick_worker-CanPick w c).2) (
          rw (put_sqe-ok lib lib.sys (fd_entry worker fd w.next) ready (free _ (omega arith))) (
            rw
              (put_sqe-ok lib lib.sys (task_entry worker (suc w.next)) one
                (free _ (omega (arith, len_one))))
              (put_sqe-ok lib lib.sys (close_entry fd) two (free _ (omega (arith, len_two))))))

      pub send_one-Sent : Ends (λ _. Sent func fd w) (send_one lib func fd w)
      send_one-Sent = subst (Ends λ _. Sent func fd w) (sym send_one-ok) (record {
        worker = worker;
        receiver = w.next;
        task_token = suc w.next;
        entries = three_entries;
        submitted = three_submitted;
        receiver_live = ground arith;
        task_live = ground arith;
        can_pick = (pick_worker-CanPick w c).3;
      })

    -- With fewer than three entries left a round writes through a null pointer.
    module _ (cap : ℕ) (free : (n : ℕ) → n < cap → lib.sqe_free n ≡ true)
        (full : (n : ℕ) → cap ≤ n → lib.sqe_free n ≡ false)
        (none_left : cap < length (w.ring lib.sys).waiting + 3) where
      pub send_one-null : send_one lib func fd w ≡ fault Fault.null_sqe
      unfolding send_one alloc
      send_one-null =
          rw ((pick_worker-CanPick w c).2) (elim (dec_le cap (length (w.ring lib.sys).waiting)) [
            | yes p ↦
                rw (put_sqe-null lib lib.sys (fd_entry worker fd w.next) ready (full _ p)) refl
            | no p ↦
                rw (put_sqe-ok lib lib.sys (fd_entry worker fd w.next) ready (free _ (omega arith)))
                  (elim (dec_le cap (length (w.ring lib.sys).waiting + 1)) [
                    | yes q ↦
                        rw
                          (put_sqe-null lib lib.sys (task_entry worker (suc w.next)) one
                            (full _ (omega (arith, len_one))))
                          refl
                    | no q ↦
                        rw
                          (put_sqe-ok lib lib.sys (task_entry worker (suc w.next)) one
                            (free _ (omega (arith, len_one))))
                          (put_sqe-null lib lib.sys (close_entry fd) two
                            (full _ (omega (arith, len_two))))
                  ])
          ])
