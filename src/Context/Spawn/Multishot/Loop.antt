-- ===== src/Context/Spawn/Multishot/Loop.antt =====
-- All rounds of the loop of the main ring that sends accepted descriptors to the workers.
use mathlib.Core.List.{filter_map, append-nil, filter_map-append}
use native.Mathlib.Decide.{dec_le}
use co_net.Base.{
  ℕ, ◌+◌, ◌*◌, ◌≤◌, ◌<◌, ◌≡◌, refl, sym, ap, ◌∙◌, true, false, List, [], ◌∷◌, ◌++◌, arith, length,
  length-append, append_assoc, ==_self,
}
use co_net.Base.Int.{ℤ}
use co_net.Io.Token.{Func}
use co_net.Io.World.{Ends-mono, World, Ring, Platform, Fault, Ends, Ends-and_then, fault}
use co_net.Io.Ring.{submit_all}
use co_net.Io.Ring.Steps.{posted-take, posted}
use co_net.Context.Workers.Picks.{CanPick, pick_worker-CanPick}
use co_net.Context.Spawn.Multishot.{
  send_one-ok, three, three_entries, Sent, send_one-Sent, send_one-null, sent_fd, closed_fd,
}
use co_net.Context.Spawn.{
  fd_entry, task_entry, close_entry, send_one, send_each, mshot_accept_send_awaiting_fd_and_process,
}

-- `r` has gained, behind `q`, three entries for each of `fds`.
pub record HasSent (fds : List ℤ) (q r : Ring) : Type 0 where
  pub to_workers : filter_map sent_fd (posted r) ≡ filter_map sent_fd (posted q) ++ fds
  pub closed : filter_map closed_fd (posted r) ≡ filter_map closed_fd (posted q) ++ fds
  pub three_each : length (posted r) ≡ length (posted q) + 3 * length fds

HasSent-nil : (q : Ring) → HasSent [] q q
HasSent-nil q = record {
  to_workers = sym (append-nil _);
  closed = sym (append-nil _);
  three_each = omega arith;
}

HasSent-trans :
    (xs ys : List ℤ) (p q r : Ring) → HasSent xs p q → HasSent ys q r → HasSent (xs ++ ys) p r
HasSent-trans xs ys p q r a b = record {
  to_workers = b.to_workers ∙ ap (λ (l : List ℤ). l ++ ys) a.to_workers ∙ append_assoc _ xs ys;
  closed = b.closed ∙ ap (λ (l : List ℤ). l ++ ys) a.closed ∙ append_assoc _ xs ys;
  three_each = omega (arith, a.three_each, b.three_each, length-append xs ys);
}

HasSent-posted :
    (fds : List ℤ) (p q r : Ring) → posted r ≡ posted q → HasSent fds p q → HasSent fds p r
HasSent-posted fds p q r e a = record {
  to_workers = ap (filter_map sent_fd) e ∙ a.to_workers;
  closed = ap (filter_map closed_fd) e ∙ a.closed;
  three_each = ap length e ∙ a.three_each;
}

Sent-HasSent :
    (lib : Platform) (func : Func) (fd : ℤ) (w w' : World)
    → Sent lib func fd w w'
    → HasSent (fd ∷ []) (w.ring lib.sys) (w'.ring lib.sys)
unfolding sent_fd closed_fd filter_map
Sent-HasSent lib func fd w w' s = record {
  to_workers = rw grown (filter_map-append sent_fd (posted (w.ring lib.sys)) _);
  closed = rw grown (filter_map-append closed_fd (posted (w.ring lib.sys)) _);
  three_each = rw grown (length-append (posted (w.ring lib.sys)) _);
}
  where
    grown :
        posted (w'.ring lib.sys)
        ≡ posted (w.ring lib.sys)
          ++ fd_entry s.worker fd s.receiver
            ∷ task_entry s.worker s.task_token
            ∷ close_entry fd
            ∷ []
    grown =
        rw (s.submitted, s.entries)
          (sym (append_assoc (w.ring lib.sys).submitted (w.ring lib.sys).waiting _))

left :
    {lib : Platform} (w w' : World) (fd : ℤ) (func : Func)
    → Sent lib func fd w w'
    → length (w'.ring lib.sys).waiting ≡ length (w.ring lib.sys).waiting + 3
left {lib} w w' fd func s = ap length s.entries ∙ length-append (w.ring lib.sys).waiting _

three_length :
    (lib : Platform) (func : Func) (fd : ℤ) (w : World) (c : CanPick w.sys_loop)
    → length ((three lib func fd w c).ring lib.sys).waiting ≡ length (w.ring lib.sys).waiting + 3
three_length lib func fd w c =
    ap length (three_entries lib func fd w c) ∙ length-append (w.ring lib.sys).waiting _

module _ (lib : Platform) (cap : ℕ) (free : (n : ℕ) → n < cap → lib.sqe_free n ≡ true) where
  abbrev Done : List ℤ → World → World → Type 0
  Done fds w w' = HasSent fds (w.ring lib.sys) (w'.ring lib.sys) × CanPick w'.sys_loop

  send_each-Done :
      (func : Func) (fds : List ℤ) (w : World)
      → CanPick w.sys_loop
      → length (w.ring lib.sys).waiting + 3 * length fds ≤ cap
      → Ends (λ _. Done fds w) (send_each lib func fds w)
  unfolding send_each
  send_each-Done func [] w c room = (HasSent-nil (w.ring lib.sys), c)
  send_each-Done func (fd ∷ fds) w c room =
      Ends-and_then (λ _. Sent lib func fd w) (λ _. Done (fd ∷ fds) w) (send_one lib func fd w)
        (λ _. send_each lib (lib.moved_from func) fds)
        (send_one-Sent lib func fd w c cap free (omega arith))
        λ _ w₁ s.
          Ends-mono (λ _. Done fds w₁) (λ _. Done (fd ∷ fds) w)
            (send_each lib (lib.moved_from func) fds w₁)
            (send_each-Done (lib.moved_from func) fds w₁ s.can_pick
              (omega (arith, left w w₁ fd func s)))
            λ _ w₂ d. (
              HasSent-trans (fd ∷ []) fds (w.ring lib.sys) (w₁.ring lib.sys) (w₂.ring lib.sys)
                  (Sent-HasSent lib func fd w w₁ s) d.0,
              d.1,
            )

  module _ (full : (n : ℕ) → cap ≤ n → lib.sqe_free n ≡ false) where
    send_each-null :
        (func : Func) (fds : List ℤ) (w : World)
        → CanPick w.sys_loop
        → length (w.ring lib.sys).waiting ≤ cap
        → cap < length (w.ring lib.sys).waiting + 3 * length fds
        → send_each lib func fds w ≡ fault Fault.null_sqe
    unfolding send_each
    send_each-null func [] w c fits over = absurd (omega arith)
    send_each-null func (fd ∷ fds) w c fits over =
        elim (dec_le (length (w.ring lib.sys).waiting + 3) cap) [
          | yes room ↦ rw (send_one-ok lib func fd w c cap free room) (
              send_each-null (lib.moved_from func) fds (three lib func fd w c)
                (pick_worker-CanPick w c).3 (omega (arith, three_length lib func fd w c))
                (omega (arith, three_length lib func fd w c)))
          | no tight ↦ rw (send_one-null lib func fd w c cap free full (omega arith)) refl
        ]

    -- On a main ring with `cap` entries of which at most `cap` are taken, and a worker to pick, the
    -- loop that sends accepted descriptors writes through a null pointer whenever three entries for
    -- each of them are more than are left.
    pub mshot_accept-null :
        (func : Func) (w : World)
        → CanPick w.sys_loop
        → length (w.ring lib.sys).waiting ≤ cap
        → cap < length (w.ring lib.sys).waiting + 3 * length (w.ring lib.sys).awaiting_direct_fd
        → mshot_accept_send_awaiting_fd_and_process lib lib.sys func w ≡ fault Fault.null_sqe
    unfolding mshot_accept_send_awaiting_fd_and_process
    mshot_accept-null func w c fits over =
        rw (send_each-null func (w.ring lib.sys).awaiting_direct_fd w c fits over) refl

  -- With a worker to pick and room in the main ring for three entries for each accepted descriptor,
  -- the loop that sends them to the workers does not fail. It hands out three entries for each,
  -- sends every descriptor once and in order, closes every descriptor once and in order, and leaves
  -- none waiting.
  pub mshot_accept-HasSent :
      (func : Func) (w : World)
      → CanPick w.sys_loop
      → length (w.ring lib.sys).waiting + 3 * length (w.ring lib.sys).awaiting_direct_fd ≤ cap
      → Ends
          (λ _ w'.
            HasSent (w.ring lib.sys).awaiting_direct_fd (w.ring lib.sys) (w'.ring lib.sys)
            × ((w'.ring lib.sys).awaiting_direct_fd ≡ []))
          (mshot_accept_send_awaiting_fd_and_process lib lib.sys func w)
  unfolding mshot_accept_send_awaiting_fd_and_process submit_all
  mshot_accept-HasSent func w c room =
      Ends-and_then (λ _. Done (w.ring lib.sys).awaiting_direct_fd w) _
        (send_each lib func (w.ring lib.sys).awaiting_direct_fd w) _
        (send_each-Done func (w.ring lib.sys).awaiting_direct_fd w c room)
        λ _ w₁ d. (
          HasSent-posted _ _ _ _
              (rw (==_self lib.sys) (
                posted-take (lib.accepted lib.sys lib.sys (length (w₁.ring lib.sys).waiting))
                  (w₁.ring lib.sys).submitted (w₁.ring lib.sys).waiting))
              d.0,
          rw (==_self lib.sys) refl,
        )
