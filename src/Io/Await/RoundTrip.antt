-- ===== src/Io/Await/RoundTrip.antt =====
-- A coroutine that awaits an operation, from the entry to the result.
use co_net.Base.{
  ℕ, ◌<◌, ◌≡◌, refl, ap, sym, subst, ◌∙◌, true, false, some, List, [], ◌∷◌, ◌++◌, arith, length,
  get_elem?, drop, append-nil,
}
use co_net.Base.Int.{ℤ, signed}
use co_net.Async.Scheduled.{ScheduledTask}
use co_net.Io.Token.{CompletionToken, new_token, TaskRef, Coro, token}
use co_net.Io.Sqe.{Cqe, Sqe, has_task}
use co_net.Io.World.{◌>>=◌, ◌>>◌, Ends-and_then, World, Platform, Ends, M, pure, get_ring}
use co_net.Io.Handler.{handle_request}
use co_net.Io.Handler.Wake.{Woken, handle_request-Woken}
use co_net.Io.Tickets.{Ticket, own, tickets_of}
use co_net.Io.Await.{await_resume, Awaiter, suspend}
use co_net.Io.Await.Suspend.{await_resume-ok, target, entry, Parked, suspend-Parked}
use co_net.Io.Await.Operations.{IsOperation, operation-IsOneShot, operation-IsAwaited}

-- The completions of `ts` come, each on its ring, with the result `res` and the flags `flags`.
unfoldable pub handle_each : Platform → ℤ → ℕ → List Ticket → M (Unit {0})
handle_each lib res flags [] = pure tt
handle_each lib res flags (t ∷ ts) = do
  handle_request lib t.ring (record { res = res; flags = flags; user_data = t.address })
  handle_each lib res flags ts

-- Those that the entries of the ring `r` ask for, but for the first `n` entries that wait.
unfoldable pub completes : Platform → ℕ → ℕ → ℤ → ℕ → M (Unit {0})
completes lib r n res flags = do
  x ← get_ring r
  handle_each lib res flags (tickets_of r (drop n x.waiting))

drop-length : (xs ys : List Sqe) → drop (length xs) (xs ++ ys) ≡ ys
drop-length [] ys = refl
drop-length (x ∷ xs) ys = drop-length xs ys

module _ (lib : Platform) (local : ℕ) (a : Awaiter) (caller : Coro) (ref : TaskRef)
    {s : ScheduledTask Coro} (w : World) (operation : IsOperation a)
    (queued : get_elem? (w.ring ref.ring).tasks ref.index ≡ some s)
    (room : lib.sqe_free (length (w.ring (target lib local a)).waiting) ≡ true) where
  abbrev waited : ℕ
  waited = length (w.ring (target lib local a)).waiting

  -- The await has asked for one completion, with the token's address.
  asked :
      (p : ℕ) (w₁ : World)
      → Parked lib local a caller ref s w p w₁
      → tickets_of (target lib local a) (drop waited (w₁.ring (target lib local a)).waiting)
        ≡ own (target lib local a) w.next ∷ []
  unfolding tickets_of
  asked p w₁ parked =
      ap (λ (l : List Sqe). tickets_of (target lib local a) (drop waited l)) parked.entries
      ∙ ap (tickets_of (target lib local a))
          (drop-length (w.ring (target lib local a)).waiting (entry w.next a ∷ []))
      ∙ append-nil _
      ∙ (operation-IsOneShot a operation).once (target lib local a) w.next

  abbrev Back : ℤ → ℕ → ℤ × ℤ → World → Type 0
  Back res flags r w' =
      (r ≡ (res, signed 32 flags))
      × (get_elem? (w'.ring ref.ring).tasks ref.index
          ≡ some (record s { awaiting_handle = caller; pending = false }))

  abbrev cqe : ℤ → ℕ → Cqe
  cqe res flags = record { res = res; flags = flags; user_data = w.next }

  abbrev sent : CompletionToken
  sent = record new_token { op = a.op; chain_task = some ref }

  abbrev filled : ℤ → ℕ → CompletionToken
  filled res flags = record sent { cqe_res = res; cqe_flags = signed 32 flags }

  woken :
      (res : ℤ) (flags : ℕ)
      → 0 < w.next
      → has_task flags ≡ false
      → (p : ℕ) (w₁ : World) → Parked lib local a caller ref s w p w₁
      → Ends
          (λ _.
            Woken
              (cqe res flags)
              sent
              ref
              (record s { awaiting_handle = caller; pending = true })
              w₁)
          (handle_request lib (target lib local a) (cqe res flags) w₁)
  woken res flags pos unmarked p w₁ parked =
      handle_request-Woken lib (target lib local a) (cqe res flags) sent ref
        (record s { awaiting_handle = caller; pending = true }) w₁ (operation-IsAwaited a operation)
        unmarked (ap w₁.heap (sym parked.address) ∙ parked.token_live)
        (λ e. absurd (omega (arith, e, pos))) refl parked.task

  -- A task that stands in its loop awaits one of the program's operations, on a ring with room for
  -- an entry, and the next address is not null. The suspension does not fail: the token is live at
  -- that address and belongs to the task, the task is pending and will go on at the awaiting
  -- coroutine, the other tasks and all other memory are as they were, and the ring was handed one
  -- entry, which carries the token's address. When then the completions that the ring's new entries
  -- ask for come on it, with any result and with flags that do not mark a task, the resumption gets
  -- that result and the flags as a signed number, and the task is no longer pending and will go on
  -- at the awaiting coroutine.
  pub await_round_trip :
      (res : ℤ) (flags : ℕ)
      → 0 < w.next
      → has_task flags ≡ false
      → Ends (Parked lib local a caller ref s w) (suspend lib local a caller (some ref) w)
        × Ends
            (λ r w'.
              (r ≡ (res, signed 32 flags))
              × (get_elem? (w'.ring ref.ring).tasks ref.index
                  ≡ some (record s { awaiting_handle = caller; pending = false })))
            ((do
              p ← suspend lib local a caller (some ref)
              completes lib
                  (target lib local a)
                  (length (w.ring (target lib local a)).waiting)
                  res
                  flags
              await_resume p)
              w)
  unfolding completes handle_each
  await_round_trip res flags pos unmarked = (
    suspend-Parked lib local a caller ref w queued room,
    Ends-and_then (Parked lib local a caller ref s w) (Back res flags)
        (suspend lib local a caller (some ref) w) _
        (suspend-Parked lib local a caller ref w queued room)
        λ p w₁ parked. rw (asked p w₁ parked) (
          Ends-and_then
            (λ _.
              Woken (cqe res flags) sent ref (record s { awaiting_handle = caller; pending = true })
                w₁)
            (Back res flags)
            ((handle_request lib (target lib local a) (cqe res flags) >> pure tt) w₁) _
            (Ends-and_then _ _ (handle_request lib (target lib local a) (cqe res flags) w₁) _
              (woken res flags pos unmarked p w₁ parked) λ _ v h. h)
            λ _ w₂ h.
              rw
                (await_resume-ok p w₂ (
                  subst (λ q. w₂.heap q ≡ some (token (filled res flags))) (sym parked.address)
                    h.result))
                (refl, h.task)),
  )
