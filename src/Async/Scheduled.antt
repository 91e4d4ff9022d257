-- ===== src/Async/Scheduled.antt =====
-- include/co_net/async/scheduled_task.hpp. `H` is the type of coroutine handles. What the resumed
-- coroutine does is not part of this file: `settle` is what `resume` does once it has returned.
use co_net.Base.{Bool, true, false, if◌then◌else◌}

pub record ScheduledTask {ℓ} (H : Type ℓ) : Type ℓ where
  pub task : H
  pub awaiting_handle : H
  pub valid : Bool
  pub pending : Bool

module _ {ℓ} {H : Type ℓ} where
  -- Both constructors: the coroutine has not started, and it is what `resume` goes on with.
  unfoldable pub schedule : H → ScheduledTask H
  schedule h = record { task = h; awaiting_handle = h; valid = true; pending = false }

  unfoldable pub set_awaiting_handle : H → ScheduledTask H → ScheduledTask H
  set_awaiting_handle next t = record t { awaiting_handle = next }

  unfoldable pub set_pending : Bool → ScheduledTask H → ScheduledTask H
  set_pending p t = record t { pending = p }

  -- `done` is `task_.done()` after the coroutine has given control back.
  unfoldable pub settle : Bool → ScheduledTask H → ScheduledTask H
  settle done t = if done then record t { valid = false } else t
