-- ===== src/Async/Task.antt =====
-- include/co_net/async/task.hpp: class Task, which owns a coroutine's frame. `destroyed` are the
-- frames that the operations have destroyed, in order.
use mathlib.Core.Option
use co_net.Async.Frame.{Frames, put, set_chain_root}
use co_net.Base.{Bool, ℕ, List, [], ◌∷◌, ◌++◌, ◌≡◌, Option, none, some, arith}

pub record Task : Type 0 where
  pub handle : Option ℕ

unfoldable pub task : ℕ → Task
task h = record { handle = some h }

-- The move constructor: the new task, and what is left of the old one.
unfoldable pub move : Task → Task × Task
move rhs = (record { handle = rhs.handle }, record { handle = none })

-- The move assignment drops the handle that it overwrites.
unfoldable pub move_assign : Task → Task → Task × Task
move_assign this rhs = (record this { handle = rhs.handle }, record { handle = none })

unfoldable pub take : Task → Option ℕ × Task
take t = (t.handle, record { handle = none })

-- `~Task`: the frames that it destroys.
unfoldable pub destroy : Task → List ℕ
destroy t = elim t.handle [ none ↦ [] | some h ↦ h ∷ [] ]

-- The accessors. `none` is a call on a null handle; `ended` says which frames are at their end.
unfoldable pub done : (ℕ → Bool) → Task → Option Bool
done ended t = Option.map ended t.handle

-- The coroutine that runs next.
unfoldable pub resume : Task → Option ℕ
resume t = t.handle

unfoldable pub set_chain_task_root :
    {C E A : Type 0} → Option C → Task → Frames C E A → Option (Frames C E A)
unfolding set_chain_root
set_chain_task_root root t fs = elim t.handle [
  | none ↦ none
  | some h ↦ Option.map (λ p. put h (set_chain_root root p) fs) (fs h)
]

-- `operator co_await`: the callee of the awaiter.
unfoldable pub co_await : Task → Option ℕ
co_await t = t.handle

-- A task that is moved, by construction or by assignment, has its frame destroyed once when both
-- sides are destroyed, and a frame that the assignment overwrites by neither; a task whose handle
-- is taken destroys nothing.
pub destroy-move_assign :
    (t this : Task)
    → (destroy (move t).0 ++ destroy (move t).1 ≡ destroy t)
      × (destroy (move_assign this t).0 ++ destroy (move_assign this t).1 ≡ destroy t)
      × (destroy (take t).1 ≡ [])
unfolding destroy move move_assign take
destroy-move_assign t this = (ground arith, ground arith, ground arith)
