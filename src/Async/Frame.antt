-- ===== src/Async/Frame.antt =====
-- include/co_net/async: promise_type.hpp, result.hpp, awaiter.hpp, and the promise and the awaiter
-- of task.hpp. A coroutine is named by its handle, a number; `C` is what `this_chain_task_` points
-- to, `E` an exception, `A` the type of the value that the coroutine returns.
pub mod Chain
pub mod Unwind
use co_net.Base.{ℕ, Bool, true, false, List, [], ◌∷◌, Option, none, some, ◌==◌, if◌then◌else◌}

-- The union of class Result: raw storage, or a value.
pub data Slot {ℓ} (A : Type ℓ) : Type ℓ where
  raw : Slot A
  holds : A → Slot A

unfoldable pub construct_result {ℓ} : {A : Type ℓ} → A → Slot A → Slot A
construct_result v s = holds v

-- `none` reads raw storage.
unfoldable pub move_out_result {ℓ} : {A : Type ℓ} → Slot A → Option (A × Slot A)
move_out_result raw = none
move_out_result (holds v) = some (v, raw)

pub record Promise (C E A : Type 0) : Type 0 where
  pub caller : Option ℕ
  pub exp : Option E
  pub this_chain_task : Option C
  pub res : Slot A

pub data Resumed (E A : Type 0) : Type 0 where
  value : A → Resumed E A
  rethrown : E → Resumed E A
  undefined : Resumed E A

-- Where control goes when a coroutine has ended. `terminate`: an exception leaves a function that
-- is `noexcept`.
pub data Transfer : Type 0 where
  to : ℕ → Transfer
  noop : Transfer
  terminate : Transfer

module _ {C E A : Type 0} where
  unfoldable pub new_promise : Promise C E A
  new_promise = record { caller = none; exp = none; this_chain_task = none; res = raw }

  unfoldable pub unhandled_exception : E → Promise C E A → Promise C E A
  unhandled_exception e p = record p { exp = some e }

  unfoldable pub set_caller : ℕ → Promise C E A → Promise C E A
  set_caller h p = record p { caller = some h }

  unfoldable pub set_chain_root : Option C → Promise C E A → Promise C E A
  set_chain_root c p = record p { this_chain_task = c }

  unfoldable pub return_value : A → Promise C E A → Promise C E A
  unfolding construct_result
  return_value v p = record p { res = construct_result v p.res }

  take_value : Promise C E A → Option (A × Slot A) → Resumed E A × Promise C E A
  take_value p none = (undefined, p)
  take_value p (some (v, s)) = (value v, record p { res = s })

  -- `TaskPromise::result`
  unfoldable pub result : Promise C E A → Resumed E A × Promise C E A
  unfolding move_out_result take_value
  result p = elim p.exp [ some e ↦ (rethrown e, p) | none ↦ take_value p (move_out_result p.res) ]

  -- `return_void` and `result` of `TaskPromise<void>`; `v` stands for no value.
  unfoldable pub return_void : Promise C E A → Promise C E A
  return_void p = p

  unfoldable pub void_result : A → Promise C E A → Resumed E A
  void_result v p = elim p.exp [ some e ↦ rethrown e | none ↦ value v ]

  -- `FinalTaskAwaiter::await_suspend`
  unfoldable pub final_suspend : Promise C E A → Transfer
  final_suspend p = elim p.caller [
    | some h ↦ to h
    | none ↦ elim p.exp [ some e ↦ terminate | none ↦ noop ]
  ]

-- The frames that are alive.
abbrev pub Frames : (C E A : Type 0) → Type 0
Frames C E A = ℕ → Option (Promise C E A)

module _ {C E A : Type 0} where
  abbrev pub put : ℕ → Promise C E A → Frames C E A → Frames C E A
  put h p fs k = if k == h then some p else fs k

  -- `TaskAwaier::await_suspend`: the caller awaits the callee, which runs next. `none` is a handle
  -- of no frame.
  unfoldable pub await_suspend : ℕ → ℕ → Frames C E A → Option (Frames C E A × Transfer)
  unfolding set_caller set_chain_root
  await_suspend callee caller fs = elim (fs callee) [
    | none ↦ none
    | some p ↦ elim (fs caller) [
      | none ↦ none
      | some q ↦
          some (put callee (set_chain_root q.this_chain_task (set_caller caller p)) fs, to callee)
    ]
  ]

  -- `TaskAwaier::await_resume`
  unfoldable pub await_resume : ℕ → Frames C E A → Option (Resumed E A × Frames C E A)
  await_resume callee fs = elim (fs callee) [
    | none ↦ none
    | some p ↦ some ((result p).0, put callee (result p).1 fs)
  ]
