-- ===== src/Io/Handler/Batches.antt =====
-- Batches of completions, of which each may write its own memory.
use co_net.Base.{ℕ, List, [], ◌∷◌, length, arith, inr}
use co_net.Io.Sqe.{Cqe, Prep, prep}
use co_net.Io.World.{Platform}
use co_net.Io.World.Keeps.{Keeps, Keeps-bind, Keeps-then, Keeps-pure, Keeps-if, Keeps-get_ring}
use co_net.Io.Ring.Kept.{Keeps-consume, Keeps-put_sqe, Keeps-submit_all}
use co_net.Io.Handler.{handle_all, process_all, handle_until_stopped, process_batch}
use co_net.Io.Handler.Kept.{Keeps-handle_request}

module _ {o : ℕ} (lib : Platform) where
  Keeps-handle_all : (this : ℕ) (cqes : List Cqe) → Keeps o 0 (handle_all lib this cqes)
  unfolding handle_all
  Keeps-handle_all this [] = Keeps-pure tt
  Keeps-handle_all this (c ∷ cs) =
      Keeps-then _ _ (Keeps-handle_request lib this c (inr (omega arith)))
        (Keeps-handle_all this cs)

  pub Keeps-process_all : (this : ℕ) (cqes : List Cqe) → Keeps o 0 (process_all lib this cqes)
  unfolding process_all
  Keeps-process_all this cqes =
      Keeps-then _ _ (Keeps-handle_all this cqes) (Keeps-consume this (length cqes))

  Keeps-handle_until_stopped :
      (this : ℕ) (cqes : List Cqe) → Keeps o 0 (handle_until_stopped lib this cqes)
  unfolding handle_until_stopped
  Keeps-handle_until_stopped this [] = Keeps-pure tt
  Keeps-handle_until_stopped this (c ∷ cs) = Keeps-bind _ _ (Keeps-get_ring this) λ r.
      Keeps-if r.stopped _ _ (Keeps-pure tt) (
        Keeps-then _ _ (Keeps-handle_request lib this c (inr (omega arith)))
          (Keeps-handle_until_stopped this cs))

  pub Keeps-process_batch :
      (this : ℕ) (cqes : List Cqe) (left after : ℕ)
      → Keeps o 0 (process_batch lib this cqes left after)
  unfolding process_batch
  Keeps-process_batch this cqes left after = Keeps-then _ _ (Keeps-handle_until_stopped this cqes) (
      Keeps-then _ _ (Keeps-consume this (length cqes)) (
        Keeps-bind _ _ (Keeps-get_ring this) λ r.
          Keeps-if r.stopped _ _
            (Keeps-then _ _ (Keeps-consume this left) (
              Keeps-then _ _ (Keeps-put_sqe lib this (prep Prep.cancel_any ∷ []))
                (Keeps-then _ _ (Keeps-submit_all lib this this) (Keeps-consume this after))))
            (Keeps-pure tt)))
