-- ===== src/Io/Handler/Harmless.antt =====
-- Commands that fail at most for want of a free entry, or at a call of an empty function.
use co_net.Base.{
  ℕ, zero, suc, ◌≡◌, refl, Bool, true, false, none, some, List, [], ◌∷◌, ◌++◌, length,
  if◌then◌else◌,
}
use co_net.Base.Int.{ℤ, is_neg}
use co_net.Net.Connection.{TcpConnection}
use co_net.Io.Token.{Func, Coro}
use co_net.Io.Sqe.{Sqe}
use co_net.Io.World.{
  World, Ring, Platform, Run, ok, fault, M, Fault, and_then, ◌>>=◌, ◌>>◌, pure, stop, alloc,
  get_ring, put_ring,
}
use co_net.Io.Ring.{
  enqueue, put_sqe, submit_all, notify_main_ring_release_fd, close_direct_socket, destroy,
}
use co_net.Io.Handler.{invoke, push_awaiting, destroy_each, start_each}

-- The two faults are a null entry, and `std::bad_function_call`.
abbrev pub Allowed : Fault → Type 0
Allowed Fault.null_sqe = Unit {0}
Allowed Fault.bad_function_call = Unit {0}
Allowed _ = ⊥

abbrev pub Ordinary : {A : Type 0} → Run A → Type 0
Ordinary (ok a w) = Unit {0}
Ordinary (fault e) = Allowed e

pub Ordinary-and_then :
    {A B : Type 0} (m : Run A) (k : A → M B)
    → Ordinary m
    → ((a : A) (v : World) → m ≡ ok a v → Ordinary (k a v))
    → Ordinary (and_then m k)
Ordinary-and_then (ok a v) k h next = next a v refl
Ordinary-and_then (fault e) k h next = h

pub data Harmless {A : Type 0} (m : M A) : Type 0 where
  harmless : ((w : World) → Ordinary (m w)) → Harmless m

pub run_of : {A : Type 0} {m : M A} → Harmless m → (w : World) → Ordinary (m w)
run_of (harmless h) = h

pub Harmless-bind :
    {A B : Type 0} (m : M A) (k : A → M B)
    → Harmless m
    → ((a : A) → Harmless (k a))
    → Harmless (m >>= k)
Harmless-bind m k h next =
    harmless λ w. Ordinary-and_then (m w) k (run_of h w) λ a v _. run_of (next a) v

pub Harmless-then : {A B : Type 0} (m : M A) (k : M B) → Harmless m → Harmless k → Harmless (m >> k)
Harmless-then m k h next =
    harmless λ w. Ordinary-and_then (m w) (λ _. k) (run_of h w) λ _ v _. run_of next v

pub Harmless-pure : {A : Type 0} (a : A) → Harmless {A = A} (pure a)
Harmless-pure a = harmless λ w. tt

pub Harmless-if :
    {A : Type 0} (b : Bool) (m k : M A) → Harmless m → Harmless k → Harmless (if b then m else k)
Harmless-if true m k h l = h
Harmless-if false m k h l = l

pub Harmless-put_ring : (r : ℕ) (x : Ring) → Harmless (put_ring r x)
Harmless-put_ring r x = harmless λ w. tt

pub Harmless-get_ring : (r : ℕ) → Harmless (get_ring r)
Harmless-get_ring r = harmless λ w. tt

pub Harmless-invoke : (f : Func) (c : TcpConnection) → Harmless (invoke f c)
Harmless-invoke none c = harmless λ w. tt
Harmless-invoke (some f) c = Harmless-pure _

pub Harmless-enqueue : (this : ℕ) (c : Coro) → Harmless (enqueue this c)
unfolding enqueue
Harmless-enqueue this c = harmless λ w. tt

pub Harmless-push_awaiting : (this : ℕ) (fd : ℤ) → Harmless (push_awaiting this fd)
unfolding push_awaiting
Harmless-push_awaiting this fd = Harmless-bind _ _ (Harmless-get_ring this) λ r.
    Harmless-if (is_neg fd) _ _ (Harmless-pure tt)
      (Harmless-put_ring this (record r { awaiting_direct_fd = r.awaiting_direct_fd ++ fd ∷ [] }))

module _ (lib : Platform) where
  pub Harmless-put_sqe : (this : ℕ) (writes : Sqe) → Harmless (put_sqe lib this writes)
  unfolding put_sqe
  Harmless-put_sqe this writes = Harmless-bind _ _ (Harmless-get_ring this) λ r.
      Harmless-if (lib.sqe_free (length r.waiting)) _ (stop Fault.null_sqe)
        (Harmless-put_ring this (record r { waiting = r.waiting ++ writes ∷ [] }))
        (harmless λ w. tt)

  pub Harmless-submit_all : (by this : ℕ) → Harmless (submit_all lib by this)
  unfolding submit_all
  Harmless-submit_all by this = harmless λ w. tt

  pub Harmless-close_direct_socket :
      (by this : ℕ) (fd : ℤ) → Harmless (close_direct_socket lib by this fd)
  unfolding close_direct_socket
  Harmless-close_direct_socket by this fd =
      Harmless-then _ _ (Harmless-put_sqe this _) (Harmless-submit_all by this)

  pub Harmless-notify_main_ring_release_fd :
      (this : ℕ) (fd : ℤ) → Harmless (notify_main_ring_release_fd lib this fd)
  unfolding notify_main_ring_release_fd alloc
  Harmless-notify_main_ring_release_fd this fd =
      harmless
        λ w. run_of (Harmless-then _ _ (Harmless-put_sqe this _) (Harmless-submit_all this this)) _

  pub Harmless-destroy : (local : ℕ) (c : TcpConnection) → Harmless (destroy lib local c)
  unfolding destroy
  Harmless-destroy local c =
      Harmless-if _ _ _ (Harmless-close_direct_socket local lib.sys c.socket)
        (Harmless-if _ _ _ (Harmless-pure tt) (Harmless-close_direct_socket local local c.socket))

  pub Harmless-destroy_each :
      (local n : ℕ) (c : TcpConnection) → Harmless (destroy_each lib local n c)
  unfolding destroy_each
  Harmless-destroy_each local zero c = Harmless-pure tt
  Harmless-destroy_each local (suc n) c =
      Harmless-then _ _ (Harmless-destroy local c) (Harmless-destroy_each local n c)

  pub Harmless-start_each :
      (this : ℕ) (func : Func) (fds : List ℤ) → Harmless (start_each lib this func fds)
  unfolding start_each
  Harmless-start_each this func [] = Harmless-pure tt
  Harmless-start_each this func (fd ∷ fds) = Harmless-bind _ _ (Harmless-invoke func _) λ c.
      Harmless-then _ _ (Harmless-destroy_each this (suc lib.call_moves) _)
        (Harmless-then _ _ (Harmless-enqueue this c) (Harmless-start_each this func fds))
