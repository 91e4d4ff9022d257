-- ===== src/Context/Spawn/Notified.antt =====
-- The messages by which a ring tells others, and itself, to quit.
use co_net.Base.{
  ℕ, suc, ◌+◌, ◌-◌, ◌<◌, ◌≡◌, ◌≢◌, refl, sym, ap, subst, ◌∙◌, true, some, List, [], ◌∷◌, ◌++◌,
  arith, length, length-append, append-nil, append_assoc,
}
use native.Mathlib.Decide.{dec_lt}
use co_net.Base.Int.{pos}
use co_net.Io.Token.{Op, Cell, token, new_token}
use co_net.Io.Sqe.{Sqe, Prep, prep, Flag, flag}
use co_net.Io.World.{World, Platform, Ends, Ends-mono, alloc}
use co_net.Io.Ring.{notify_workers_to_stop, notify_self_quit}
use co_net.Io.Ring.Steps.{put_sqe-ok, with_sqe, with_sqe_waiting, with_sqe_length, allocated}

-- The entry that tells `fd` to quit by the token at `t`.
abbrev pub stop_entry : ℕ → ℕ → Sqe
stop_entry fd t = flag Flag.cqe_skip_success ∷ prep (Prep.msg_ring fd (pos 0) t) ∷ []

abbrev pub stop_entries : ℕ → List ℕ → List Sqe
stop_entries t [] = []
stop_entries t (fd ∷ fds) = stop_entry fd t ∷ stop_entries (suc t) fds

stop_entries-append :
    (t : ℕ) (xs ys : List ℕ)
    → stop_entries t (xs ++ ys) ≡ stop_entries t xs ++ stop_entries (t + length xs) ys
stop_entries-append t [] ys = let e : t + 0 ≡ t = omega arith in rw e refl
stop_entries-append t (x ∷ xs) ys =
    let e : t + suc (length xs) ≡ suc t + length xs = omega arith in
    rw e (ap (◌∷◌ (stop_entry x t)) (stop_entries-append (suc t) xs ys))

pub length-stop_entries : (t : ℕ) (fds : List ℕ) → length (stop_entries t fds) ≡ length fds
length-stop_entries t [] = refl
length-stop_entries t (x ∷ xs) = ap suc (length-stop_entries (suc t) xs)

abbrev pub quit_token : Cell
quit_token = token (record new_token { op = Op.quit })

module _ (lib : Platform) (this : ℕ) where
  -- `w'` is `w` after `this` has been handed an entry for each of `fds`, each with a token of its
  -- own.
  pub record Notified (fds : List ℕ) (w w' : World) : Type 0 where
    pub entries : (w'.ring this).waiting ≡ (w.ring this).waiting ++ stop_entries w.next fds
    pub submitted : (w'.ring this).submitted ≡ (w.ring this).submitted
    pub next : w'.next ≡ w.next + length fds
    pub live : (k : ℕ) → k < length fds → w'.heap (w.next + k) ≡ some quit_token
    pub old : (p : ℕ) → p < w.next → w'.heap p ≡ w.heap p
    pub others : (r : ℕ) → r ≢ this → w'.ring r ≡ w.ring r
    pub loop : w'.sys_loop ≡ w.sys_loop

  abbrev told : ℕ → World → World
  told fd w = with_sqe lib this (stop_entry fd w.next) (allocated quit_token w)

  told-Notified : (fd : ℕ) (w : World) → Notified (fd ∷ []) w (told fd w)
  told-Notified fd w = record {
    entries = with_sqe_waiting lib this (stop_entry fd w.next) (allocated quit_token w);
    submitted = ground arith;
    next = omega arith;
    live = λ k h. ground (arith, h);
    old = λ p h. ground (arith, h);
    others = λ r h. ground (arith, h);
    loop = refl;
  }

  pub Notified-append :
      (xs ys : List ℕ) (u v w : World) → Notified xs u v → Notified ys v w → Notified (xs ++ ys) u w
  Notified-append xs ys u v w a b = record {
    entries =
        b.entries
        ∙ rw (a.entries, a.next)
            (append_assoc (u.ring this).waiting (stop_entries u.next xs) _
              ∙ ap (◌++◌ (u.ring this).waiting) (sym (stop_entries-append u.next xs ys)));
    submitted = b.submitted ∙ a.submitted;
    next = omega (arith, b.next, a.next, length-append xs ys);
    live = lives;
    old = λ p h. b.old p (omega (arith, a.next)) ∙ a.old p h;
    others = λ r h. b.others r h ∙ a.others r h;
    loop = b.loop ∙ a.loop;
  }
    where
      lives : (k : ℕ) → k < length (xs ++ ys) → w.heap (u.next + k) ≡ some quit_token
      lives k h = elim (dec_lt k (length xs)) [
        | yes below ↦ b.old (u.next + k) (omega (arith, a.next)) ∙ a.live k below
        | no above ↦
            subst (λ p. w.heap p ≡ some quit_token) (omega (arith, a.next))
              (b.live (k - length xs) (omega (arith, length-append xs ys)))
      ]

  pub notify_workers_to_stop-Notified :
      (fds : List ℕ) (w : World)
      → ((k : ℕ) → k < length fds → lib.sqe_free (length (w.ring this).waiting + k) ≡ true)
      → Ends (λ _. Notified fds w) (notify_workers_to_stop lib this fds w)
  unfolding notify_workers_to_stop alloc
  notify_workers_to_stop-Notified [] w room = record {
    entries = sym (append-nil _);
    submitted = refl;
    next = omega arith;
    live = λ k h. absurd (omega arith);
    old = λ p h. refl;
    others = λ r h. refl;
    loop = refl;
  }
  notify_workers_to_stop-Notified (fd ∷ fds) w room =
      rw
        (put_sqe-ok lib this (stop_entry fd w.next) (allocated quit_token w)
          (subst (λ n. lib.sqe_free n ≡ true) (omega arith) (room 0 (omega arith))))
        (Ends-mono (λ _. Notified fds (told fd w)) (λ _. Notified (fd ∷ fds) w) _
          (notify_workers_to_stop-Notified fds (told fd w) λ k h.
            subst (λ n. lib.sqe_free n ≡ true)
              (omega
                (arith, with_sqe_length lib this (stop_entry fd w.next) (allocated quit_token w)))
              (room (suc k) (omega arith)))
          λ _ w' b. Notified-append (fd ∷ []) fds w (told fd w) w' (told-Notified fd w) b)

  -- The ring's own entry is one more of the same kind.
  pub notify_self_quit-Notified :
      (w : World)
      → lib.sqe_free (length (w.ring this).waiting) ≡ true
      → Ends (λ _. Notified (this ∷ []) w) (notify_self_quit lib this w)
  unfolding notify_self_quit alloc
  notify_self_quit-Notified w room =
      rw (put_sqe-ok lib this (stop_entry this w.next) (allocated quit_token w) room)
        (told-Notified this w)
