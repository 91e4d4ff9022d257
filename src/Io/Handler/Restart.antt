-- ===== src/Io/Handler/Restart.antt =====
-- Two messages of a multishot accept on one worker.
use co_net.Base.{
  ◌<◌, ◌≤◌, ◌+◌, ◌*◌, suc, arith, length-append, ℕ, ◌≡◌, ◌≢◌, refl, sym, ap, ◌∙◌, true, false,
  Option, none, some, [], ◌∷◌, ◌++◌, map, length, ==_self, ==_ne,
}
use co_net.Base.Int.{pos}
use co_net.Io.Token.{token, new_token, Op, Cell, macc_msg, multi_acc_task, to_int}
use co_net.Io.Sqe.{Cqe, has_task}
use co_net.Io.World.{World, Platform, Ends, Ends-and_then, ok, update, update_ne}
use co_net.Io.Ring.Steps.{free-ok}
use co_net.Io.Handler.Dispatch.{handle_request-switch}
use co_net.Io.Handler.{handle_all, switch, push_awaiting, handle_request}
use co_net.Io.Handler.Macc.{serves, Started, handle_request-Started}

module _ (lib : Platform) (cap : ℕ) (free : (n : ℕ) → n < cap → lib.sqe_free n ≡ true) where
  module _ (this : ℕ) (other : this ≢ lib.sys) where
    abbrev received : ℕ → Cqe → World → World
    received n r w = record w {
      heap = update w.heap r.user_data none;
      ring = update w.ring this (record (w.ring this) {
        awaiting_direct_fd = (w.ring this).awaiting_direct_fd ++ pos n ∷ [];
      });
    }

    handle_request-received :
        (n : ℕ) (r : Cqe) (w : World)
        → has_task r.flags ≡ false
        → r.res ≡ pos n
        → r.user_data ≢ 0
        → w.heap r.user_data
          ≡ some (token (record new_token { op = Op.multishot_accept_fd_receiver }))
        → handle_request lib this r w ≡ ok tt (received n r w)
    unfolding switch push_awaiting
    handle_request-received n r w plain res not_null live =
        handle_request-switch lib this r w
          (record new_token { op = Op.multishot_accept_fd_receiver }) plain live not_null
        ∙ rw (res, push_awaiting) (free-ok _ r.user_data live)

    -- Two live messages with functions at two addresses, and between them the message with a
    -- descriptor, at a third that is not null and not marked as a task, on a ring that is not the
    -- main one, where the main ring, of `cap` entries, has room for every request to close that the
    -- handling makes, whatever the submissions take. Nothing fails, and the second message starts a
    -- task for every descriptor for which the first has already started one, and one for the new
    -- descriptor.
    pub handle_all-restarted :
        (f g n : ℕ) (m₁ r m₂ : Cqe) (op₁ op₂ : Op) (w : World)
        → (has_task m₁.flags ≡ true) × (m₁.res ≡ to_int multi_acc_task)
        → (has_task r.flags ≡ false) × (r.res ≡ pos n) × (r.user_data ≢ 0)
        → (has_task m₂.flags ≡ true) × (m₂.res ≡ to_int multi_acc_task)
        → (r.user_data ≢ m₁.user_data)
          × (m₂.user_data ≢ m₁.user_data)
          × (m₂.user_data ≢ r.user_data)
        → w.heap m₁.user_data ≡ some (macc_msg op₁ (some f))
        → w.heap r.user_data
          ≡ some (token (record new_token { op = Op.multishot_accept_fd_receiver }))
        → w.heap m₂.user_data ≡ some (macc_msg op₂ (some g))
        → length (w.ring lib.sys).waiting
            + length (w.ring this).awaiting_direct_fd * suc lib.call_moves
            + suc (length (w.ring this).awaiting_direct_fd) * suc lib.call_moves
          ≤ cap
        → Ends
            (λ _ w'.
              (w'.ring this).tasks
              ≡ ((w.ring this).tasks ++ map (serves f) (w.ring this).awaiting_direct_fd)
                ++ map (serves g) ((w.ring this).awaiting_direct_fd ++ pos n ∷ []))
            (handle_all lib this (m₁ ∷ r ∷ m₂ ∷ []) w)
    unfolding handle_all
    handle_all-restarted f g n m₁ r m₂ op₁ op₂ w one two three apart live₁ live live₂ room =
        Ends-and_then
          (λ _.
            Started lib cap free this f other (w.ring this).awaiting_direct_fd
              (record w { heap = update w.heap m₁.user_data none }))
          _ (handle_request lib this m₁ w) _
          (handle_request-Started lib cap free this f other m₁ op₁ w one.0 one.1 live₁
            (omega (arith, room)))
          λ _ w₁ a.
            rw
              (handle_request-received n r w₁ two.0 two.1 two.2
                (still r.user_data w₁ a.heap apart.0 live))
              (Ends-and_then
                (λ _.
                  Started lib cap free this g other ((received n r w₁).ring this).awaiting_direct_fd
                    (record (received n r w₁) {
                      heap = update (received n r w₁).heap m₂.user_data none;
                    }))
                _ (handle_request lib this m₂ (received n r w₁)) _
                (handle_request-Started lib cap free this g other m₂ op₂ (received n r w₁) three.0
                  three.1
                  (update_ne w₁.heap r.user_data m₂.user_data none apart.2
                    ∙ still m₂.user_data w₁ a.heap apart.1 live₂)
                  (rw (==_ne lib.sys this (λ h. other (sym h)), ==_self this)
                    (omega (arith, room, a.room_left, more w₁ a.still_awaiting))))
                λ _ w₂ b. b.tasks ∙ rw (==_self this) (rw (a.tasks, a.still_awaiting) refl))
      where
        -- The second message finds one descriptor more.
        more :
            (v : World)
            → (v.ring this).awaiting_direct_fd ≡ (w.ring this).awaiting_direct_fd
            → length ((v.ring this).awaiting_direct_fd ++ pos n ∷ []) * suc lib.call_moves
              ≡ suc (length (w.ring this).awaiting_direct_fd) * suc lib.call_moves
        more v e =
            ap (λ k. k * suc lib.call_moves)
              (length-append (v.ring this).awaiting_direct_fd (pos n ∷ [])
                ∙ omega (arith, ap length e))

        still :
            (p : ℕ) (v : World) {c : Option Cell}
            → v.heap ≡ update w.heap m₁.user_data none
            → p ≢ m₁.user_data
            → w.heap p ≡ c
            → v.heap p ≡ c
        still p v e h l =
            ap (λ (x : ℕ → Option Cell). x p) e ∙ update_ne w.heap m₁.user_data p none h ∙ l
