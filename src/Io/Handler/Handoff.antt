-- ===== src/Io/Handler/Handoff.antt =====
-- A connection arrives on a worker's ring: first its new descriptor, then the function that runs it.
use co_net.Base.{
  ==_self, ◌<◌, ℕ, zero, suc, ◌≡◌, refl, sym, subst, ◌∙◌, ◌≢◌, true, false, none, some, [], ◌∷◌,
  ◌++◌, arith, length,
}
use co_net.Base.Int.{ℤ, minus_one, ==ℤ_self}
use co_net.Net.Connection.{connection, move, set_subring_socket}
use co_net.Async.Scheduled.{ScheduledTask, schedule}
use co_net.Io.Token.{new_token, Op, Coro, on_connection, token, conn_msg, ring_func_task, to_int}
use co_net.Io.Sqe.{Cqe, has_task}
use co_net.Io.World.{World, Platform, Ends, ok, update}
use co_net.Io.Ring.{destroy, enqueue}
use co_net.Io.Ring.Steps.{
  load-ok, free-ok, with_sqe, flushed, posted, posted-flush, release_sqe, release_token, allocated,
  notify_main_ring_release_fd-ok,
}
use co_net.Io.Handler.Dispatch.{handle_request-switch, handle_request-msg_conn}
use co_net.Io.Handler.{
  handle_all, switch, IntMap, find, assign, erase, index, destroy_each, impl_handle_msg_conn,
  handle_request,
}

find-assign : (k : ℤ) (v : ℤ) (m : IntMap) → find k (assign k v m) ≡ some v
unfolding find assign
find-assign k v [] = rw (==ℤ_self k)
find-assign k v ((j, u) ∷ m) = ground (arith, ==ℤ_self k, find-assign k v m)

erase-assign : (k : ℤ) (v : ℤ) (m : IntMap) → find k m ≡ none → erase k (assign k v m) ≡ m
unfolding find assign erase
erase-assign k v [] h = rw (==ℤ_self k)
erase-assign k v ((j, u) ∷ m) h = ground (arith, ==ℤ_self k, erase-assign k v m)

index-found : (k v : ℤ) (m : IntMap) → find k m ≡ some v → index k m ≡ (v, m)
unfolding index
index-found k v m h = rw (h, index)

module _ (lib : Platform) where
  -- A connection that a worker's connection was moved from owns nothing.
  destroy_each-worker :
      (local n : ℕ) (fd : ℤ) (w : World)
      → destroy_each lib local n (move (set_subring_socket fd (connection minus_one))).1 w ≡ ok tt w
  unfolding destroy_each destroy move set_subring_socket connection
  destroy_each-worker local zero fd w = refl
  destroy_each-worker local (suc n) fd w = destroy_each-worker local n fd w

  module _ (this : ℕ) (cqe : Cqe) (w : World) (f : ℕ) (sys_fd fd : ℤ)
      (live : w.heap cqe.user_data ≡ some (conn_msg (some f) sys_fd))
      (mapped : find sys_fd (w.ring this).direct_map ≡ some fd)
      (room : lib.sqe_free (length (w.ring this).waiting) ≡ true) where
    abbrev pub without_fd : World
    without_fd = record w {
      heap = update w.heap cqe.user_data none;
      ring =
          update w.ring this
            (record (w.ring this) { direct_map = erase sys_fd (w.ring this).direct_map });
    }

    abbrev pub started : ScheduledTask Coro
    started = schedule (on_connection f (set_subring_socket fd (connection minus_one)))

    abbrev pub queued : World
    queued = record without_fd {
      ring =
          update without_fd.ring this (record (without_fd.ring this) {
            tasks = (without_fd.ring this).tasks ++ started ∷ [];
          });
    }

    abbrev pub handed_over : World
    handed_over =
        flushed lib this this
          (with_sqe lib this (release_sqe lib.sys sys_fd w.next) (allocated release_token queued))

    room_queued : lib.sqe_free (length (queued.ring this).waiting) ≡ true
    room_queued = rw (==_self this) room

    pub impl_handle_msg_conn-ok : impl_handle_msg_conn lib this cqe w ≡ ok tt handed_over
    unfolding impl_handle_msg_conn move enqueue destroy set_subring_socket
    impl_handle_msg_conn-ok = rw (load-ok w cqe.user_data live) (
        rw (free-ok w cqe.user_data live) (
          rw (index-found sys_fd fd (w.ring this).direct_map mapped) (
            rw (destroy_each-worker this lib.call_moves fd without_fd)
              (rw (notify_main_ring_release_fd-ok lib this sys_fd queued room_queued) refl))))

-- The fields of a world in which `this` has taken over a connection, as `fd`, to run it by `f`.
pub record Taken (lib : Platform) (this f : ℕ) (sys_fd fd : ℤ) (c₁ c₂ : Cqe) (w w' : World)
    : Type 0 where
  pub task :
      (w'.ring this).tasks
      ≡ (w.ring this).tasks
        ++ schedule (on_connection f (set_subring_socket fd (connection minus_one))) ∷ []
  pub receiver_freed : w'.heap c₁.user_data ≡ none
  pub helper_freed : w'.heap c₂.user_data ≡ none
  pub map_restored : (w'.ring this).direct_map ≡ (w.ring this).direct_map
  pub main_told :
      posted (w'.ring this) ≡ posted (w.ring this) ++ release_sqe lib.sys sys_fd w.next ∷ []
  pub told_token : w'.heap w.next ≡ some release_token
  pub other_rings : (r : ℕ) → r ≢ this → w'.ring r ≡ w.ring r
  pub other_cells :
      (p : ℕ) → p ≢ c₁.user_data → p ≢ c₂.user_data → p ≢ w.next → w'.heap p ≡ w.heap p

-- A completion that carries the descriptor which the receiving ring has given a connection.
pub record IsFdMessage (w : World) (sys_fd fd : ℤ) (c : Cqe) : Type 0 where
  pub not_null : c.user_data ≢ 0
  pub receiver :
      w.heap c.user_data
      ≡ some (token (record new_token { op = Op.ring_fd_receiver; cqe_res = sys_fd }))
  pub res : c.res ≡ fd
  pub unmarked : has_task c.flags ≡ false

-- A completion that carries the function for a connection.
pub record IsFuncMessage (w : World) (sys_fd : ℤ) (f : ℕ) (c : Cqe) : Type 0 where
  pub helper : w.heap c.user_data ≡ some (conn_msg (some f) sys_fd)
  pub res : c.res ≡ to_int ring_func_task
  pub marked : has_task c.flags ≡ true

module _ (lib : Platform) (this f : ℕ) (sys_fd fd : ℤ) (c₁ c₂ : Cqe) (w : World) where
  abbrev with_fd : World
  with_fd = record w {
    ring =
        update w.ring this
          (record (w.ring this) { direct_map = assign sys_fd c₁.res (w.ring this).direct_map });
  }

  abbrev mapped : World
  mapped = record with_fd { heap = update w.heap c₁.user_data none }

  handle_request-receiver : IsFdMessage w sys_fd fd c₁ → handle_request lib this c₁ w ≡ ok tt mapped
  unfolding switch
  handle_request-receiver m =
      handle_request-switch lib this c₁ w
        (record new_token { op = Op.ring_fd_receiver; cqe_res = sys_fd }) m.unmarked m.receiver
        m.not_null
      ∙ free-ok with_fd c₁.user_data m.receiver

  module _ (m₁ : IsFdMessage w sys_fd fd c₁) (m₂ : IsFuncMessage w sys_fd f c₂)
      (apart : c₁.user_data ≢ c₂.user_data) (old₁ : c₁.user_data < w.next)
      (old₂ : c₂.user_data < w.next) (unused : find sys_fd (w.ring this).direct_map ≡ none)
      (room : lib.sqe_free (length (w.ring this).waiting) ≡ true) where
    helper_live : mapped.heap c₂.user_data ≡ some (conn_msg (some f) sys_fd)
    helper_live = ground (arith, m₂.helper)

    fd_found : find sys_fd (mapped.ring this).direct_map ≡ some fd
    fd_found = rw (==_self this, m₁.res) (find-assign sys_fd fd (w.ring this).direct_map)

    mapped_room : lib.sqe_free (length (mapped.ring this).waiting) ≡ true
    mapped_room = rw (==_self this) room

    abbrev final : World
    final = handed_over lib this c₂ mapped f sys_fd fd helper_live fd_found mapped_room

    handle_all-final : handle_all lib this (c₁ ∷ c₂ ∷ []) w ≡ ok tt final
    unfolding handle_all
    handle_all-final =
        rw
          (
            handle_request-receiver m₁,
            handle_request-msg_conn lib this c₂ m₂.marked m₂.res mapped,
            impl_handle_msg_conn-ok lib this c₂ mapped f sys_fd fd helper_live fd_found mapped_room,
          )
          refl

    -- A live message with a descriptor and then a live message with its function, at two addresses
    -- below the next free one, handled on a ring whose map has no entry for the descriptor and
    -- which has room for one more entry: nothing fails, the function's task on the new descriptor
    -- is the last of the ring's loop, both messages are freed, the map is as before, the ring was
    -- handed the request that the main ring release the descriptor, whose token is live, and no
    -- other ring and no other memory has changed.
    pub handle_all-Taken :
        Ends (λ _. Taken lib this f sys_fd fd c₁ c₂ w) (handle_all lib this (c₁ ∷ c₂ ∷ []) w)
    handle_all-Taken =
        subst (Ends λ _. Taken lib this f sys_fd fd c₁ c₂ w) (sym handle_all-final) (record {
          task = rw (==_self this) refl;
          receiver_freed = ground arith;
          helper_freed = ground arith;
          map_restored =
              rw (==_self this) (erase-assign sys_fd c₁.res (w.ring this).direct_map unused);
          main_told = rw (==_self this) (
              posted-flush
                (lib.accepted this this
                  (length ((w.ring this).waiting ++ release_sqe lib.sys sys_fd w.next ∷ [])))
                (w.ring this).submitted (w.ring this).waiting (release_sqe lib.sys sys_fd w.next));
          told_token = ground arith;
          other_rings = ground arith;
          other_cells = ground arith;
        })
