-- ===== src/Context/Flight/Once.antt =====
-- A message is handled once, and its memory is freed once.
use co_net.Base.{ℕ, ◌<◌, ◌≡◌, ◌≢◌, ◌∙◌, ap, sym, subst, false, none, some, arith, inr}
use co_net.Io.Token.{Cell}
use co_net.Io.Sqe.{Cqe}
use co_net.Io.World.{World, Platform, ok}
use co_net.Io.World.Later.{Later, Later-refl, Later-trans}
use co_net.Io.World.Keeps.{After, at}
use co_net.Io.Handler.{handle_request}
use co_net.Io.Handler.Kept.{Keeps-handle_request}
use co_net.Io.Handler.Freed.{awaited, Gone, handle_request-Gone}
use co_net.Io.Tickets.{Apart, Ticket, Each}
use co_net.Context.Process.{call}
use co_net.Context.Process.Steps.{Step-Later}
use co_net.Context.Flight.{System, Handling, Step, sends, handles, accepts, Reaches, here, next}
use co_net.Context.Flight.Due.{Due, Each-remove, Apart-remove}
use co_net.Context.Flight.Safe.{IsFlying, handles-Grown, Step-avoids, Reaches-IsFlying}

module _ (lib : Platform) where
  handles-Later :
      (this : ℕ) (cqe : Cqe) (w v : World) → handle_request lib this cqe w ≡ ok tt v → Later w v
  handles-Later this cqe w v e =
      subst (After (Later w)) e
        (at (Keeps-handle_request lib this cqe (inr (omega arith))) w (omega arith))

  moves-Later : (s s' : System) → Step lib s s' → Later s.world s'.world
  moves-Later s s' (sends c h e r new i flight armed) = Step-Later lib (call c e)
  moves-Later s s' (handles t h) = handles-Later t.ring h.cqe s.world s'.world h.runs
  moves-Later s s' (accepts on cqe c e r new i flight armed) =
      handles-Later lib.sys cqe s.world s'.world e

  Reaches-Later : {s s' : System} → Reaches lib s s' → Later s.world s'.world
  Reaches-Later {s} here = Later-refl s.world
  Reaches-Later {s} {s'} (next {u} run step) =
      Later-trans s.world u.world s'.world (Reaches-Later run) (moves-Later u s' step)

  Reaches-avoids :
      {s s' : System} (p : ℕ)
      → IsFlying lib s
      → p < s.world.next
      → Each (λ t. t.address ≢ p) s.flight
      → Reaches lib s s'
      → (p < s'.world.next) × Each (λ t. t.address ≢ p) s'.flight
  Reaches-avoids p f below a here = (below, a)
  Reaches-avoids p f below a (next {u} {v} run step) =
      let (old, rest) = Reaches-avoids p f below a run in
      Step-avoids lib u v p step (Reaches-IsFlying lib f run) old rest

  -- In a system as `IsFlying` says, where a completion to come is handled and anything runs after
  -- that without failing (calls that handle no completion, with awaits of the program's operations,
  -- and completions one by one): no completion with its address is to come again.
  pub handled-once :
      (s s' u : System) (t : Ticket)
      → IsFlying lib s
      → Handling lib t s s'
      → Reaches lib s' u
      → Each (λ x. x.address ≢ t.address) u.flight
  handled-once s s' u t f h run =
      let g = handles-Grown lib s s' t h f in
      let (d, due) =
        Each-remove (Due lib s.world) h.before t h.after
          (subst (Each (Due lib s.world)) h.among f.due) in
      let (others, apart) = Apart-remove h.before t h.after (subst Apart h.among f.apart) in
      (Reaches-avoids t.address g.flying (omega (arith, d.sound.below, g.next))
        (g.avoids t.address d.sound.below others) run).1

  -- In the same situation, where a message lies at the completion's address (a task, a function
  -- with or without a descriptor, or a token whose handler resumes no task): nothing lies there
  -- afterwards, whatever runs.
  pub freed-once :
      (s s' u : System) (t : Ticket) {c : Cell}
      → IsFlying lib s
      → Handling lib t s s'
      → s.world.heap t.address ≡ some c
      → awaited c ≡ false
      → Reaches lib s' u
      → u.world.heap t.address ≡ none
  freed-once s s' u t f h live message run =
      let (d, due) =
        Each-remove (Due lib s.world) h.before t h.after
          (subst (Each (Due lib s.world)) h.among f.due) in
      let freed : Gone h.cqe.user_data s'.world = subst (After (Gone h.cqe.user_data)) h.runs (
        handle_request-Gone lib t.ring h.cqe s.world (d.sound.reads h.cqe h.answers)
          (omega (arith, h.answers.at, d.sound.below)) (ap s.world.heap h.answers.at ∙ live)
          message) in
      (Reaches-Later run).gone t.address
        (omega (arith, d.sound.below, (handles-Later t.ring h.cqe s.world s'.world h.runs).next))
        (ap s'.world.heap (sym h.answers.at) ∙ freed)
