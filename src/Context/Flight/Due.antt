-- ===== src/Context/Flight/Due.antt =====
-- The completions to come, as a step changes them.
use co_net.Base.{ℕ, ◌<◌, ◌≡◌, ◌≢◌, ◌∙◌, sym, subst, List, [], ◌∷◌, ◌++◌, append-nil, arith}
use mathlib.Core.List.{append_cancel_left}
use native.Mathlib.Decide.{ℕ_discrete}
use co_net.Io.World.{World, Platform}
use co_net.Io.World.Later.{LaterBut}
use co_net.Io.Tickets.{Ticket, issued, Each, Apart, Sound, Each-append, Each-mono, Apart-append}
use co_net.Io.Tickets.Posts.{Issued, Posts, Sound-Later}

-- What has been sent is determined by the rings.
pub Issued-unique :
    (r q : ℕ) (xs ys : List Ticket) (w v : World) → Issued r xs w v → Issued q ys w v → xs ≡ ys
Issued-unique r q xs ys w v a b = elim (ℕ_discrete r q) [
  | yes e ↦
      append_cancel_left (issued r (w.ring r)) xs ys
        (sym a.here ∙ (subst (λ k. Issued k ys w v) (sym e) b).here)
  | no ne ↦ none_ r xs a.here (b.there r ne) ∙ sym (none_ q ys b.here (a.there q λ e. ne (sym e)))
]
  where
    none_ :
        (k : ℕ) (zs : List Ticket)
        → issued k (v.ring k) ≡ issued k (w.ring k) ++ zs
        → issued k (v.ring k) ≡ issued k (w.ring k)
        → zs ≡ []
    none_ k zs h same =
        append_cancel_left (issued k (w.ring k)) zs [] (sym h ∙ same ∙ sym (append-nil _))

-- A completion to come whose memory is not the static token's.
pub record Due (lib : Platform) (w : World) (t : Ticket) : Type 0 where
  pub other : t.address ≢ lib.multishot_token
  pub sound : Sound 1 w t

module _ (lib : Platform) where
  -- A completion to come keeps its memory where another address is written.
  Due-Later :
      {o : ℕ} (w v : World) (t : Ticket)
      → LaterBut o w.next w v
      → t.address ≢ o
      → Due lib w t
      → Due lib v t
  Due-Later w v t l ne d = record {
    other = d.other;
    sound = Sound-Later 1 1 w v t l ne d.sound.below (omega arith) d.sound;
  }

  Posts-Due :
      {o r : ℕ} (w v : World)
      → lib.multishot_token < w.next
      → (p : Posts o r w v) → Each (Due lib v) p.new
  Posts-Due w v static p =
      Each-mono (Sound w.next v) (Due lib v) p.new
        (λ t h. record {
          other = λ e. absurd (omega (arith, e, h.above, static));
          sound = record {
            above = omega (arith, h.above, static);
            below = h.below;
            reads = h.reads;
          };
        })
        p.sound

  -- What is left of the completions to come, and those that a step adds.
  module _ {o r : ℕ} (w v : World) (kept : List Ticket) (p : Posts o r w v)
      (static : lib.multishot_token < w.next) (apart : Apart kept) (due : Each (Due lib w) kept)
      (apart_from : Each (λ t. t.address ≢ o) kept) where
    pub grown-Due : Each (Due lib v) (kept ++ p.new)
    grown-Due =
        Each-append (Due lib v) kept p.new (both kept due apart_from) (Posts-Due w v static p)
      where
        both :
            (ts : List Ticket)
            → Each (Due lib w) ts
            → Each (λ t. t.address ≢ o) ts
            → Each (Due lib v) ts
        both [] d n = tt
        both (t ∷ ts) d n = (Due-Later w v t p.later n.0 d.0, both ts d.1 n.1)

    pub grown-Apart : Apart (kept ++ p.new)
    grown-Apart =
        Apart-append w.next kept p.new (Each-mono (Due lib w) _ kept (λ t d. d.sound.below) due)
          (Each-mono (Sound w.next v) _ p.new (λ t h. h.above) p.sound) apart p.apart

pub Each-remove :
    (P : Ticket → Type 0) (before : List Ticket) (t : Ticket) (after : List Ticket)
    → Each P (before ++ t ∷ after)
    → P t × Each P (before ++ after)
Each-remove P [] t after h = h
Each-remove P (x ∷ before) t after h =
    let (p, rest) = Each-remove P before t after h.1 in (p, (h.0, rest))

-- Without one, the others are still apart, and apart from it.
pub Apart-remove :
    (before : List Ticket) (t : Ticket) (after : List Ticket)
    → Apart (before ++ t ∷ after)
    → Each (λ u. u.address ≢ t.address) (before ++ after) × Apart (before ++ after)
Apart-remove [] t after h = h
Apart-remove (x ∷ before) t after h =
    let (others, rest) = Apart-remove before t after h.1 in
    let (ne, from) = Each-remove (λ u. u.address ≢ x.address) before t after h.0 in
    ((λ e. ne (sym e), others), (from, rest))
