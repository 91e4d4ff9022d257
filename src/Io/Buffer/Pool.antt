-- ===== src/Io/Buffer/Pool.antt =====
-- What the kernel has of the buffers: a pool of slices of the array, whatever the calls of liburing
-- that tell it so.
pub mod Receives
use co_net.Base.{
  ℕ, zero, suc, ◌+◌, ◌*◌, ◌≡◌, refl, sym, ap, subst, ◌∙◌, List, [], ◌∷◌, ◌++◌, Option, none, some,
  ◌==◌, ==_self, if◌then◌else◌, length, length-append, append_assoc, append-nil, arith, Bool, true,
  false, Bool-cases, Option-cases, ◌⊎◌, inl, inr,
}
use co_net.Base.Int.{ℤ, pos, negsuc, ◌==ℤ◌}
use co_net.Net.Connection.{TcpConnection}
use co_net.Io.Await.{Result, returned, thrown, enobufs, prep_recv_in_ring_buf}
use co_net.Io.Buffer.Slices.{extend_buffer-Extended}
use co_net.Io.Buffer.{
  BufCall, setup, add, advance, free, Kernel, RingBuffer, Arrival, Receive, received, failed,
  undefined, ring_buf_receive, take_data, copy_data, buffer_id, buffer_ring_size, n_buffers, adds,
  extend_buffer, call, release, repay,
}

-- A buffer that the kernel may fill: its number, where it starts, and its size.
pub record Slice : Type 0 where
  pub bid : ℕ
  pub offset : ℕ
  pub size : ℕ

-- `added` are the buffers since the last advance.
pub record Pool : Type 0 where
  pub offered : List Slice
  pub added : List Slice

abbrev pub no_buffers : Pool
no_buffers = record { offered = []; added = [] }

-- Buffers are added to the slots that follow one another and then advanced all at once; `none` is
-- another use of the ring.
abbrev react : BufCall → Pool → Option Pool
react (setup n) p = some no_buffers
react (free n) p = some no_buffers
react (add offset size bid mask slot) p =
    if slot == length p.added
    then some
        (record p { added = p.added ++ record { bid = bid; offset = offset; size = size } ∷ [] })
    else none
react (advance n) p =
    if n == length p.added
    then some (record { offered = p.offered ++ p.added; added = [] })
    else none

abbrev and_react : (Pool → Option Pool) → Option Pool → Option Pool
and_react k none = none
and_react k (some p) = k p

abbrev pub replay : List BufCall → Pool → Option Pool
replay [] p = some p
replay (c ∷ cs) p = and_react (replay cs) (react c p)

-- The buffer `i` of the array, and `n` buffers from `i` on.
abbrev pub slice_of : ℕ → Slice
slice_of i = record { bid = i; offset = i * buffer_ring_size; size = buffer_ring_size }

abbrev pub slices : ℕ → ℕ → List Slice
slices i zero = []
slices i (suc n) = slice_of i ∷ slices (suc i) n

-- The kernel has been told of the buffers `p`, in this order.
abbrev pub Offers : RingBuffer → List Slice → Type 0
Offers b p = replay b.calls no_buffers ≡ some (record { offered = p; added = [] })

length-slices : (i n : ℕ) → length (slices i n) ≡ n
length-slices i zero = refl
length-slices i (suc n) = ap suc (length-slices (suc i) n)

replay-append :
    (cs ds : List BufCall) (p q : Pool) → replay cs p ≡ some q → replay (cs ++ ds) p ≡ replay ds q
replay-append [] ds p q h = ap (λ (o : Option Pool). and_react (replay ds) o) h
replay-append (c ∷ cs) ds p q h = go (replay-append cs ds) (react c p) h
  where
    go :
        ((p q : Pool) → replay cs p ≡ some q → replay (cs ++ ds) p ≡ replay ds q)
        → (o : Option Pool) → and_react (replay cs) o ≡ some q
        → and_react (replay (cs ++ ds)) o ≡ replay ds q
    go rest none k = cc
    go rest (some r) k = rest r q k

react-add :
    (mask : ℤ) (i slot : ℕ) (p : Pool)
    → length p.added ≡ slot
    → react (add (i * buffer_ring_size) buffer_ring_size i mask slot) p
      ≡ some (record p { added = p.added ++ slice_of i ∷ [] })
react-add mask i slot p h = rw (h, ==_self slot) refl

replay-adds :
    (mask : ℤ) (i n : ℕ) (p : Pool)
    → length p.added ≡ i
    → replay (adds mask i n) p ≡ some (record p { added = p.added ++ slices i n })
unfolding adds
replay-adds mask i zero p h =
    ap (λ (l : List Slice). some (record p { added = l })) (sym (append-nil _))
replay-adds mask i (suc n) p h =
    ap (and_react (replay (adds mask (suc i) n))) (react-add mask i i p h)
    ∙ replay-adds mask (suc i) n (record p { added = p.added ++ slice_of i ∷ [] })
        (length-append p.added (slice_of i ∷ []) ∙ omega (arith, h))
    ∙ ap (λ (l : List Slice). some (record p { added = l }))
        (append_assoc p.added (slice_of i ∷ []) (slices (suc i) n))

-- What an extension tells the kernel when it sets a ring up.
abbrev set_up_calls : ℤ → ℕ → List BufCall
set_up_calls mask n = setup n ∷ adds mask 0 n ++ advance n ∷ []

replay-setup :
    (mask : ℤ) (n : ℕ) (p : Pool)
    → replay (set_up_calls mask n) p ≡ some (record { offered = slices 0 n; added = [] })
replay-setup mask n p =
    replay-append (adds mask 0 n) (advance n ∷ []) no_buffers
      (record { offered = []; added = slices 0 n }) (replay-adds mask 0 n no_buffers refl)
    ∙ rw (length-slices 0 n, ==_self n) refl

replay-repay :
    (mask : ℤ) (bid : ℕ) (p : List Slice)
    → replay
        (add (bid * buffer_ring_size) buffer_ring_size bid mask 0 ∷ advance 1 ∷ [])
        (record { offered = p; added = [] })
      ≡ some (record { offered = p ++ slice_of bid ∷ []; added = [] })
replay-repay mask bid p = refl

pub repay-Offers :
    (b : RingBuffer) (p : List Slice) (bid : ℕ)
    → Offers b p
    → Offers (repay bid b) (p ++ slice_of bid ∷ [])
unfolding repay call
repay-Offers b p bid h =
    replay-append b.calls _ no_buffers (record { offered = p; added = [] }) h
    ∙ replay-repay b.br_mask bid p

-- The ring after the call of `release`, if it is made.
abbrev released : RingBuffer → RingBuffer
released b = if b.buf_count == 0 then b else release b

release-replay :
    (b : RingBuffer) (p : List Slice)
    → Offers b p
    → (q : Pool) × (replay (release b).calls no_buffers ≡ some q)
unfolding release call
release-replay b p h = elim (Bool-cases b.br) [
  | inl linked ↦ (
    no_buffers,
    rw (linked, release)
        (replay-append b.calls _ no_buffers (record { offered = p; added = [] }) h),
  )
  | inr not_linked ↦ (record { offered = p; added = [] }, rw (not_linked, release) h)
]

released-replay :
    (b : RingBuffer) (p : List Slice)
    → Offers b p
    → (q : Pool) × (replay (released b).calls no_buffers ≡ some q)
released-replay b p h = go (b.buf_count == 0)
  where
    go :
        (first : Bool)
        → (q : Pool) × (replay (if first then b else release b).calls no_buffers ≡ some q)
    go true = (record { offered = p; added = [] }, h)
    go false = release-replay b p h

released-count : (b : RingBuffer) → (released b).buf_count ≡ b.buf_count
unfolding release
released-count b = ground arith

abbrev entries : RingBuffer → ℕ
entries b = n_buffers * ((released b).buf_count + 1)

if_some : (c : Bool) (x y : RingBuffer) → (if c then some x else none) ≡ some y → y.calls ≡ x.calls
if_some true x y h = ground (arith, h)
if_some false x y h = cc

extend_buffer-calls :
    (kernel : Kernel) (b b' : RingBuffer)
    → extend_buffer kernel b ≡ some b'
    → b'.calls ≡ (released b).calls ++ set_up_calls (kernel.mask (entries b)) (entries b)
unfolding extend_buffer call
extend_buffer-calls kernel b b' e =
    if_some (kernel.sets_up (entries b)) _ b' e
    ∙ append_assoc (released b).calls (setup (entries b) ∷ []) _

extend_buffer-entries :
    (kernel : Kernel) (b b' : RingBuffer) (p : List Slice)
    → Offers b p
    → extend_buffer kernel b ≡ some b'
    → Offers b' (slices 0 (entries b))
extend_buffer-entries kernel b b' p h e =
    let (q, before) = released-replay b p h in
    let set_up = set_up_calls (kernel.mask (entries b)) (entries b) in
    ap (λ (l : List BufCall). replay l no_buffers) (extend_buffer-calls kernel b b' e)
    ∙ replay-append (released b).calls set_up no_buffers q before
    ∙ replay-setup (kernel.mask (entries b)) (entries b) q

pub extend_buffer-Offers :
    (kernel : Kernel) (b b' : RingBuffer) (p : List Slice)
    → Offers b p
    → extend_buffer kernel b ≡ some b'
    → Offers b' (slices 0 (n_buffers * (b.buf_count + 1)))
extend_buffer-Offers kernel b b' p h e =
    subst (λ (k : ℕ). Offers b' (slices 0 (n_buffers * (k + 1)))) (released-count b)
      (extend_buffer-entries kernel b b' p h e)

-- The pool after `k` extensions of a ring with `count` rounds, and the kernel's pool `p` before.
abbrev pub extended : ℕ → ℕ → List Slice → List Slice
extended count zero p = p
extended count (suc k) p = slices 0 (n_buffers * (count + suc k))
