-- ===== src/Io/Buffer/Pool/Receives.antt =====
-- A receive takes one buffer from the kernel's pool and gives it back.
use co_net.Base.{
  true, false, not, ◌&&◌, ◌≢◌, ℕ, zero, suc, ◌+◌, ◌*◌, ◌≡◌, refl, sym, ap, subst, ◌∙◌, List, [],
  ◌∷◌, ◌++◌, Option, none, some, if◌then◌else◌, arith, Bool-cases, ◌⊎◌, inl, inr,
}
use co_net.Base.Int.{ℤ, pos, negsuc, is_neg, ◌==ℤ◌}
use co_net.Net.Connection.{TcpConnection}
use co_net.Io.Await.{Result, returned, thrown, enobufs, prep_recv_in_ring_buf}
use co_net.Io.Buffer.Slices.{extend_buffer-Extended}
use co_net.Io.Buffer.{
  Kernel, RingBuffer, Arrival, Receive, received, failed, undefined, ring_buf_receive, take_data,
  copy_data, buffer_id, n_buffers, extend_buffer, call, repay,
}
use co_net.Io.Buffer.Pool.{
  extended, Slice, slice_of, slices, Offers, repay-Offers, extend_buffer-Offers,
}

-- The completion that ends the loop: the first that is not short of buffers, with how many are before
-- it.
unfoldable pub answer : List Arrival → Option (ℕ × Arrival)
answer [] = none
answer (r ∷ rs) = let later = answer rs in if r.res ==ℤ enobufs then one_more later else some (0, r)
  where
    one_more : Option (ℕ × Arrival) → Option (ℕ × Arrival)
    one_more none = none
    one_more (some (k, a)) = some (suc k, a)

same_count : (bid : ℕ) (b : RingBuffer) → (repay bid b).buf_count ≡ b.buf_count + 0
unfolding repay call
same_count bid b = omega arith

take_data-repay :
    (res flag n : ℤ) (c c' : TcpConnection) (b b' : RingBuffer)
    → take_data res flag c b ≡ received n c' b'
    → (bid : ℕ) × (flag ≡ pos bid) × (res ≡ n) × (b' ≡ repay bid b)
unfolding take_data
take_data-repay (negsuc _) flag n c c' b b' h = cc
take_data-repay (pos n) (negsuc _) m c c' b b' h = cc
take_data-repay (pos n) (pos bid) m c c' b b' h =
    let (same, back) = taken (copy_data b [] (pos bid) n) h in (bid, refl, same, back)
  where
    taken :
        (o : Option (List ℕ))
        → (elim o as (λ _. Receive) [
          | none ↦ undefined
          | some bytes ↦ received (pos n) (record c { receive_buffer = bytes }) (repay bid b)
        ])
          ≡ received m c' b'
        → (pos n ≡ m) × (b' ≡ repay bid b)
    taken none k = cc
    taken (some bytes) k = (cc, cc)

prep_recv-cases :
    (res flags : ℤ)
    → (prep_recv_in_ring_buf (res, flags) ≡ thrown)
      ⊎ (prep_recv_in_ring_buf (res, flags) ≡ returned (res, flags))
unfolding prep_recv_in_ring_buf
prep_recv-cases res flags = elim (Bool-cases (is_neg res && not (res ==ℤ enobufs))) [
  | inl e ↦ inl (rw e refl)
  | inr e ↦ inr (rw e refl)
]

-- A completion that leads to a result: it is short of buffers, or its data are taken.
answered :
    (r : Arrival) (again n : Receive) (c : TcpConnection) (b : RingBuffer) {m : ℤ}
    {c' : TcpConnection} {b' : RingBuffer}
    → n ≡ received m c' b'
    → (elim (prep_recv_in_ring_buf (r.res, r.flags)) as (λ _. Receive) [
      | thrown ↦ failed
      | returned (res, flag) ↦ if res ==ℤ enobufs then again else take_data res (buffer_id flag) c b
    ])
      ≡ n
    → ((r.res ==ℤ enobufs ≡ true) × (again ≡ n))
      ⊎ ((r.res ==ℤ enobufs ≡ false) × (take_data r.res (buffer_id r.flags) c b ≡ n))
answered r again n c b {m} {c'} {b'} e h =
    go (prep_recv_in_ring_buf (r.res, r.flags)) (prep_recv-cases r.res r.flags) h
  where
    go :
        (x : Result (ℤ × ℤ))
        → (x ≡ thrown) ⊎ (x ≡ returned (r.res, r.flags))
        → (elim x as (λ _. Receive) [
          | thrown ↦ failed
          | returned (res, flag) ↦
              if res ==ℤ enobufs then again else take_data res (buffer_id flag) c b
        ])
          ≡ n
        → ((r.res ==ℤ enobufs ≡ true) × (again ≡ n))
          ⊎ ((r.res ==ℤ enobufs ≡ false) × (take_data r.res (buffer_id r.flags) c b ≡ n))
    go x (inl t) k = absurd (differ ((rw t at k) ∙ e))
      where
        differ : failed ≢ received m c' b'
        differ q = cc
    go x (inr t) k =
        let j = rw t at k in
        elim (Bool-cases (r.res ==ℤ enobufs)) [
          | inl short ↦ inl (short, rw short at j)
          | inr enough ↦ inr (enough, rw enough at j)
        ]

-- An extension that leads to a result has succeeded.
retried :
    (o : Option RingBuffer) (k : RingBuffer → Receive) {m : ℤ} {c' : TcpConnection}
    {b' : RingBuffer}
    → (elim o as (λ _. Receive) [ none ↦ failed | some b₁ ↦ k b₁ ]) ≡ received m c' b'
    → (b₁ : RingBuffer) × (o ≡ some b₁) × (k b₁ ≡ received m c' b')
retried none k h = cc
retried (some b₁) k h = (b₁, refl, h)

extended-suc :
    (count k : ℕ) (p : List Slice)
    → extended (count + 1) k (slices 0 (n_buffers * (count + 1))) ≡ extended count (suc k) p
extended-suc count zero p = refl
extended-suc count (suc k) p = ap (λ (n : ℕ). slices 0 (n_buffers * n)) (omega arith)

answer-short :
    (r a : Arrival) (rs : List Arrival) (k : ℕ)
    → r.res ==ℤ enobufs ≡ true
    → answer rs ≡ some (k, a)
    → answer (r ∷ rs) ≡ some (suc k, a)
unfolding answer
answer-short r a rs k short e = rw short (rw e refl)

answer-enough :
    (r : Arrival) (rs : List Arrival) → r.res ==ℤ enobufs ≡ false → answer (r ∷ rs) ≡ some (0, r)
unfolding answer
answer-enough r rs enough = rw enough refl

-- What a receive that ends with a result has done to the kernel's pool.
pub record Received (rs : List Arrival) (b b' : RingBuffer) (p : List Slice) (res : ℤ)
    : Type 0 where
  pub rounds : ℕ
  pub last : Arrival
  pub bid : ℕ
  pub ends : answer rs ≡ some (rounds, last)
  pub result : last.res ≡ res
  pub names : buffer_id last.flags ≡ pos bid
  pub count : b'.buf_count ≡ b.buf_count + rounds
  pub offers : Offers b' (extended b.buf_count rounds p ++ slice_of bid ∷ [])

-- The calls of liburing that a receive makes implement a pool of buffers: where the calls so far
-- have told the kernel of the buffers `p`, with nothing left to advance, and a receive ends with a
-- result, the completion that ends it is the first that is not short of buffers, its result is the
-- receive's, and the ring has been extended once for each one before it. The kernel has then been
-- told of `p`, or after extensions of all buffers of the larger ring, each once, under its number
-- and at its own place of the array, and at the end of one buffer more: the one that the upper half
-- of that completion's flags names, which is number 0 also when the flags name none, as at the end
-- of the stream, where the kernel has taken no buffer.
pub ring_buf_receive-Offers :
    (kernel : Kernel) (rs : List Arrival) (c c' : TcpConnection) (b b' : RingBuffer)
    (p : List Slice) (res : ℤ)
    → Offers b p
    → ring_buf_receive kernel rs c b ≡ received res c' b'
    → Received rs b b' p res
unfolding ring_buf_receive
ring_buf_receive-Offers kernel [] c c' b b' p res h e = cc
ring_buf_receive-Offers kernel (r ∷ rs) c c' b b' p res h e =
    let now : RingBuffer = record b { buffer = r.memory b.buffer } in
    elim (answered r _ _ c now refl e) [
      | inr (enough, e₁) ↦
          let (bid, named, same, back) =
            take_data-repay r.res (buffer_id r.flags) res c c' now b' e₁ in
          record {
            rounds = 0;
            last = r;
            bid = bid;
            ends = answer-enough r rs enough;
            result = same;
            names = named;
            count = ap (λ (x : RingBuffer). x.buf_count) back ∙ same_count bid now;
            offers =
                subst (λ (x : RingBuffer). Offers x (p ++ slice_of bid ∷ [])) (sym back)
                  (repay-Offers now p bid h);
          }
      | inl (short, e₁) ↦
          let (b₁, grown, e₂) =
            retried (extend_buffer kernel now) (ring_buf_receive kernel rs c) e₁ in
          let one = (extend_buffer-Extended kernel now b₁ grown).count in
          let all = slices 0 (n_buffers * (b.buf_count + 1)) in
          let rest =
            ring_buf_receive-Offers kernel rs c c' b₁ b' all res
              (extend_buffer-Offers kernel now b₁ p h grown) e₂ in
          record {
            rounds = suc rest.rounds;
            last = rest.last;
            bid = rest.bid;
            ends = answer-short r rest.last rs rest.rounds short rest.ends;
            result = rest.result;
            names = rest.names;
            count = omega (arith, rest.count, one);
            offers =
                subst (λ (l : List Slice). Offers b' (l ++ slice_of rest.bid ∷ []))
                  (ap (λ (n : ℕ). extended n rest.rounds all) one
                    ∙ extended-suc b.buf_count rest.rounds p)
                  rest.offers;
          }
    ]
