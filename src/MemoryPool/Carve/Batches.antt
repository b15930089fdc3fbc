-- ===== src/MemoryPool/Carve/Batches.antt =====
-- The batch that CentralCache::FetchRangeObj takes off a span's free list.
use linux_os.Base.{
  ℕ, zero, suc, ◌+◌, ◌<◌, ◌≡◌, ap, refl, List, [], ◌∷◌, ◌++◌, arith, length, min, sub_word,
  word_size,
}
use mathlib.Core.Path.{subst}
use linux_os.MemoryPool.Memory.{
  Ptr, null, Memory, set_next, Chain, SameOutside, Seg-split, Seg-set_next, Seg-set_next_last,
  next-Seg_last, Disjoint-last, set_next-SameOutside,
}
use linux_os.MemoryPool.Carve.{advance, take_batch, Taken}

-- Where the loop stops on the blocks `last ∷ zs`, having counted `a`.
record Stops (n last : ℕ) (zs : List Ptr) (a : ℕ) (m : Memory) : Type 0 where
  front : List Ptr
  stop : Ptr
  pub rest : List Ptr
  split : last ∷ zs ≡ (front ++ stop ∷ []) ++ rest
  count : length front ≡ min n (length zs)
  result : advance n last a m ≡ (stop, a + length front)

advance-Stops :
    (n last : ℕ) (zs : List Ptr) (a : ℕ) (m : Memory)
    → Chain m last (last ∷ zs)
    → Stops n last zs a m
unfolding advance
advance-Stops zero last zs a m s = record {
  front = [];
  stop = last;
  rest = zs;
  split = refl;
  count = omega arith;
  result = ground arith;
}
advance-Stops (suc n) last [] a m s = record {
  front = [];
  stop = last;
  rest = [];
  split = refl;
  count = omega arith;
  result = ground arith;
}
advance-Stops (suc n) last (z ∷ zs) a m s =
    let next = s.3.0 in
    let more = advance-Stops n z zs (a + 1) m (refl, s.3.1, s.3.2, s.3.3) in
    record {
      front = last ∷ more.front;
      stop = more.stop;
      rest = more.rest;
      split = ap (λ l. last ∷ l) more.split;
      count = omega (arith, more.count);
      result = ground (arith, more.result);
    }

-- What a batch of at most `n` blocks off the chain `xs` is: its first blocks, `n` of them or all,
-- as a chain of their own; the others stay on the span's list; one link is written.
pub record IsBatch (n : ℕ) (p : Ptr) (xs : List Ptr) (m : Memory) (r : Taken × Memory)
    : Type 0 where
  pub taken : List Ptr
  pub rest : List Ptr
  pub split : xs ≡ (taken ++ r.0.last ∷ []) ++ rest
  pub start : r.0.start ≡ p
  pub count : r.0.actual_num ≡ length taken + 1
  pub as_many : r.0.actual_num ≡ min n (length xs)
  pub batch_chain : Chain r.1 p (taken ++ r.0.last ∷ [])
  pub rest_chain : Chain r.1 r.0.free_lists rest
  pub same : SameOutside (r.0.last ∷ []) m r.1

-- From a span with free blocks, asked for at least one, the code takes a batch.
pub take_batch-IsBatch :
    (n p x : ℕ) (xs : List Ptr) (m : Memory)
    → 0 < n
    → n < word_size
    → Chain m p (x ∷ xs)
    → IsBatch n p (x ∷ xs) m (take_batch p n m)
unfolding take_batch
take_batch-IsBatch n p x xs m pos small s =
    let stops = advance-Stops (sub_word n 1) x xs 1 m (refl, s.1, s.2, s.3) in
    let chain = cut_chain stops.split s in
    let (q, front, back, apart) =
      Seg-split m p (stops.front ++ stops.stop ∷ []) stops.rest null chain in
    let next = next-Seg_last m p stops.front stops.stop q front in
    let reached = from_start stops.result in
    let value = taken_value reached next in
    rw value (record {
      taken = stops.front;
      rest = stops.rest;
      split = stops.split;
      start = refl;
      count = omega arith;
      as_many = omega (arith, stops.count);
      batch_chain = Seg-set_next_last m p stops.front stops.stop q null front;
      rest_chain =
          Seg-set_next m q stops.rest null stops.stop null
            (Disjoint-last stops.front stops.stop stops.rest apart) back;
      same = set_next-SameOutside m stops.stop null;
    })
  where
    cut_chain : {ys : List Ptr} → x ∷ xs ≡ ys → Chain m p (x ∷ xs) → Chain m p ys
    cut_chain e c = subst (λ l. Chain m p l) e c

    from_start : {r : Ptr × ℕ} → advance (sub_word n 1) x 1 m ≡ r → advance (sub_word n 1) p 1 m ≡ r
    from_start e = rw (s.0) e

    taken_value :
        {stop k q : ℕ}
        → advance (sub_word n 1) p 1 m ≡ (stop, k)
        → m stop ≡ q
        → take_batch p n m ≡ (
          record { start = p; last = stop; actual_num = k; free_lists = q },
          set_next m stop null,
        )
    taken_value e next = ground (arith, e, next)
