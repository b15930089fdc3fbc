-- ===== src/MemoryPool/FreeList/Laws.antt =====
-- The free list as a stack of blocks.
use linux_os.Base.{
  ◌+◌, ◌<◌, ◌≡◌, refl, ◌≢◌, some, List, [], ◌∷◌, ◌++◌, arith, length, length-append, word_size,
  add_word, sub_word, none, ◌↔◌,
}
use linux_os.MemoryPool.Memory.{
  Ptr, null, Memory, set_next, NotIn, Disjoint, Seg, Chain, SameOutside, walk-Seg, Seg-set_next,
  Seg-append, Seg-split, Seg-set_next_last, next-Seg_last, Seg-ends, Disjoint-last,
  set_next-SameOutside,
}
use linux_os.MemoryPool.FreeList.{FreeList, push, pop, push_range, pop_range}

-- The list holds the blocks `xs`, the last pushed first, and its counter is their number.
pub record Holds (m : Memory) (l : FreeList) (xs : List Ptr) : Type 0 where
  pub chain : Chain m l.freelist xs
  pub count : l.size ≡ length xs
  pub small : length xs < word_size

-- Push puts a block that is not null and not in the list on top, and writes only to that block.
pub push-Holds :
    (m : Memory) (l : FreeList) (xs : List Ptr) (obj : Ptr)
    → Holds m l xs
    → obj ≢ null
    → NotIn obj xs
    → length xs + 1 < word_size
    → (l' : FreeList) × (m' : Memory) × (push l obj m ≡ some (l', m'))
      × Holds m' l' (obj ∷ xs)
      × (l'.max_size ≡ l.max_size)
      × SameOutside (obj ∷ []) m m'
unfolding push set_next
push-Holds m l xs obj h ne out small =
    let kept = Seg-set_next m l.freelist xs null obj l.freelist out h.chain in
    (
      record l { freelist = obj; size = add_word l.size 1 },
      set_next m obj l.freelist,
      ground arith,
      record { chain = ground arith; count = omega arith; small = omega arith },
      refl,
      ground arith,
    )

-- Pop takes the top block of a list that holds one, and leaves the rest.
pub pop-Holds :
    (m : Memory) (l : FreeList) (x : Ptr) (xs : List Ptr)
    → Holds m l (x ∷ xs)
    → (l' : FreeList) × (pop l m ≡ some (x, l')) × Holds m l' xs × (l'.max_size ≡ l.max_size)
unfolding pop
pop-Holds m l x xs h = (
  record l { freelist = m l.freelist; size = sub_word l.size 1 },
  ground arith,
  record {
    chain = ground arith;
    count = omega (arith, h.count, h.small);
    small = omega (arith, h.small);
  },
  refl,
)

-- Pop of an empty list fails its assertion.
pub pop-none_iff :
    (m : Memory) (l : FreeList) (xs : List Ptr) → Holds m l xs → (pop l m ≡ none) ↔ (xs ≡ [])
unfolding pop
pop-none_iff m l [] h = (λ e. refl, λ e. ground arith)
pop-none_iff m l (x ∷ xs) h = (λ e. ground arith, λ e. cc)

length-run :
    (ys : List Ptr) (x : Ptr) (xs : List Ptr)
    → length ((ys ++ x ∷ []) ++ xs) ≡ length ys + 1 + length xs
length-run ys x xs = omega (arith, length-append (ys ++ x ∷ []) xs, length-append ys (x ∷ []))

-- Push_Range puts a linked run of blocks, none of them in the list, in front of it, and writes
-- only to the last block of the run.
pub push_range-Holds :
    (m : Memory) (l : FreeList) (xs ys : List Ptr) (start last stop : Ptr)
    → Holds m l xs
    → Seg m start (ys ++ last ∷ []) stop
    → Disjoint (ys ++ last ∷ []) xs
    → length xs + (length ys + 1) < word_size
    → (l' : FreeList) × (m' : Memory) × (push_range l start last (length ys + 1) m ≡ some (l', m'))
      × Holds m' l' ((ys ++ last ∷ []) ++ xs)
      × (l'.max_size ≡ l.max_size)
      × SameOutside (last ∷ []) m m'
unfolding push_range
push_range-Holds m l xs ys start last stop h run apart small =
    let out = Disjoint-last ys last xs apart in
    let (start_ne, last_ne) = Seg-ends m start ys last stop run in
    let linked = Seg-set_next_last m start ys last stop l.freelist run in
    let kept = Seg-set_next m l.freelist xs null last l.freelist out h.chain in
    let whole =
      Seg-append (set_next m last l.freelist) start l.freelist (ys ++ last ∷ []) xs null apart
        linked kept in
    let size = length-run ys last xs in
    (
      record l { freelist = start; size = add_word l.size (length ys + 1) },
      set_next m last l.freelist,
      ground arith,
      record { chain = whole; count = omega (arith, h.count, size); small = omega (arith, size) },
      refl,
      set_next-SameOutside m last l.freelist,
    )

-- Pop_Range of `n` blocks, at least one and no more than the list holds, cuts the first `n` off as
-- a list of their own that ends in null, and leaves the others; it returns the first and the last
-- block that it takes, and writes only to the last.
pub pop_range-Holds :
    (m : Memory) (l : FreeList) (ys zs : List Ptr) (last : Ptr)
    → Holds m l ((ys ++ last ∷ []) ++ zs)
    → (l' : FreeList) × (m' : Memory) × (pop_range l (length ys + 1) m ≡ (l.freelist, last, l', m'))
      × Chain m' l.freelist (ys ++ last ∷ [])
      × Holds m' l' zs
      × (l'.max_size ≡ l.max_size)
      × SameOutside (last ∷ []) m m'
unfolding pop_range
pop_range-Holds m l ys zs last h =
    let (q, front, back, apart) = Seg-split m l.freelist (ys ++ last ∷ []) zs null h.chain in
    let reached = walk-Seg m l.freelist ys last [] q front in
    let next = next-Seg_last m l.freelist ys last q front in
    let size = length-run ys last zs in
    let n : sub_word (length ys + 1) 1 ≡ length ys = omega (arith, size, h.small) in
    let cut = Seg-set_next_last m l.freelist ys last q null front in
    let kept = Seg-set_next m q zs null last null (Disjoint-last ys last zs apart) back in
    (
      record l { size = sub_word l.size (length ys + 1); freelist = q },
      set_next m last null,
      rw (n, reached, next),
      cut,
      record {
        chain = kept;
        count = omega (arith, size, h.count, h.small);
        small = omega (arith, size, h.small);
      },
      refl,
      set_next-SameOutside m last null,
    )
