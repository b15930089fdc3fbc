-- ===== src/MemoryPool/SizeClass/Buckets.antt =====
-- SizeClass::Index: the 208 free lists and the block size of each.
use linux_os.Base.{
  ℕ, ◌+◌, ◌-◌, ◌*◌, ◌/◌, ◌%◌, ◌∙◌, ap, zero, suc, ◌≢◌, ◌≤◌, ◌<◌, ◌≡◌, ◌↔◌, none, some, arith, ltb,
  leb, leb-false, Bool-cases, inl, inr, if◌then◌else◌,
}
use native.Mathlib.Decide.{dec_le}
use linux_os.MemoryPool.SizeClass.{round_up, index, max_bytes, nfree_lists}
use linux_os.MemoryPool.SizeClass.Bounds.{align_of, round_up-RoundsUp}

-- The block size that free list `i` serves: the multiples of 8 up to 128, then of 16 up to 1 KB,
-- of 128 up to 8 KB, of 1 KB up to 64 KB and of 8 KB up to 256 KB.
abbrev pub class_size : ℕ → ℕ
class_size i =
    if ltb i 16
    then (i + 1) * 8
    else if ltb i 72
    then 128 + (i - 15) * 16
    else if ltb i 128
    then 1024 + (i - 71) * 128
    else if ltb i 184
    then 8192 + (i - 127) * 1024
    else 65536 + (i - 183) * 8192

-- A bucket of a size: its index, its place in the table and its block size.
abbrev Serves : ℕ → ℕ → Type 0
Serves size i = (index size ≡ some i) × (i < nfree_lists) × (class_size i ≡ round_up size)

module _ (size : ℕ) (pos : 0 < size) (fits : size ≤ 262144) where
  granule_8_bucket : size ≤ 128 → Serves size ((size + 7) / 8 - 1)
  unfolding index
  granule_8_bucket h = ground (arith, round_up-RoundsUp size (omega arith))

  granule_16_bucket : 128 < size → size ≤ 1024 → Serves size ((size - 128 + 15) / 16 + 15)
  unfolding index
  granule_16_bucket l h = ground (arith, round_up-RoundsUp size (omega arith))

  granule_128_bucket : 1024 < size → size ≤ 8192 → Serves size ((size - 1024 + 127) / 128 + 71)
  unfolding index
  granule_128_bucket l h = ground (arith, round_up-RoundsUp size (omega arith))

  granule_1024_bucket : 8192 < size → size ≤ 65536 → Serves size ((size - 8192 + 1023) / 1024 + 127)
  unfolding index
  granule_1024_bucket l h = ground (arith, round_up-RoundsUp size (omega arith))

  granule_8192_bucket : 65536 < size → Serves size ((size - 65536 + 8191) / 8192 + 183)
  unfolding index
  granule_8192_bucket l = ground (arith, round_up-RoundsUp size (omega arith))

  -- Every request from 1 byte to 256 KB has a bucket below 208, and the blocks of that bucket are
  -- as large as RoundUp says.
  pub index-bucket :
      (i : ℕ) × (index size ≡ some i) × (i < nfree_lists) × (class_size i ≡ round_up size)
  index-bucket = let (i, s) = found in (i, s.0, s.1, s.2)
    where
      found : (i : ℕ) × Serves size i
      found = elim (dec_le size 128) [
        | yes a ↦ (_, granule_8_bucket a)
        | no a ↦ elim (dec_le size 1024) [
          | yes b ↦ (_, granule_16_bucket (omega arith) b)
          | no b ↦ elim (dec_le size 8192) [
            | yes c ↦ (_, granule_128_bucket (omega arith) c)
            | no c ↦ elim (dec_le size 65536) [
              | yes d ↦ (_, granule_1024_bucket (omega arith) d)
              | no d ↦ (_, granule_8192_bucket (omega arith))
            ]
          ]
        ]
      ]

class_size-injective :
    (i j : ℕ) → i < nfree_lists → j < nfree_lists → class_size i ≡ class_size j → i ≡ j
class_size-injective i j hi hj e = ground arith

class_size_bounds :
    (i : ℕ)
    → i < nfree_lists
    → (0 < class_size i) × (class_size i ≤ 262144) × (class_size i % align_of (class_size i) ≡ 0)
class_size_bounds i h = ground arith

-- The only multiple of the granule within one granule above a multiple is that multiple itself.
round_up_of_multiple : (c : ℕ) → c ≤ 262144 → c % align_of c ≡ 0 → round_up c ≡ c
round_up_of_multiple c h e = ground (arith, round_up-RoundsUp c (omega arith))

round_up-class_size : (i : ℕ) → i < nfree_lists → round_up (class_size i) ≡ class_size i
round_up-class_size i h =
    let (_, fits, multiple) = class_size_bounds i h in
    round_up_of_multiple (class_size i) fits multiple

-- Each of the 208 buckets is the bucket of its own block size, which rounding leaves alone.
pub index-class_size :
    (i : ℕ)
    → i < nfree_lists
    → (index (class_size i) ≡ some i) × (round_up (class_size i) ≡ class_size i)
index-class_size i h =
    let (pos, fits, _) = class_size_bounds i h in
    let (j, e, lt, c) = index-bucket (class_size i) pos fits in
    let same = class_size-injective j i lt h (c ∙ round_up-class_size i h) in
    (e ∙ ap some same, round_up-class_size i h)

-- Two requests of 1 byte to 256 KB share a free list exactly when they are given the same block
-- size, so a block that is pushed back fits every later request to its list.
pub index-eq_iff :
    (s t : ℕ)
    → 0 < s
    → s ≤ 262144
    → 0 < t
    → t ≤ 262144
    → (index s ≡ index t) ↔ (round_up s ≡ round_up t)
index-eq_iff s t ps fs pt ft =
    let (i, es, ls, cs) = index-bucket s ps fs in
    let (j, et, lt, ct) = index-bucket t pt ft in
    (λ e. ground arith, λ e. ground (arith, class_size-injective i j ls lt))

-- The request that Allocate makes of the central cache, RoundUp's block size, has the bucket of
-- the request that it was computed from.
pub index-round_up : (s : ℕ) → 0 < s → s ≤ 262144 → index (round_up s) ≡ index s
index-round_up s p f = let (i, e, l, c) = index-bucket s p f in ground (arith, index-class_size i l)

index-large : (s : ℕ) → 262144 < s → index s ≡ none
unfolding index
index-large s h =
    let a = leb-false s 128 (omega arith) in
    let b = leb-false s 1024 (omega arith) in
    let c = leb-false s 8192 (omega arith) in
    let d = leb-false s 65536 (omega arith) in
    elim (Bool-cases (leb s max_bytes)) [
      | inl e ↦ rw (e, a, b, c, d, leb-false s 262144 h)
      | inr e ↦ rw e
    ]

index-ne_none : (s : ℕ) → s ≤ 262144 → index s ≢ none
unfolding index
index-ne_none zero h e = cc
index-ne_none (suc n) h e = let (i, found, _, _) = index-bucket (suc n) (omega arith) h in cc

-- Index refuses exactly the sizes above 256 KB, though MAX_BYTES is 512 KB.
pub index-none_iff : (s : ℕ) → (index s ≡ none) ↔ (262144 < s)
index-none_iff s = (λ e. refused e, index-large s)
  where
    refused : index s ≡ none → 262144 < s
    refused e = elim (dec_le s 262144) [ yes h ↦ absurd (index-ne_none s h e) | no h ↦ omega arith ]

-- A request above 256 KB and up to MAX_BYTES, which ConcurrentMalloc hands to the thread cache,
-- fails the assertion in Index.
pub index-none_of_large : (s : ℕ) → 262144 < s → s ≤ max_bytes → index (round_up s) ≡ none
index-none_of_large s l h =
    (index-none_iff (round_up s)).1 (omega (arith, round_up-RoundsUp s (omega arith)))
