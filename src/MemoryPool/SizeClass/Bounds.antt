-- ===== src/MemoryPool/SizeClass/Bounds.antt =====
-- What SizeClass::RoundUp gives for a request.
use linux_os.Base.{
  ℕ, ◌+◌, ◌-◌, ◌*◌, ◌%◌, ◌^◌, ◌≤◌, ◌<◌, ◌≡◌, refl, arith, leb, if◌then◌else◌, word_size, add_word,
  sub_word, not_word, bit_and-high,
}
use linux_os.MemoryPool.SizeClass.{round_up_align, round_up}

-- The granule of a request: the alignment of the range that its size falls into.
abbrev pub align_of : ℕ → ℕ
align_of size =
    if leb size 128
    then 8
    else if leb size 1024
    then 16
    else if leb size 8192
    then 128
    else if leb size 65536
    then 1024
    else 8192

-- `_RoundUp` at a power of two is rounding up.
round_up_align-eq :
    (n k size : ℕ)
    → 2 ^ n * 2 ^ k ≡ word_size
    → 0 < 2 ^ k
    → 2 ^ k ≤ word_size
    → size + 2 ^ k ≤ word_size
    → round_up_align size (2 ^ k) ≡ size + 2 ^ k - 1 - (size + 2 ^ k - 1) % 2 ^ k
unfolding round_up_align
round_up_align-eq n k size e p q h =
    let sum : sub_word (add_word size (2 ^ k)) 1 ≡ size + 2 ^ k - 1 = omega arith in
    let mask : not_word (sub_word (2 ^ k) 1) ≡ 2 ^ n * 2 ^ k - 2 ^ k = omega arith in
    rw (sum, mask) (bit_and-high n k (size + 2 ^ k - 1) (omega arith))

-- The least multiple of `a` that is not below `size`.
abbrev RoundsUp : ℕ → ℕ → ℕ → Type 0
RoundsUp a size r = (size ≤ r) × (r < size + a) × (r % a ≡ 0)

module _ (size : ℕ) (h : size + 8192 ≤ word_size) where
  align_8 : RoundsUp 8 size (round_up_align size 8)
  align_8 =
      omega (arith, round_up_align-eq 61 3 size refl (omega arith) (omega arith) (omega arith))

  align_16 : RoundsUp 16 size (round_up_align size 16)
  align_16 =
      omega (arith, round_up_align-eq 60 4 size refl (omega arith) (omega arith) (omega arith))

  align_128 : RoundsUp 128 size (round_up_align size 128)
  align_128 =
      omega (arith, round_up_align-eq 57 7 size refl (omega arith) (omega arith) (omega arith))

  align_1024 : RoundsUp 1024 size (round_up_align size 1024)
  align_1024 =
      omega (arith, round_up_align-eq 54 10 size refl (omega arith) (omega arith) (omega arith))

  align_8192 : RoundsUp 8192 size (round_up_align size 8192)
  align_8192 =
      omega (arith, round_up_align-eq 51 13 size refl (omega arith) (omega arith) (omega arith))

  -- For a request that leaves room for one page below 2 ^ 64, RoundUp gives the least multiple of
  -- the granule of the request's range that is not below the request.
  pub round_up-RoundsUp :
      (size ≤ round_up size)
      × (round_up size < size + align_of size)
      × (round_up size % align_of size ≡ 0)
  unfolding round_up
  round_up-RoundsUp = ground (arith, align_8, align_16, align_128, align_1024, align_8192)

-- Between 129 bytes and 256 KB, less than one ninth of a block is lost to rounding.
pub round_up-waste :
    (size : ℕ) → 128 < size → size ≤ 262144 → (round_up size - size) * 9 < round_up size
round_up-waste size lo hi = ground (arith, round_up-RoundsUp size (omega arith))
