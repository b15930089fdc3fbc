-- ===== src/MemoryPool/SizeClass.antt =====
-- ConcurrentMemoryPool/Common.h, class SizeClass: how a request is rounded up, which free list
-- serves it, and how much is moved between the caches at once. Arithmetic on `size_t` wraps at
-- 2 ^ 64; `none` is a failed `assert`.
pub mod Batches
pub mod Bounds
pub mod Buckets
use Prim.Native.Nat.{bit_and}
use linux_os.Base.{
  ℕ, ◌+◌, ◌-◌, ◌*◌, ◌/◌, ◌%◌, ◌^◌, Option, none, some, leb, ltb, ◌==◌, if◌then◌else◌, add_word,
  sub_word, not_word, word_size,
}

abbrev pub max_bytes : ℕ
max_bytes = 512 * 1024

abbrev pub nfree_lists : ℕ
nfree_lists = 208

abbrev pub page_shift : ℕ
page_shift = 13

abbrev pub page_size : ℕ
page_size = 2 ^ 13

-- `_RoundUp`
pub round_up_align : ℕ → ℕ → ℕ
round_up_align size align_size =
    bit_and (sub_word (add_word size align_size) 1) (not_word (sub_word align_size 1))

-- `_Index`
pub index_shift : ℕ → ℕ → ℕ
index_shift bytes align_shift =
    sub_word (sub_word (add_word bytes (2 ^ align_shift)) 1 / 2 ^ align_shift) 1

unfoldable pub round_up : ℕ → ℕ
unfolding round_up_align
round_up size =
    if leb size 128
    then round_up_align size 8
    else if leb size 1024
    then round_up_align size 16
    else if leb size (8 * 1024)
    then round_up_align size 128
    else if leb size (64 * 1024)
    then round_up_align size 1024
    else if leb size (256 * 1024)
    then round_up_align size (8 * 1024)
    else round_up_align size (2 ^ page_shift)

-- The four summands are `group[0]` to `group[3]`.
unfoldable pub index : ℕ → Option ℕ
unfolding index_shift
index bytes =
    if leb bytes max_bytes
    then if leb bytes 128
      then some (index_shift bytes 3)
      else if leb bytes 1024
      then some (add_word (index_shift (sub_word bytes 128) 4) 16)
      else if leb bytes (8 * 1024)
      then some (add_word (index_shift (sub_word bytes 1024) 7) (16 + 56))
      else if leb bytes (64 * 1024)
      then some (add_word (index_shift (sub_word bytes (8 * 1024)) 10) (16 + 56 + 56))
      else if leb bytes (256 * 1024)
      then some (add_word (index_shift (sub_word bytes (64 * 1024)) 13) (16 + 56 + 56 + 56))
      else none
    else none

unfoldable pub num_move_size : ℕ → Option ℕ
num_move_size size =
    if size == 0
    then none
    else let nums = max_bytes / size in
      if ltb nums 2 then some 2 else if ltb 512 nums then some 512 else some nums

-- From the count of blocks and their size to whole pages, at least one.
pages_for : ℕ → ℕ → ℕ
pages_for nums size =
    let bytes = (nums * size) % word_size in
    let npage = sub_word (add_word bytes page_size) 1 / page_size in if npage == 0 then 1 else npage

unfoldable pub num_move_page : ℕ → Option ℕ
unfolding pages_for
num_move_page size = elim (num_move_size size) [
  | none ↦ none
  | some nums ↦ some (pages_for nums size)
]
