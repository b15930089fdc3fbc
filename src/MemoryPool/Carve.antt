-- ===== src/MemoryPool/Carve.antt =====
-- ConcurrentMemoryPool/CentralCache.cpp, the two loops of CentralCache::FetchRangeObj on the blocks
-- of a span: the one that cuts a new span into blocks, and the one that takes a batch off a span's
-- free list. Addresses do not wrap: the span lies below 2 ^ 64.
pub mod Blocks
pub mod Batches
use linux_os.Base.{
  ℕ, zero, suc, ◌+◌, ◌-◌, ◌*◌, Option, none, some, Bool, ◌&&◌, ◌==◌, not, ltb, sub_word,
  if◌then◌else◌,
}
use linux_os.MemoryPool.Memory.{Ptr, null, Memory, set_next}

-- `while (begin < end_bound) { NextObj(tail) = begin; tail = begin; begin += size; }`, and the null
-- link behind the last block. The first argument is fuel, `none` that it ran out.
unfoldable pub link_blocks : ℕ → Ptr → Ptr → Ptr → ℕ → Memory → Option Memory
link_blocks zero tail begin end_bound size m = none
link_blocks (suc f) tail begin end_bound size m =
    let rest = link_blocks f begin (begin + size) end_bound size (set_next m tail begin) in
    if ltb begin end_bound then rest else some (set_next m tail null)

-- The free list of a new span at `begin` of `bytes` bytes starts at `begin`.
unfoldable pub carve : ℕ → Ptr → ℕ → ℕ → Memory → Option Memory
unfolding link_blocks
carve fuel begin bytes size m = link_blocks fuel begin (begin + size) (begin + bytes) size m

-- `while (--n && NextObj(end) != nullptr) { end = NextObj(end); ++actual_num; }` gives `end` and
-- `actual_num`. The first argument is `n` after the decrement.
unfoldable pub advance : ℕ → Ptr → ℕ → Memory → Ptr × ℕ
advance zero last actual_num m = (last, actual_num)
advance (suc n) last actual_num m =
    let rest = advance n (m last) (actual_num + 1) m in
    if not (m last == null) then rest else (last, actual_num)

pub record Taken : Type 0 where
  pub start : Ptr
  pub last : Ptr
  pub actual_num : ℕ
  pub free_lists : Ptr

-- Takes up to `distribute_nums` blocks off the free list that starts at `free_lists`.
unfoldable pub take_batch : Ptr → ℕ → Memory → Taken × Memory
unfolding advance
take_batch free_lists distribute_nums m =
    let (last, actual_num) = advance (sub_word distribute_nums 1) free_lists 1 m in
    (
      record { start = free_lists; last = last; actual_num = actual_num; free_lists = m last },
      set_next m last null,
    )
