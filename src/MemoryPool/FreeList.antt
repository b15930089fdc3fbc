-- ===== src/MemoryPool/FreeList.antt =====
-- ConcurrentMemoryPool/Common.h, class FreeList: a stack of free blocks linked through their first
-- words. The memory is an argument and a result; `none` is a failed `assert`.
pub mod Laws
use linux_os.Base.{ℕ, ◌||◌, Bool, Option, none, some, ◌==◌, if◌then◌else◌, add_word, sub_word}
use linux_os.MemoryPool.Memory.{Ptr, null, Memory, set_next, walk}

pub record FreeList : Type 0 where
  pub freelist : Ptr
  pub max_size : ℕ
  pub size : ℕ

unfoldable pub fresh : FreeList
fresh = record { freelist = null; max_size = 1; size = 0 }

unfoldable pub push : FreeList → Ptr → Memory → Option (FreeList × Memory)
push l obj m =
    if obj == null
    then none
    else some (record l { freelist = obj; size = add_word l.size 1 }, set_next m obj l.freelist)

unfoldable pub pop : FreeList → Memory → Option (Ptr × FreeList)
pop l m =
    if l.freelist == null
    then none
    else some (l.freelist, record l { freelist = m l.freelist; size = sub_word l.size 1 })

-- `start` and `last` are the first and last block of a linked run of `n`.
unfoldable pub push_range : FreeList → Ptr → Ptr → ℕ → Memory → Option (FreeList × Memory)
push_range l start last n m =
    if start == null || last == null
    then none
    else some (record l { freelist = start; size = add_word l.size n }, set_next m last l.freelist)

-- What `start` and `end` are set to, the list that is left and the memory. The loop makes `n - 1`
-- rounds on `size_t`.
unfoldable pub pop_range : FreeList → ℕ → Memory → Ptr × Ptr × FreeList × Memory
unfolding walk
pop_range l n m =
    let last = walk (sub_word n 1) l.freelist m in
    (
      l.freelist,
      last,
      record l { size = sub_word l.size n; freelist = m last },
      set_next m last null,
    )

unfoldable pub is_empty : FreeList → Bool
is_empty l = l.freelist == null
