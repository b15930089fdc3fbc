-- ===== src/MemoryPool/Tests.antt =====
-- Runs of the allocator's parts on concrete values, and the theorems at such values.
use linux_os.Base.{
  ℕ, ◌+◌, ◌*◌, ◌%◌, ◌<◌, ◌≤◌, ◌≡◌, ◌↔◌, refl, none, some, arith, ◌==◌, if◌then◌else◌,
}
use linux_os.MemoryPool.SizeClass.{
  index, round_up, num_move_size, num_move_page, max_bytes, page_size,
}
use linux_os.MemoryPool.SizeClass.Buckets.{
  index-bucket, index-eq_iff, index-none_of_large, class_size,
}
use linux_os.MemoryPool.SizeClass.Batches.{num_move_page_bounds, num_move_size_bounds}
use linux_os.MemoryPool.Memory.{Memory, Chain, SameOutside}
use linux_os.MemoryPool.PageMap.{Root, empty, get, set}
use linux_os.MemoryPool.PageMap.Laws.{get-set}
use linux_os.MemoryPool.Carve.{carve}
use linux_os.MemoryPool.Carve.Blocks.{blocks, carve-blocks, carve-fits_iff}

round_up_129 : round_up 129 ≡ 144
unfolding round_up
round_up_129 = refl

-- A request of no bytes gets an index far out of the table.
index_zero : index (round_up 0) ≡ some (18446744073709551615)
unfolding index round_up
index_zero = refl

-- Blocks of 24 bytes are cut from spans of two pages, which they do not fill exactly.
num_move_page_24 : num_move_page 24 ≡ some 2
unfolding num_move_page num_move_size
num_move_page_24 = refl

index-bucket_example : (i : ℕ) × (index 129 ≡ some i) × (i < 208) × (class_size i ≡ round_up 129)
index-bucket_example = index-bucket 129 (omega arith) (omega arith)

index-eq_iff_example : (index 129 ≡ index 144) ↔ (round_up 129 ≡ round_up 144)
index-eq_iff_example = index-eq_iff 129 144 (omega arith) (omega arith) (omega arith) (omega arith)

index-none_of_large_example : index (round_up 300000) ≡ none
index-none_of_large_example = index-none_of_large 300000 (omega arith) (omega arith)

num_move_size_bounds_example :
    (n : ℕ) × (num_move_size 24 ≡ some n) × (2 ≤ n) × (n ≤ 512) × (n * 24 ≤ max_bytes)
num_move_size_bounds_example = num_move_size_bounds 24 (omega arith) (omega arith)

num_move_page_bounds_example :
    (n p : ℕ) × (num_move_size 24 ≡ some n)
    × (num_move_page 24 ≡ some p)
    × (1 ≤ p)
    × (p ≤ 64)
    × (n * 24 ≤ p * page_size)
    × (p * page_size < n * 24 + page_size)
num_move_page_bounds_example = num_move_page_bounds 24 (omega arith) (omega arith)

-- A memory in which some blocks are linked.
abbrev three_blocks : Memory
three_blocks a = if a == 64 then 128 else if a == 128 then 192 else 0

get-set_example :
    (root : Root) × (set empty 7 5 ≡ some root) × (get root 8 ≡ (if 8 == 7 then 5 else get empty 8))
get-set_example = get-set empty 7 5 8 (omega arith)

carve-blocks_example :
    (n : ℕ) × (m' : Memory) × (carve 100 64 100 24 three_blocks ≡ some m')
    × Chain m' 64 (blocks 64 24 n)
    × (100 ≤ n * 24)
    × (n * 24 < 100 + 24)
    × SameOutside (blocks 64 24 n) three_blocks m'
carve-blocks_example = carve-blocks 64 100 24 three_blocks (omega arith) (omega arith) (omega arith)

carve-fits_iff_example :
    (n : ℕ) × (m' : Memory) × (carve 16384 8192 16384 24 three_blocks ≡ some m')
    × Chain m' 8192 (blocks 8192 24 n)
    × ((8192 + n * 24 ≤ 8192 + 16384) ↔ (16384 % 24 ≡ 0))
carve-fits_iff_example =
    carve-fits_iff 8192 16384 24 three_blocks (omega arith) (omega arith) (omega arith)
