-- ===== src/MemoryPool/PageMap.antt =====
-- ConcurrentMemoryPool/PageMap.h: TCMalloc_PageMap3<51>, the radix tree of three levels that takes a
-- page number to the span that holds it. Each node and leaf has one owner, so a node is the table
-- of what its pointers lead to, `none` for a null pointer; NewNode and NewLeaf clear what they
-- allocate. A value is a span's address, 0 for null.
pub mod Laws
use Prim.Native.Nat.{bit_and}
use linux_os.Base.{ℕ, ◌+◌, ◌-◌, ◌/◌, ◌^◌, Bool, Option, none, some, not, ◌==◌, if◌then◌else◌}

-- BITS = 64 - PAGE_SHIFT, INTERIOR_BITS = (BITS + 2) / 3 and LEAF_BITS = BITS - 2 * INTERIOR_BITS.
abbrev pub bits : ℕ
bits = 51

abbrev pub interior_bits : ℕ
interior_bits = 17

abbrev pub leaf_bits : ℕ
leaf_bits = 17

abbrev pub Leaf : Type 0
Leaf = ℕ → ℕ

abbrev pub Node : Type 0
Node = ℕ → Option Leaf

abbrev pub Root : Type 0
Root = ℕ → Option Node

-- `t[i] = v`
unfoldable pub store {ℓ} : {A : Type ℓ} → (ℕ → A) → ℕ → A → ℕ → A
store t i v j = if j == i then v else t j

new_leaf : Leaf
new_leaf i = 0

new_node : Node
new_node i = none

pub empty : Root
empty i = none

abbrev pub i1 : ℕ → ℕ
i1 k = k / 2 ^ (leaf_bits + interior_bits)

abbrev pub i2 : ℕ → ℕ
i2 k = bit_and (k / 2 ^ leaf_bits) (2 ^ interior_bits - 1)

abbrev pub i3 : ℕ → ℕ
i3 k = bit_and k (2 ^ leaf_bits - 1)

-- `(k >> BITS) != 0`
abbrev out_of_range : ℕ → Bool
out_of_range k = not (k / 2 ^ bits == 0)

node_at : Root → ℕ → Node
unfolding new_node
node_at root k = elim (root (i1 k)) [ none ↦ new_node | some node ↦ node ]

leaf_at : Node → ℕ → Leaf
unfolding new_leaf
leaf_at node k = elim (node (i2 k)) [ none ↦ new_leaf | some leaf ↦ leaf ]

unfoldable pub get : Root → ℕ → ℕ
get root k = if out_of_range k then 0 else elim (root (i1 k)) [
  | none ↦ 0
  | some second ↦ elim (second (i2 k)) [ none ↦ 0 | some leaf ↦ leaf (i3 k) ]
]

-- EnsureLeaf makes the node and the leaf that are missing, and `values[i3] = v` follows. `none` is
-- its failed assertion.
unfoldable pub set : Root → ℕ → ℕ → Option Root
unfolding node_at leaf_at
set root k v =
    if out_of_range k
    then none
    else let second = node_at root k in
      let leaf = leaf_at second k in
      some (store root (i1 k) (some (store second (i2 k) (some (store leaf (i3 k) v)))))

unfoldable pub erase : Root → ℕ → Root
erase root k = if out_of_range k then root else elim (root (i1 k)) [
  | none ↦ root
  | some second ↦ elim (second (i2 k)) [
    | none ↦ root
    | some leaf ↦ store root (i1 k) (some (store second (i2 k) (some (store leaf (i3 k) 0))))
  ]
]
