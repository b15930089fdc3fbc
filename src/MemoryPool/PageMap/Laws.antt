-- ===== src/MemoryPool/PageMap/Laws.antt =====
-- The radix tree is a map from page numbers below 2 ^ 51.
use linux_os.Base.{
  ℕ, ◌<◌, ◌/◌, ◌^◌, ◌≤◌, ◌≡◌, ◌↔◌, none, some, arith, ◌==◌, if◌then◌else◌, bit_and-low,
  Option-cases, inl, inr,
}
use linux_os.MemoryPool.PageMap.{bits, Root, i1, i2, i3, store, get, set, erase, empty}

-- The three parts of a page number determine it.
parts_injective : (j k : ℕ) → i1 j ≡ i1 k → i2 j ≡ i2 k → i3 j ≡ i3 k → j ≡ k
parts_injective j k a b c = omega (
  arith,
  bit_and-low 17 (j / 2 ^ 17),
  bit_and-low 17 (k / 2 ^ 17),
  bit_and-low 17 j,
  bit_and-low 17 k,
)

-- `set` accepts exactly the page numbers below 2 ^ 51.
pub set-none_iff : (root : Root) (k v : ℕ) → (set root k v ≡ none) ↔ (2 ^ bits ≤ k)
unfolding set
set-none_iff root k v = ground arith

get-set_of :
    (root root' : Root) (k v j : ℕ)
    → set root k v ≡ some root'
    → get root' j ≡ (if j == k then v else get root j)
unfolding set get store
get-set_of root root' k v j e = ground (arith, parts_injective j k)

set-some : (root : Root) (k v : ℕ) → k < 2 ^ bits → (root' : Root) × (set root k v ≡ some root')
set-some root k v h = elim (Option-cases (set root k v)) [
  | inl e ↦ absurd (omega (arith, (set-none_iff root k v).0 e))
  | inr found ↦ found
]

-- `set` of a page below 2 ^ 51 succeeds, and then the tree gives the new value there and the old
-- value at every other page.
pub get-set :
    (root : Root) (k v j : ℕ)
    → k < 2 ^ bits
    → (root' : Root) × (set root k v ≡ some root')
      × (get root' j ≡ (if j == k then v else get root j))
get-set root k v j h =
    let (root', e) = set-some root k v h in (root', e, get-set_of root root' k v j e)

-- After `erase` of a page the tree gives null there and the old value at every other page, also for
-- a page number that is out of range.
pub get-erase : (root : Root) (k j : ℕ) → get (erase root k) j ≡ (if j == k then 0 else get root j)
unfolding get erase store
get-erase root k j = ground (arith, parts_injective j k)

-- A new tree gives null everywhere.
pub get-empty : (j : ℕ) → get empty j ≡ 0
unfolding get empty
get-empty j = ground arith

-- No page number above 51 bits is ever found.
pub get-out_of_range : (root : Root) (k : ℕ) → 2 ^ bits ≤ k → get root k ≡ 0
unfolding get
get-out_of_range root k h = ground arith
