-- ===== src/MemoryPool/Memory.antt =====
-- The memory that free blocks are linked through: `NextObj(obj)` of ConcurrentMemoryPool/Common.h is
-- the pointer in the first word of a block. A list segment is the chain of blocks that it leads
-- through.
pub use linux_os.Base.{NotIn}
use linux_os.Base.{
  ℕ, zero, suc, length, ◌≡◌, refl, ◌≢◌, sym, ◌∙◌, List, [], ◌∷◌, ◌++◌, arith, ◌==◌, if◌then◌else◌,
}

abbrev pub Ptr : Type 0
Ptr = ℕ

abbrev pub null : Ptr
null = 0

-- The first word of each block.
abbrev pub Memory : Type 0
Memory = Ptr → Ptr

-- `NextObj(obj) = next`
unfoldable pub set_next : Memory → Ptr → Ptr → Memory
set_next m obj next a = if a == obj then next else m a

-- The two lists share no block.
abbrev pub Disjoint : List Ptr → List Ptr → Type 0
Disjoint [] ys = Unit {0}
Disjoint (x ∷ xs) ys = NotIn x ys × Disjoint xs ys

-- From `p` the links lead through the distinct blocks `xs` to `stop`.
abbrev pub Seg : Memory → Ptr → List Ptr → Ptr → Type 0
Seg m p [] stop = p ≡ stop
Seg m p (x ∷ xs) stop = (p ≡ x) × (x ≢ null) × NotIn x xs × Seg m (m x) xs stop

-- A list that ends in a null pointer.
abbrev pub Chain : Memory → Ptr → List Ptr → Type 0
Chain m p xs = Seg m p xs null

-- The blocks outside `xs` are as they were.
abbrev pub SameOutside : List Ptr → Memory → Memory → Type 0
SameOutside xs m m' = (a : Ptr) → NotIn a xs → m' a ≡ m a

-- A segment does not notice a write to a block that is not its own.
pub Seg-set_next :
    (m : Memory) (p : Ptr) (xs : List Ptr) (stop a next : Ptr)
    → NotIn a xs
    → Seg m p xs stop
    → Seg (set_next m a next) p xs stop
unfolding set_next
Seg-set_next m p [] stop a next out s = s
Seg-set_next m p (x ∷ xs) stop a next out s =
    let rest = Seg-set_next m (m x) xs stop a next out.1 s.3 in ground (arith, rest)

-- Nor any change elsewhere.
pub Seg-frame :
    (m m' : Memory) (p : Ptr) (xs ys : List Ptr) (stop : Ptr)
    → Disjoint xs ys
    → SameOutside ys m m'
    → Seg m p xs stop
    → Seg m' p xs stop
Seg-frame m m' p [] ys stop apart same s = s
Seg-frame m m' p (x ∷ xs) ys stop apart same s =
    let kept = same x apart.0 in
    let rest = Seg-frame m m' (m x) xs ys stop apart.1 same s.3 in (s.0, s.1, s.2, rw kept rest)

pub NotIn-append : (a : Ptr) (xs ys : List Ptr) → NotIn a xs → NotIn a ys → NotIn a (xs ++ ys)
NotIn-append a [] ys h k = k
NotIn-append a (x ∷ xs) ys h k = (h.0, NotIn-append a xs ys h.1 k)

pub NotIn-append_inv : (a : Ptr) (xs ys : List Ptr) → NotIn a (xs ++ ys) → NotIn a xs × NotIn a ys
NotIn-append_inv a [] ys h = (tt, h)
NotIn-append_inv a (x ∷ xs) ys h = let (l, r) = NotIn-append_inv a xs ys h.1 in ((h.0, l), r)

-- Segments join where one ends and the other begins.
pub Seg-append :
    (m : Memory) (p q : Ptr) (xs ys : List Ptr) (stop : Ptr)
    → Disjoint xs ys
    → Seg m p xs q
    → Seg m q ys stop
    → Seg m p (xs ++ ys) stop
Seg-append m p q [] ys stop apart s t = rw s t
Seg-append m p q (x ∷ xs) ys stop apart s t =
    (s.0, s.1, NotIn-append x xs ys s.2 apart.0, Seg-append m (m x) q xs ys stop apart.1 s.3 t)

-- And come apart at every block.
pub Seg-split :
    (m : Memory) (p : Ptr) (xs ys : List Ptr) (stop : Ptr)
    → Seg m p (xs ++ ys) stop
    → (q : Ptr) × Seg m p xs q × Seg m q ys stop × Disjoint xs ys
Seg-split m p [] ys stop s = (p, refl, s, tt)
Seg-split m p (x ∷ xs) ys stop s =
    let (q, l, r, apart) = Seg-split m (m x) xs ys stop s.3 in
    let (outl, outr) = NotIn-append_inv x xs ys s.2 in (q, (s.0, s.1, outl, l), r, (outr, apart))

-- Follow the links `n` times.
unfoldable pub walk : ℕ → Ptr → Memory → Ptr
walk zero p m = p
walk (suc n) p m = walk n (m p) m

-- Past the first `length ys` blocks stands the next one.
pub walk-Seg :
    (m : Memory) (p : Ptr) (ys : List Ptr) (x : Ptr) (zs : List Ptr) (stop : Ptr)
    → Seg m p (ys ++ x ∷ zs) stop
    → walk (length ys) p m ≡ x
unfolding walk
walk-Seg m p [] x zs stop s = s.0
walk-Seg m p (y ∷ ys) x zs stop s = rw (s.0) (walk-Seg m (m y) ys x zs stop s.3)

-- The link of a segment's last block leads to its end.
pub next-Seg_last :
    (m : Memory) (p : Ptr) (ys : List Ptr) (x stop : Ptr) → Seg m p (ys ++ x ∷ []) stop → m x ≡ stop
next-Seg_last m p [] x stop s = s.3
next-Seg_last m p (y ∷ ys) x stop s = next-Seg_last m (m y) ys x stop s.3

-- To redirect that link is to move the end.
pub Seg-set_next_last :
    (m : Memory) (p : Ptr) (ys : List Ptr) (x stop next : Ptr)
    → Seg m p (ys ++ x ∷ []) stop
    → Seg (set_next m x next) p (ys ++ x ∷ []) next
unfolding set_next
Seg-set_next_last m p [] x stop next s = ground arith
Seg-set_next_last m p (y ∷ ys) x stop next s =
    let rest = Seg-set_next_last m (m y) ys x stop next s.3 in
    let (_, ne) = NotIn-append_inv y ys (x ∷ []) s.2 in ground (arith, rest)

pub set_next-SameOutside : (m : Memory) (a next : Ptr) → SameOutside (a ∷ []) m (set_next m a next)
unfolding set_next
set_next-SameOutside m a next b out = ground arith

-- Neither end of a segment that has a last block is null.
pub Seg-ends :
    (m : Memory) (p : Ptr) (ys : List Ptr) (x stop : Ptr)
    → Seg m p (ys ++ x ∷ []) stop
    → (p ≢ null) × (x ≢ null)
Seg-ends m p [] x stop s = ((λ e. s.1 (sym s.0 ∙ e)), s.1)
Seg-ends m p (y ∷ ys) x stop s = ((λ e. s.1 (sym s.0 ∙ e)), (Seg-ends m (m y) ys x stop s.3).1)

pub Disjoint-last :
    (ys : List Ptr) (x : Ptr) (xs : List Ptr) → Disjoint (ys ++ x ∷ []) xs → NotIn x xs
Disjoint-last [] x xs h = h.0
Disjoint-last (y ∷ ys) x xs h = Disjoint-last ys x xs h.1
