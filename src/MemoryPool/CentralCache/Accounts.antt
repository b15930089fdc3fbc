-- ===== src/MemoryPool/CentralCache/Accounts.antt =====
-- Which blocks of a span are free and which are out. A block belongs to the span that its page is mapped
-- to.
use linux_os.Base.{
  ℕ, ◌+◌, ◌*◌, ◌/◌, ◌<◌, ◌≤◌, ◌≡◌, ◌≢◌, ◌⊎◌, inl, inr, refl, sym, ap, subst, ◌∙◌, List, [], ◌∷◌,
  ◌++◌, Option, some, true, length, NotIn,
}
use linux_os.MemoryPool.Memory.{Ptr, null, Memory, Seg, Chain}
use linux_os.MemoryPool.SizeClass.{page_size, index}
use linux_os.MemoryPool.PageCache.{Span, npage_lists}
use linux_os.MemoryPool.PageCache.Lists.{Distinct}
use linux_os.MemoryPool.PageCache.Release.Erase.{Within}
use linux_os.MemoryPool.PageCache.Release.Order.{InOrder}
use linux_os.MemoryPool.CentralCache.{CentralCache}

abbrev pub OnSpan : (ℕ → Option ℕ) → ℕ → Ptr → Type 0
OnSpan map s b = map (b / page_size) ≡ some s

-- The block is one of those into which the span was cut.
abbrev pub OnGrid : Span → Ptr → Type 0
OnGrid span b = (k : ℕ) × (b ≡ span.page_id * page_size + k * span.obj_size)

-- A span `s` in use, with the blocks `free` in its list and the blocks `out` elsewhere.
pub record Account (map : ℕ → Option ℕ) (span : Span) (m : Memory) (free out : List Ptr) (s : ℕ)
    : Type 0 where
  pub used : span.is_used ≡ true
  pub small : span.npage < npage_lists
  pub mapped : map span.page_id ≡ some s
  pub chain : Chain m span.free_lists free
  pub count : span.use_count ≡ length out
  pub distinct : Distinct out
  pub apart : (b : Ptr) → Within b free → Within b out → ⊥
  pub free_on : (b : Ptr) → Within b free → OnSpan map s b
  pub out_on : (b : Ptr) → Within b out → OnSpan map s b
  pub free_grid : (b : Ptr) → Within b free → OnGrid span b
  pub out_grid : (b : Ptr) → Within b out → OnGrid span b

-- Blocks of this size belong to list `i`.
abbrev pub OfSize : ℕ → ℕ → Type 0
OfSize i size = (0 < size) × (size ≤ 262144) × (index size ≡ some i)

-- The spans of the central cache, each in the list of its size, with their accounts; a block that is out belongs to
-- one of them.
pub record Balanced (c : CentralCache) (free out : ℕ → List Ptr) : Type 0 where
  pub order : InOrder c.pages
  pub accounts :
      (i s : ℕ)
      → Within s (c.span_lists i)
      → Account c.pages.id_span_map (c.pages.spans s) c.memory (free s) (out s) s
  pub bytes : (i s : ℕ) → Within s (c.span_lists i) → OfSize i (c.pages.spans s).obj_size
  pub distinct : (i : ℕ) → Distinct (c.span_lists i)
  pub one_list : (i j s : ℕ) → Within s (c.span_lists i) → Within s (c.span_lists j) → i ≡ j
  pub listed : (s : ℕ) (b : Ptr) → Within b (out s) → (i : ℕ) × Within s (c.span_lists i)

-- Blocks of different spans differ.
pub on_one_span :
    (map : ℕ → Option ℕ) (s t : ℕ) (a b : Ptr) → OnSpan map s a → OnSpan map t b → a ≡ b → s ≡ t
on_one_span map s t a b h k e = some-injective (sym h ∙ ap (λ (x : ℕ). map (x / page_size)) e ∙ k)
  where
    some-injective : {x y : ℕ} → some x ≡ some y → x ≡ y
    some-injective e = cc

pub not_within : (b : Ptr) (xs : List Ptr) → (Within b xs → ⊥) → NotIn b xs
not_within b [] h = tt
not_within b (x ∷ xs) h = ((λ e. h (inl e)), not_within b xs (λ w. h (inr w)))

pub Within-append : (b : Ptr) (xs ys : List Ptr) → Within b (xs ++ ys) → Within b xs ⊎ Within b ys
Within-append b [] ys h = inr h
Within-append b (x ∷ xs) ys (inl e) = inl (inl e)
Within-append b (x ∷ xs) ys (inr h) = elim (Within-append b xs ys h) [
  | inl l ↦ inl (inr l)
  | inr r ↦ inr r
]

pub Within-left : (b : Ptr) (xs ys : List Ptr) → Within b xs → Within b (xs ++ ys)
Within-left b [] ys h = absurd h
Within-left b (x ∷ xs) ys (inl e) = inl e
Within-left b (x ∷ xs) ys (inr h) = inr (Within-left b xs ys h)

pub Within-right : (b : Ptr) (xs ys : List Ptr) → Within b ys → Within b (xs ++ ys)
Within-right b [] ys h = h
Within-right b (x ∷ xs) ys h = inr (Within-right b xs ys h)

pub NotIn-Within : (a b : Ptr) (xs : List Ptr) → NotIn a xs → Within b xs → a ≢ b
NotIn-Within a b [] h w = absurd w
NotIn-Within a b (x ∷ xs) h (inl e) = λ same. h.0 (same ∙ e)
NotIn-Within a b (x ∷ xs) h (inr w) = NotIn-Within a b xs h.1 w

pub Distinct-append :
    (xs ys : List Ptr)
    → Distinct xs
    → Distinct ys
    → ((b : Ptr) → Within b xs → Within b ys → ⊥)
    → Distinct (xs ++ ys)
Distinct-append [] ys h k apart = k
Distinct-append (x ∷ xs) ys h k apart = (
  not_within x (xs ++ ys) (λ w. elim (Within-append x xs ys w) [
    | inl l ↦ NotIn-Within x x xs h.0 l refl
    | inr r ↦ apart x (inl refl) r
  ]),
  Distinct-append xs ys h.1 k (λ b w. apart b (inr w)),
)

-- The blocks of a segment differ.
pub Seg-Distinct :
    (m : Memory) (p : Ptr) (xs : List Ptr) (stop : Ptr) → Seg m p xs stop → Distinct xs
Seg-Distinct m p [] stop s = tt
Seg-Distinct m p (x ∷ xs) stop s = (s.2, Seg-Distinct m (m x) xs stop s.3)

pub Distinct-apart :
    (xs ys : List Ptr) → Distinct (xs ++ ys) → (b : Ptr) → Within b xs → Within b ys → ⊥
Distinct-apart [] ys h b l r = l
Distinct-apart (x ∷ xs) ys h b (inl e) r =
    NotIn-Within x b (xs ++ ys) h.0 (Within-right b xs ys r) (sym e)
Distinct-apart (x ∷ xs) ys h b (inr l) r = Distinct-apart xs ys h.1 b l r

-- A segment is as it was where its blocks are.
pub Seg-same :
    (m m' : Memory) (p : Ptr) (xs : List Ptr) (stop : Ptr)
    → ((b : Ptr) → Within b xs → m' b ≡ m b)
    → Seg m p xs stop
    → Seg m' p xs stop
Seg-same m m' p [] stop same s = s
Seg-same m m' p (x ∷ xs) stop same s = (
  s.0,
  s.1,
  s.2,
  subst (λ q. Seg m' q xs stop) (sym (same x (inl refl)))
      (Seg-same m m' (m x) xs stop (λ b w. same b (inr w)) s.3),
)

-- An account is not touched by what happens to other spans.
pub Account-frame :
    {map map' : ℕ → Option ℕ} {span : Span} {m m' : Memory} {free out : List Ptr} {s : ℕ}
    → ((p : ℕ) → map p ≡ some s → map' p ≡ some s)
    → ((b : Ptr) → Within b free → m' b ≡ m b)
    → Account map span m free out s
    → Account map' span m' free out s
Account-frame {span = span} {m = m} {m' = m'} {free = free} keeps same a = record {
  used = a.used;
  small = a.small;
  mapped = keeps span.page_id a.mapped;
  chain = Seg-same m m' span.free_lists free null same a.chain;
  count = a.count;
  distinct = a.distinct;
  apart = a.apart;
  free_on = λ b w. keeps (b / page_size) (a.free_on b w);
  out_on = λ b w. keeps (b / page_size) (a.out_on b w);
  free_grid = a.free_grid;
  out_grid = a.out_grid;
}

pub Account-at :
    {map : ℕ → Option ℕ} {m : Memory} {t : ℕ} {span span' : Span} {free free' out out' : List Ptr}
    → span ≡ span'
    → free ≡ free'
    → out ≡ out'
    → Account map span m free out t
    → Account map span' m free' out' t
Account-at {map = map} {m = m} {t = t} {span' = span'} {free = free} {free' = free'} {out = out} e
      e' e'' a =
    subst (λ o. Account map span' m free' o t) e''
      (subst (λ f. Account map span' m f out t) e' (subst (λ sp. Account map sp m free out t) e a))
