-- ===== src/MemoryPool/PageCache/NewSpan/Start.antt =====
-- The page cache before the first call of NewSpan.
use linux_os.Base.{ℕ, ◌≡◌, ◌<◌, inl, inr, none, some}
use linux_os.MemoryPool.PageCache.{new_cache}
use linux_os.MemoryPool.PageCache.Release.Order.{InOrder, Live}
use linux_os.MemoryPool.PageCache.NewSpan.Grow.{Fresh}

nothing-Live : (t : ℕ) → Live new_cache t → ⊥
unfolding new_cache
nothing-Live t (inl l) = l
nothing-Live t (inr (used, p, h)) = none_some h
  where
    none_some : none ≡ some t → ⊥
    none_some e = cc

-- The cache that nothing has been asked of is in order.
pub new_cache-InOrder : InOrder new_cache
unfolding new_cache
new_cache-InOrder = record {
  stocked = record { sized = λ i. tt; distinct = λ i. tt };
  entries = λ p t h. absurd (none_some h);
  separate = record {
    whole = λ p q t h used c. absurd (none_some h);
    separate = λ t u q l l' c c'. absurd (nothing-Live t l);
    start = λ t l. absurd l;
  };
}
  where
    none_some : {t : ℕ} → none ≡ some t → ⊥
    none_some e = cc

-- Any pages are new to it.
pub new_cache-Fresh : (base n : ℕ) → 0 < base → Fresh new_cache base n
new_cache-Fresh base n pos = record { start = pos; new = λ t q l c lo hi. nothing-Live t l }
