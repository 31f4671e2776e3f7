-- ===== src/Ilvm/Alloc/Commute.antt =====
-- eval.rs, `free` of two blocks.
use plbench.Prelude.{ℕ, ◌+◌, ◌≤◌, ◌<◌, ◌≡◌, arith}
use plbench.Ilvm.Alloc.{FreeList, free}
use plbench.Ilvm.Alloc.Cover.{within, cover, free-cover}
use plbench.Ilvm.Alloc.Canonical.{IsCanonical, free-IsCanonical}
use plbench.Ilvm.Alloc.RoundTrip.{cover-injective}

-- No word of the two blocks is in both or free.
abbrev pub AreApart : FreeList → ℕ → ℕ → ℕ → ℕ → Type 0
AreApart fl p m q n = (a : ℕ) → within p m a + (within q n a + cover fl a) ≤ 1

module _ (fl : FreeList) {lo : ℕ} (c : IsCanonical lo fl) where
  free_twice-IsCanonical :
      (p m q n : ℕ)
      → 0 < m
      → 0 < n
      → lo < p
      → lo < q
      → AreApart fl p m q n
      → IsCanonical lo (free (free fl p m) q n)
  free_twice-IsCanonical p m q n hm hn hp hq apart =
      free-IsCanonical (free fl p m) q n hn hq
        (free-IsCanonical fl p m hm hp c (λ a. omega (arith, apart a)))
        (λ a. omega (arith, apart a, free-cover fl p m a))

  -- Two blocks that are not empty, lie above the bound of a canonical free list, and have no word in
  -- common or in the list, give the same list in whichever order they are freed.
  pub free_comm :
      (p m q n : ℕ)
      → 0 < m
      → 0 < n
      → lo < p
      → lo < q
      → AreApart fl p m q n
      → free (free fl p m) q n ≡ free (free fl q n) p m
  free_comm p m q n hm hn hp hq apart =
      cover-injective _ _ lo (free_twice-IsCanonical p m q n hm hn hp hq apart)
        (free_twice-IsCanonical q n p m hn hm hq hp (λ a. omega (arith, apart a)))
        (λ a. omega (
          arith,
          free-cover (free fl p m) q n a,
          free-cover fl p m a,
          free-cover (free fl q n) p m a,
          free-cover fl q n a,
        ))
