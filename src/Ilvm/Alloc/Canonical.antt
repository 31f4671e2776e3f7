-- ===== src/Ilvm/Alloc/Canonical.antt =====
-- eval.rs, `FreeList`: canonical free lists, whose blocks are not empty, stand in the order of their
-- addresses, and have a gap between any two.
use plbench.Prelude.{
  ℕ, ◌+◌, ◌≤◌, ◌<◌, ◌≡◌, refl, inl, inr, some, arith, ltb, ◌==◌, Bool-cases, ltb→lt, ==_iff,
}
use plbench.Ilvm.Alloc.{FreeList, nil, node, malloc, free}
use plbench.Ilvm.Alloc.Cover.{within, cover}
use plbench.Ilvm.Alloc.FirstFit.{Allocates, whole, front, later, malloc_iff}

-- Canonical, with every block above the address `lo`.
abbrev pub IsCanonical : ℕ → FreeList → Type 0
IsCanonical lo nil = Unit
IsCanonical lo (node base size rest) = (lo < base) × (0 < size) × IsCanonical (base + size) rest

pub IsCanonical-mono :
    (fl : FreeList) {lo lo' : ℕ} → lo' ≤ lo → IsCanonical lo fl → IsCanonical lo' fl
IsCanonical-mono nil h c = tt
IsCanonical-mono (node base size rest) h c = (omega arith, c.1, c.2)

pub cover-below : (fl : FreeList) {lo : ℕ} (a : ℕ) → IsCanonical lo fl → a ≤ lo → cover fl a ≡ 0
unfolding cover
cover-below nil a c h = refl
cover-below (node b n rest) a c h = ground (arith, cover-below rest {lo = b + n} a c.2)

-- The allocated block lies above `lo`, and the list stays canonical.
Allocates-IsCanonical :
    {size base : ℕ} {fl fl' : FreeList}
    → 0 < size
    → Allocates size fl fl' base
    → {lo : ℕ} → IsCanonical lo fl
    → (lo < base) × IsCanonical lo fl'
Allocates-IsCanonical p (whole {rest = rest} e) c = (c.0, IsCanonical-mono rest (omega arith) c.2)
Allocates-IsCanonical p (front {base = b} {n = n} {rest = rest} lt) c =
    (c.0, (omega arith, omega arith, IsCanonical-mono rest (omega arith) c.2))
Allocates-IsCanonical p (later lt a) c =
    let ih = Allocates-IsCanonical p a c.2 in (omega arith, (c.0, c.1, ih.1))

pub malloc-IsCanonical :
    (fl : FreeList) (size : ℕ) {lo : ℕ} {fl' : FreeList} {base : ℕ}
    → 0 < size
    → IsCanonical lo fl
    → malloc fl size ≡ some (fl', base)
    → (lo < base) × IsCanonical lo fl'
malloc-IsCanonical fl size p c h = Allocates-IsCanonical p ((malloc_iff fl _ size _).0 h) c

-- No word of the block is free.
abbrev pub IsApart : FreeList → ℕ → ℕ → Type 0
IsApart fl ptr size = (a : ℕ) → within ptr size a + cover fl a ≤ 1

-- A block that begins past the end of the first one, or at it, is apart from it.
apart_after :
    (b n ptr size : ℕ) (rest : FreeList)
    → 0 < n
    → 0 < size
    → b < ptr + size
    → IsApart (node b n rest) ptr size
    → b + n ≤ ptr
unfolding cover
apart_after b n ptr size rest p q lt h = elim (Bool-cases (ltb ptr b)) [
  | inl e ↦ ground (arith, h b)
  | inr e ↦ ground (arith, h ptr)
]

IsApart-rest :
    (b n ptr size : ℕ) (rest : FreeList) → IsApart (node b n rest) ptr size → IsApart rest ptr size
unfolding cover
IsApart-rest b n ptr size rest h a = omega (arith, h a)

IsApart-merged :
    (b n ptr size : ℕ) (rest : FreeList)
    → ptr ≡ b + n
    → IsApart (node b n rest) ptr size
    → IsApart rest b (size + n)
unfolding cover
IsApart-merged b n ptr size rest e h a = ground (arith, h a)

-- Freeing a block that is apart from the list keeps the list canonical.
pub free-IsCanonical :
    (fl : FreeList) (ptr size : ℕ) {lo : ℕ}
    → 0 < size
    → lo < ptr
    → IsCanonical lo fl
    → IsApart fl ptr size
    → IsCanonical lo (free fl ptr size)
unfolding free
free-IsCanonical nil ptr size p q c h = (q, p, tt)
free-IsCanonical (node b n rest) ptr size p q c h = elim (Bool-cases (ptr + size == b)) [
  | inl e ↦
      let joined : ptr + size ≡ b = (==_iff _ _).0 e in
      rw e (q, omega arith, IsCanonical-mono rest (omega arith) c.2)
  | inr e ↦ elim (Bool-cases (ltb (ptr + size) b)) [
    | inl f ↦ rw (e, f) (q, p, (ltb→lt _ _ f, c.1, c.2))
    | inr f ↦
        let past = apart_after b n ptr size rest c.1 p (ground arith) h in
        elim (Bool-cases (ptr == b + n)) [
          | inl g ↦
              let met : ptr ≡ b + n = (==_iff _ _).0 g in
              rw (e, f, g)
                (free-IsCanonical rest b (size + n) (omega arith) c.0
                  (IsCanonical-mono rest (omega arith) c.2)
                  (IsApart-merged b n ptr size rest met h))
          | inr g ↦
              rw (e, f, g)
                (
                  c.0,
                  c.1,
                  free-IsCanonical rest ptr size p (ground arith) c.2
                      (IsApart-rest b n ptr size rest h),
                )
        ]
  ]
]
