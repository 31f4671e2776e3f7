-- ===== src/Ilvm/Alloc/FirstFit.antt =====
-- eval.rs, `malloc`: the choice of a block as a relation.
use plbench.Prelude.{
  ℕ, ◌+◌, ◌-◌, ◌<◌, ◌≡◌, ◌↔◌, inl, inr, Option, none, some, arith, ltb, ◌==◌, Bool-cases, ltb→lt,
  ==_iff,
}
use plbench.Ilvm.Alloc.{FreeList, nil, node, malloc}

pub data Allocates (size : ℕ) : FreeList → FreeList → ℕ → Type 0 where
  whole : {base n : ℕ} {rest : FreeList} → n ≡ size → Allocates size (node base n rest) rest base
  front :
      {base n : ℕ} {rest : FreeList}
      → size < n
      → Allocates size (node base n rest) (node (base + size) (n - size) rest) base
  later :
      {base n base' : ℕ} {rest rest' : FreeList}
      → n < size
      → Allocates size rest rest' base'
      → Allocates size (node base n rest) (node base n rest') base'

abbrev Ensures {ℓ κ} : {A : Type ℓ} → (A → Type κ) → Option A → Type κ
Ensures P none = Unit
Ensures P (some a) = P a

malloc-Ensures :
    (fl : FreeList) (size : ℕ)
    → Ensures (λ (fl', base). Allocates size fl fl' base) (malloc fl size)
unfolding malloc
malloc-Ensures nil size = tt
malloc-Ensures (node b n rest) size = elim (Bool-cases (size == n)) [
  | inl e ↦ rw e (whole (omega (arith, (==_iff size n).0 e)))
  | inr e ↦ elim (Bool-cases (ltb size n)) [
    | inl l ↦ rw (e, l) (front (ltb→lt _ _ l))
    | inr l ↦ rw (e, l) (after (malloc rest size) (ground arith) (malloc-Ensures rest size))
  ]
]
  where
    after :
        (r : Option (FreeList × ℕ))
        → n < size
        → Ensures (λ (fl', base). Allocates size rest fl' base) r
        → Ensures
            (λ (fl', base). Allocates size (node b n rest) fl' base)
            (elim r [ none ↦ none | some (rest2, base2) ↦ some (node b n rest2, base2) ])
    after none lt h = tt
    after (some (rest2, base2)) lt h = later lt h

malloc_sound :
    (fl : FreeList) (size : ℕ) {fl' : FreeList} {base : ℕ}
    → malloc fl size ≡ some (fl', base)
    → Allocates size fl fl' base
malloc_sound fl size h = rw h at (malloc-Ensures fl size)

malloc_complete :
    {size : ℕ} {fl fl' : FreeList} {base : ℕ}
    → Allocates size fl fl' base
    → malloc fl size ≡ some (fl', base)
unfolding malloc
malloc_complete (whole e) = ground arith
malloc_complete (front lt) = ground arith
malloc_complete (later {rest = r} lt rest) = ground (arith, malloc_complete rest)

-- `malloc` returns a block exactly where the first-fit relation allocates it.
pub malloc_iff :
    (fl fl' : FreeList) (size base : ℕ)
    → (malloc fl size ≡ some (fl', base)) ↔ Allocates size fl fl' base
malloc_iff fl fl' size base = (malloc_sound fl size, malloc_complete)
