-- ===== src/Ilvm/Alloc/Cover.antt =====
-- eval.rs, `malloc` and `free`: the abstract view of a free list is the number of its blocks that hold
-- an address.
use plbench.Prelude.{
  ℕ, ◌+◌, ◌≡◌, refl, ◌&&◌, some, arith, ltb, leb, if◌then◌else◌, Option-cases, inl, inr,
}
use plbench.Ilvm.Alloc.{FreeList, nil, node, malloc, free}

-- 1 if the address is among the `size` words from `base` on, else 0.
abbrev pub within : ℕ → ℕ → ℕ → ℕ
within base size a = if leb base a && ltb a (base + size) then 1 else 0

unfoldable pub cover : FreeList → ℕ → ℕ
cover nil a = 0
cover (node base size rest) a = within base size a + cover rest a

-- A block that was split gives the words of its two parts.
within_split : (b n m a : ℕ) → within b (n + m) a ≡ within b n a + within (b + n) m a
within_split b n m a = ground arith

-- What `malloc` hands out leaves the free list, and nothing else does: each address is held by as
-- many free blocks as before, less the allocated block.
pub malloc-cover :
    (fl : FreeList) (size : ℕ) {fl' : FreeList} {base : ℕ} (a : ℕ)
    → malloc fl size ≡ some (fl', base)
    → cover fl a ≡ within base size a + cover fl' a
unfolding malloc cover
malloc-cover nil size a h = cc
malloc-cover (node b n rest) size a h = elim (Option-cases (malloc rest size)) [
  | inl e ↦ ground (arith, e)
  | inr (r, e) ↦ ground (arith, e, malloc-cover rest size {fl' = r.0} {base = r.1} a e)
]

-- What `free` takes joins the free list, and nothing else does, in every list and for every block.
pub free-cover :
    (fl : FreeList) (ptr size a : ℕ) → cover (free fl ptr size) a ≡ within ptr size a + cover fl a
unfolding free cover
free-cover nil ptr size a = refl
free-cover (node b n rest) ptr size a =
    ground (arith, free-cover rest b (size + n) a, free-cover rest ptr size a)
