-- ===== src/Ilvm/Alloc.antt =====
-- eval.rs, `FreeList`, `malloc` and `free`: the allocator's list of free blocks. Every address and
-- size in it is at most the heap's length, so no sum of two of them wraps in a `usize`.
pub mod Cover
pub mod FirstFit
pub mod Canonical
pub mod RoundTrip
pub mod Commute
use plbench.Prelude.{ℕ, ◌+◌, ◌-◌, Option, none, some, ltb, ◌==◌, if◌then◌else◌}

-- `node base size rest`: the words from `base` on, `size` of them, are free.
pub data FreeList : Type 0 where
  nil : FreeList
  node : ℕ → ℕ → FreeList → FreeList

-- The list that remains and the base of the allocated block, the first that is large enough.
unfoldable pub malloc : FreeList → ℕ → Option (FreeList × ℕ)
malloc nil size = none
malloc (node base free_size rest) size =
    if size == free_size
    then some (rest, base)
    else if ltb size free_size
    then some (node (base + size) (free_size - size) rest, base)
    else elim (malloc rest size) [
      | none ↦ none
      | some (rest2, base2) ↦ some (node base free_size rest2, base2)
    ]

unfoldable pub free : FreeList → ℕ → ℕ → FreeList
free nil ptr size = node ptr size nil
free (node base1 size1 rest1) ptr size =
    let merged = free rest1 base1 (size + size1) in
    let later = node base1 size1 (free rest1 ptr size) in
    if ptr + size == base1
    then node ptr (size + size1) rest1
    else if ltb (ptr + size) base1
    then node ptr size (node base1 size1 rest1)
    else if ptr == base1 + size1
    then merged
    else later
