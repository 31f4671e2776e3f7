-- ===== src/Ilvm/Machine/Owns.antt =====
-- eval.rs, `State`: who owns which words of the heap, a free block or a live one.
use plbench.Prelude.{
  ℕ, ◌+◌, ◌-◌, ◌<◌, ◌≡◌, inl, inr, List, [], ◌∷◌, some, arith, ◌==◌, if◌then◌else◌, Bool-cases, All,
}
use plbench.Prelude.Assoc.{lookup, insert, lookup-insert}
use plbench.Ilvm.Alloc.Cover.{within, cover}
use plbench.Ilvm.Alloc.Canonical.{IsCanonical}
use plbench.Ilvm.State.{State}

-- The blocks that the program holds: base and size.
abbrev pub Live : Type 0
Live = List (ℕ × ℕ)

-- The number of live blocks that hold an address.
unfoldable pub held : Live → ℕ → ℕ
held [] a = 0
held ((p, n) ∷ live) a = within p n a + held live a

-- The live blocks without the first one at the base.
abbrev pub remove : ℕ → Live → Live
remove p [] = []
remove p ((q, n) ∷ live) = if q == p then live else (q, n) ∷ remove p live

-- The interpreter's table has a block, and the block is not empty.
abbrev pub IsEntry : List (ℕ × ℕ) → ℕ × ℕ → Type 0
IsEntry blocks (p, n) = (lookup p blocks ≡ some n) × (0 < n)

-- `start` and `end` bound the part of the heap that the allocator manages.
pub record Owns (start end : ℕ) (live : Live) (st : State) : Type 0 where
  pub canonical : IsCanonical (start - 1) st.free_list
  pub partition : (a : ℕ) → cover st.free_list a + held live a ≡ within start (end - start) a
  pub entries : All (IsEntry st.alloc_blocks) live

pub held-remove :
    (live : Live) (p n a : ℕ)
    → lookup p live ≡ some n
    → held live a ≡ within p n a + held (remove p live) a
unfolding held
held-remove [] p n a e = cc
held-remove ((q, m) ∷ live) p n a e = elim (Bool-cases (q == p)) [
  | inl same ↦ ground (arith, same)
  | inr other ↦ ground (arith, other, held-remove live p n a (rw other at e))
]

pub All-remove : (P : ℕ × ℕ → Type 0) (live : Live) (p : ℕ) → All P live → All P (remove p live)
All-remove P [] p h = tt
All-remove P ((q, m) ∷ live) p h = elim (Bool-cases (q == p)) [
  | inl same ↦ rw same h.1
  | inr other ↦ rw other (h.0, All-remove P live p h.1)
]

pub All-lookup :
    (blocks : List (ℕ × ℕ)) (live : Live) (p n : ℕ)
    → All (IsEntry blocks) live
    → lookup p live ≡ some n
    → (lookup p blocks ≡ some n) × (0 < n)
All-lookup blocks [] p n h e = cc
All-lookup blocks ((q, m) ∷ live) p n h e = elim (Bool-cases (q == p)) [
  | inl same ↦ ground (arith, same, h.0)
  | inr other ↦ All-lookup blocks live p n h.1 (rw other at e)
]

-- A new entry at an address that no live block holds leaves the others as they are.
pub All-insert :
    (blocks : List (ℕ × ℕ)) (live : Live) (p n : ℕ)
    → held live p ≡ 0
    → All (IsEntry blocks) live
    → All (IsEntry (insert p n blocks)) live
unfolding held
All-insert blocks [] p n z h = tt
All-insert blocks ((q, m) ∷ live) p n z h =
    (ground (arith, lookup-insert p q n blocks, h.0), All-insert blocks live p n (omega arith) h.1)
