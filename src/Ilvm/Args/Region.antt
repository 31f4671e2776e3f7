-- ===== src/Ilvm/Args/Region.antt =====
-- A run of words at an address of the heap, and the writes that leave it alone.
use plbench.Prelude.{
  ℕ, zero, suc, ◌+◌, ◌-◌, ◌≤◌, ◌<◌, ◌≡◌, refl, ap, ◌∙◌, List, [], ◌∷◌, ◌++◌, some, arith, length,
  get_elem?, set, drop,
}
use plbench.Ilvm.Syntax.{I32}

-- The heap has these words from the address on.
abbrev pub Region : List I32 → ℕ → List I32 → Type 0
Region heap idx words = (rest : List I32) × (drop idx heap ≡ words ++ rest)

drop-set_below :
    (heap : List I32) (idx j : ℕ) (w : I32) → j < idx → drop idx (set heap j w) ≡ drop idx heap
drop-set_below [] idx j w h = refl
drop-set_below (x ∷ heap) zero j w h = absurd (omega arith)
drop-set_below (x ∷ heap) (suc idx) zero w h = refl
drop-set_below (x ∷ heap) (suc idx) (suc j) w h = drop-set_below heap idx j w (omega arith)

drop-set_above :
    (heap : List I32) (idx k j : ℕ) (w : I32)
    → j ≡ idx + k
    → drop idx (set heap j w) ≡ set (drop idx heap) k w
drop-set_above [] zero k j w e = refl
drop-set_above [] (suc idx) k j w e = refl
drop-set_above (x ∷ heap) zero k j w e = let same : j ≡ k = omega arith in rw same refl
drop-set_above (x ∷ heap) (suc idx) k zero w e = absurd (omega arith)
drop-set_above (x ∷ heap) (suc idx) k (suc j) w e = drop-set_above heap idx k j w (omega arith)

append-set :
    (words rest : List I32) (k j : ℕ) (w : I32)
    → j ≡ length words + k
    → set (words ++ rest) j w ≡ words ++ set rest k w
append-set [] rest k j w e = let same : j ≡ k = omega arith in rw same refl
append-set (x ∷ words) rest k zero w e = absurd (omega arith)
append-set (x ∷ words) rest k (suc j) w e =
    ap (λ (tail : List I32). x ∷ tail) (append-set words rest k j w (omega arith))

drop-get :
    (heap : List I32) (idx : ℕ) (w : I32)
    → get_elem? heap idx ≡ some w
    → drop idx heap ≡ w ∷ drop (suc idx) heap
drop-get [] idx w h = cc
drop-get (x ∷ heap) zero w h = cc h
drop-get (x ∷ heap) (suc idx) w h = drop-get heap idx w h

-- A write below the run, or behind it, leaves the run alone.
pub Region-set_below :
    (heap : List I32) (idx : ℕ) (words : List I32) (j : ℕ) (w : I32)
    → j < idx
    → Region heap idx words
    → Region (set heap j w) idx words
Region-set_below heap idx words j w h (rest, e) = (rest, drop-set_below heap idx j w h ∙ e)

pub Region-set_above :
    (heap : List I32) (idx : ℕ) (words : List I32) (j : ℕ) (w : I32)
    → idx + length words ≤ j
    → Region heap idx words
    → Region (set heap j w) idx words
Region-set_above heap idx words j w h (rest, e) =
    let k = j - (idx + length words) in
    (
      set rest k w,
      drop-set_above heap idx (length words + k) j w (omega arith)
          ∙ ap (λ (tail : List I32). set tail (length words + k) w) e
          ∙ append-set words rest k (length words + k) w refl,
    )

-- A word before a run makes it longer.
pub Region-cons :
    (heap : List I32) (idx : ℕ) (w : I32) (words : List I32)
    → get_elem? heap idx ≡ some w
    → Region heap (idx + 1) words
    → Region heap idx (w ∷ words)
Region-cons heap idx w words h (rest, e) =
    let next : suc idx ≡ idx + 1 = omega arith in
    (rest, drop-get heap idx w h ∙ ap (λ (tail : List I32). w ∷ tail) (rw next e))
