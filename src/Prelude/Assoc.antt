-- ===== src/Prelude/Assoc.antt =====
-- A hash map with number keys, as an association list.
use plbench.Prelude.{ℕ, ◌≡◌, refl, List, [], ◌∷◌, Option, none, some, arith, ◌==◌, if◌then◌else◌}

module _ {ℓ} {Value : Type ℓ} where
  abbrev pub lookup : ℕ → List (ℕ × Value) → Option Value
  lookup key [] = none
  lookup key ((first, value) ∷ entries) = if first == key then some value else lookup key entries

  abbrev pub insert : ℕ → Value → List (ℕ × Value) → List (ℕ × Value)
  insert key value [] = (key, value) ∷ []
  insert key value ((first, old) ∷ entries) =
      if first == key then (key, value) ∷ entries else (first, old) ∷ insert key value entries

  pub lookup-insert :
      (inserted key : ℕ) (value : Value) (entries : List (ℕ × Value))
      → lookup key (insert inserted value entries)
        ≡ (if inserted == key then some value else lookup key entries)
  lookup-insert inserted key value [] = refl
  lookup-insert inserted key value ((first, old) ∷ entries) =
      ground (arith, lookup-insert inserted key value entries)
