-- ===== src/Ilvm/Eval/Blocks.antt =====
-- tc.rs: the numbers of the blocks, and the table that the blocks are collected in.
use plbench.Prelude.{
  ℕ, ◌≡◌, refl, ◌≢◌, ◌↔◌, inl, inr, List, [], ◌∷◌, true, false, Option, none, some, arith,
  Bool-cases, All,
}
use plbench.Prelude.Assoc.{lookup, insert, lookup-insert}
use plbench.Ilvm.Syntax.{Block}
use plbench.Ilvm.Run.{ok, err, usage, duplicate_block_ids}
use plbench.Ilvm.Machine.{Env}
use plbench.Ilvm.Eval.{contains, has_unique_from, has_unique_elements, ids, collect_from, tc}

-- Every number differs from all the later ones.
abbrev pub IsDistinct : List ℕ → Type 0
IsDistinct [] = Unit
IsDistinct (x ∷ xs) = All (λ y. x ≢ y) xs × IsDistinct xs

contains_cons :
    (x y : ℕ) (seen : List ℕ) → contains x (y ∷ seen) ≡ false → (y ≢ x) × (contains x seen ≡ false)
contains_cons x y seen h = ground arith

-- No number of the list is among those seen.
IsNew : List ℕ → List ℕ → Type 0
IsNew seen xs = All (λ x. contains x seen ≡ false) xs

IsNew-cons :
    (x : ℕ) (seen xs : List ℕ) → IsNew (x ∷ seen) xs ↔ (All (λ y. x ≢ y) xs × IsNew seen xs)
unfolding IsNew
IsNew-cons x seen [] = (λ h. (tt, tt), λ h. tt)
IsNew-cons x seen (y ∷ xs) =
    let ih = IsNew-cons x seen xs in
    (
      λ h. let (a, b) = contains_cons y x seen h.0 in let (c, d) = ih.0 h.1 in ((a, c), (b, d)),
      λ (h, k). (ground (arith, h.0, k.0), ih.1 (h.1, k.1)),
    )

has_unique_from_iff :
    (seen xs : List ℕ) → (has_unique_from seen xs ≡ true) ↔ (IsNew seen xs × IsDistinct xs)
unfolding has_unique_from IsNew
has_unique_from_iff seen [] = (λ h. (tt, tt), λ h. refl)
has_unique_from_iff seen (x ∷ xs) = elim (Bool-cases (contains x seen)) [
  | inl old ↦ (λ h. absurd (ground (arith, old)), λ h. absurd (ground (arith, old, h.0.0)))
  | inr new ↦
      let ih = has_unique_from_iff (x ∷ seen) xs in
      let later = IsNew-cons x seen xs in
      (
        λ h. let (a, b) = ih.0 (rw new at h) in let (c, d) = later.0 a in ((new, d), (c, b)),
        λ (h, k). rw new (ih.1 (later.1 (k.0, h.1), k.1)),
      )
]

nothing_seen : (xs : List ℕ) → IsNew [] xs
unfolding IsNew
nothing_seen [] = tt
nothing_seen (x ∷ xs) = (refl, nothing_seen xs)

has_unique_elements_iff : (xs : List ℕ) → (has_unique_elements xs ≡ true) ↔ IsDistinct xs
unfolding has_unique_elements
has_unique_elements_iff xs =
    let h = has_unique_from_iff [] xs in (λ e. (h.0 e).1, λ d. h.1 (nothing_seen xs, d))

abbrev or_else {ℓ} : {A : Type ℓ} → Option A → Option A → Option A
or_else none o = o
or_else (some a) o = some a

absent : (n : ℕ) (blocks : List Block) → All (λ y. n ≢ y) (ids blocks) → lookup n blocks ≡ none
absent n [] h = refl
absent n ((m, i) ∷ blocks) h = ground (arith, h.0, absent n blocks h.1)

lookup-collect_from :
    (n : ℕ) (env : Env) (blocks : List Block)
    → IsDistinct (ids blocks)
    → lookup n (collect_from env blocks) ≡ or_else (lookup n blocks) (lookup n env)
unfolding collect_from
lookup-collect_from n env [] d = refl
lookup-collect_from n env ((m, i) ∷ blocks) d = ground (
  arith,
  lookup-collect_from n (insert m i env) blocks d.1,
  lookup-insert m n i env,
  absent m blocks d.0,
)

or_else-none : {A : Type 0} (o : Option A) → or_else o none ≡ o
or_else-none none = refl
or_else-none (some a) = refl

-- `tc` refuses a program exactly where two of its blocks have one number.
tc_refuses_iff :
    (blocks : List Block)
    → (tc blocks ≡ err (usage duplicate_block_ids)) ↔ (¬ IsDistinct (ids blocks))
unfolding tc
tc_refuses_iff blocks = elim (Bool-cases (has_unique_elements (ids blocks))) [
  | inl e ↦ (λ h. absurd (ground (arith, e)), λ h. absurd (h ((has_unique_elements_iff _).0 e)))
  | inr e ↦ (λ h d. cc (e, (has_unique_elements_iff _).1 d), λ h. rw e refl)
]

-- Where `tc` accepts a program, no two blocks have one number, and the table answers every number
-- with the block that the program has for it, if it has one.
pub tc-lookup :
    (blocks : List Block) {env : Env}
    → tc blocks ≡ ok env
    → IsDistinct (ids blocks) × ((n : ℕ) → lookup n env ≡ lookup n blocks)
unfolding tc
tc-lookup blocks {env} h = elim (Bool-cases (has_unique_elements (ids blocks))) [
  | inl e ↦
      let d = (has_unique_elements_iff (ids blocks)).0 e in
      let same : collect_from [] blocks ≡ env = ground (arith, e) in
      (d, λ n. rw (← same, lookup-collect_from n [] blocks d) (or_else-none (lookup n blocks)))
  | inr e ↦ absurd (ground (arith, e))
]
