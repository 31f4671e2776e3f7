-- ===== src/Ilvm/Alloc/RoundTrip.antt =====
-- eval.rs, `malloc` and `free` on canonical lists.
use plbench.Prelude.{
  ℕ, ◌+◌, ◌≤◌, ◌<◌, ◌≡◌, refl, sym, ◌≢◌, inl, inr, none, some, arith, ltb, Bool-cases, ltb→lt,
}
use plbench.Ilvm.Alloc.{FreeList, nil, node, malloc, free}
use plbench.Ilvm.Alloc.Cover.{cover}
use plbench.Ilvm.Alloc.FirstFit.{Allocates, whole, front, later, malloc_iff}
use plbench.Ilvm.Alloc.Canonical.{IsCanonical, IsCanonical-mono, cover-below}

-- A block before all free ones, with a gap, becomes the first.
free_first :
    (fl : FreeList) (ptr size : ℕ)
    → IsCanonical (ptr + size) fl
    → free fl ptr size ≡ node ptr size fl
unfolding free
free_first nil ptr size c = refl
free_first (node b n rest) ptr size c = ground arith

Allocates-base :
    {size base : ℕ} {fl fl' : FreeList}
    → Allocates size fl fl' base
    → {lo : ℕ} → IsCanonical lo fl
    → lo < base
Allocates-base (whole e) c = c.0
Allocates-base (front lt) c = c.0
Allocates-base (later lt a) c = omega (arith, Allocates-base a c.2)

free-Allocates :
    {size base : ℕ} {fl fl' : FreeList}
    → 0 < size
    → Allocates size fl fl' base
    → (lo : ℕ) → IsCanonical lo fl
    → free fl' base size ≡ fl
unfolding free
free-Allocates {size} p (whole {base = b} {n = n} {rest = rest} e) lo c =
    let e' : b + size ≤ b + n = omega arith in
    rw (free_first rest b size (IsCanonical-mono rest e' c.2), e)
free-Allocates {size} p (front {base = b} {n = n} {rest = rest} lt) lo c = ground arith
free-Allocates {size} {base} p (later {base = b} {n = n} {rest = rest} {rest' = rest'} lt a) lo c =
    ground (arith, Allocates-base a c.2, free-Allocates p a (b + n) c.2)

-- Freeing a block just allocated restores the list itself.
pub free-malloc :
    (fl : FreeList) (size lo : ℕ) {fl' : FreeList} {base : ℕ}
    → 0 < size
    → IsCanonical lo fl
    → malloc fl size ≡ some (fl', base)
    → free fl' base size ≡ fl
free-malloc fl size lo p c h = free-Allocates p ((malloc_iff fl _ size _).0 h) lo c

module _ (b n b' n' lo : ℕ) (rest rest' : FreeList) (c : IsCanonical lo (node b n rest))
    (c' : IsCanonical lo (node b' n' rest'))
    (h : (a : ℕ) → cover (node b n rest) a ≡ cover (node b' n' rest') a) where
  base-le : b ≤ b'
  unfolding cover
  base-le = elim (Bool-cases (ltb b' b)) [
    | inl lt ↦ absurd (ground (arith, h b', cover-below rest {lo = b + n} b' c.2))
    | inr ge ↦ ground arith
  ]

  size-le : b ≡ b' → n' ≤ n
  unfolding cover
  size-le e = elim (Bool-cases (ltb n n')) [
    | inl lt ↦ absurd (ground (arith, h (b + n), cover-below rest {lo = b + n} (b + n) c.2))
    | inr ge ↦ ground arith
  ]

  rest-cover : b ≡ b' → n ≡ n' → (a : ℕ) → cover rest a ≡ cover rest' a
  unfolding cover
  rest-cover e f a = ground (arith, h a)

-- Canonical lists with the same free words are the same list.
pub cover-injective :
    (fl fl' : FreeList) (lo : ℕ)
    → IsCanonical lo fl
    → IsCanonical lo fl'
    → ((a : ℕ) → cover fl a ≡ cover fl' a)
    → fl ≡ fl'
cover-injective nil nil lo c c' h = refl
cover-injective nil (node b n rest) lo c c' h = absurd (unfold cover in ground (arith, h b))
cover-injective (node b n rest) nil lo c c' h = absurd (unfold cover in ground (arith, h b))
cover-injective (node b n rest) (node b' n' rest') lo c c' h =
    let back = λ (a : ℕ). sym (h a) in
    let e : b ≡ b' =
      omega (
        arith,
        base-le b n b' n' lo rest rest' c c' h,
        base-le b' n' b n lo rest' rest c' c back,
      ) in
    let f : n ≡ n' = omega (
      arith,
      size-le b n b' n' lo rest rest' c c' h e,
      size-le b' n' b n lo rest' rest c' c back (sym e),
    ) in
    let ends : b + n ≤ b' + n' = omega arith in
    let tail =
      cover-injective rest rest' (b + n) c.2 (IsCanonical-mono rest' ends c'.2)
        (rest-cover b n b' n' lo rest rest' c c' h e f) in
    cc (e, f, tail)

module _ (b n size ptr lo : ℕ) (rest : FreeList) (c : IsCanonical lo (node b n rest))
    (h : (a : ℕ) → ptr ≤ a → a < ptr + size → 0 < cover (node b n rest) a) (small : n < size) where
  run_after : b + n < ptr
  unfolding cover
  run_after = elim (Bool-cases (ltb (b + n) ptr)) [
    | inl lt ↦ ltb→lt _ _ lt
    | inr ge ↦ elim (Bool-cases (ltb ptr b)) [
      | inl lt ↦ absurd (ground (arith, h ptr, cover-below rest {lo = b + n} ptr c.2))
      | inr le ↦ absurd (ground (arith, h (b + n), cover-below rest {lo = b + n} (b + n) c.2))
    ]
  ]

  run_in_rest : (a : ℕ) → ptr ≤ a → a < ptr + size → 0 < cover rest a
  unfolding cover
  run_in_rest a p q = ground (arith, h a p q, run_after)

-- `malloc` succeeds wherever some run of that many words is free.
pub malloc_finds_room :
    (fl : FreeList) (size ptr lo : ℕ)
    → 0 < size
    → IsCanonical lo fl
    → ((a : ℕ) → ptr ≤ a → a < ptr + size → 0 < cover fl a)
    → malloc fl size ≢ none
unfolding malloc
malloc_finds_room nil size ptr lo p c h =
    absurd (unfold cover in omega (arith, h ptr (omega arith) (omega arith)))
malloc_finds_room (node b n rest) size ptr lo p c h = elim (Bool-cases (ltb n size)) [
  | inl small ↦
      let lt = ltb→lt n size small in
      ground (
        arith,
        malloc_finds_room rest size ptr (b + n) p c.2 (run_in_rest b n size ptr lo rest c h lt),
      )
  | inr fits ↦ ground arith
]
