-- ===== src/Ilvm/Eval/Start.antt =====
-- eval.rs, `eval`: the state that a program starts in, and its runs.
use mathlib.Core.Path.{subst}
use plbench.Prelude.{
  ℕ, ◌+◌, ◌-◌, ◌*◌, ◌%◌, ◌^◌, ◌≤◌, ◌<◌, ◌≡◌, refl, sym, ◌∙◌, ◌≢◌, inl, inr, List, [], ◌∷◌, some,
  true, false, arith, ltb, Bool-cases, Option-cases, ltb→lt, not_ltb→le, le→not_ltb, length, set,
  replicate, length-set, length-replicate, All, All-set, All-replicate,
}
use plbench.Prelude.Bits.{bit_or-lt}
use plbench.Prelude.Assoc.{lookup}
use plbench.Ilvm.Syntax.{I32, Instr}
use plbench.Ilvm.Word.{IsWord, as_i32}
use plbench.Ilvm.Run.{Run, ok, err, panic}
use plbench.Ilvm.Run.Returns.{Returns, returns, errors, Returns-if, Returns-ne-panic, Returns-eq_ok}
use plbench.Ilvm.Alloc.Cover.{cover}
use plbench.Ilvm.State.{State}
use plbench.Ilvm.Print.{byte_shifts}
use plbench.Ilvm.Args.{
  pack_word, pack_bytes, pack_string, terminated, place_args, heap_start_of, find_non_ascii,
  init_heap, max_words,
}
use plbench.Ilvm.Machine.{Env}
use plbench.Ilvm.Machine.Safety.{IsValid}
use plbench.Ilvm.Machine.Owns.{Owns, Live, held}
use plbench.Ilvm.Machine.Ownership.{Runs, Runs-Owns}
use plbench.Ilvm.Machine.Panics.{IsSafeEnv, lookup-IsSafeInstr, eval_rec-ne-panic}
use plbench.Ilvm.Eval.{started, initial, eval_from, eval}

-- A heap of `size` words that are 32-bit patterns.
abbrev IsHeap : ℕ → List I32 → Type 0
IsHeap size heap = (length heap ≡ size) × All IsWord heap

set-IsHeap :
    (size : ℕ) (heap : List I32) (i w : ℕ)
    → IsWord w
    → IsHeap size heap
    → IsHeap size (set heap i w)
set-IsHeap size heap i w p h = (length-set heap i w ∙ h.0, All-set IsWord heap i h.1 p)

pack_word-IsWord :
    (shifts : List ℕ) (word : I32) (bytes : List ℕ)
    → IsWord word
    → IsWord (pack_word shifts word bytes)
unfolding pack_word
pack_word-IsWord [] word bytes h = h
pack_word-IsWord (s ∷ shifts) word [] h = h
pack_word-IsWord (s ∷ shifts) word (b ∷ bytes) h =
    pack_word-IsWord shifts _ bytes (bit_or-lt 32 word (b * 2 ^ s % 2 ^ 32) h (omega arith))

packed-IsHeap :
    (size : ℕ) (heap : List I32) (idx : ℕ) (bytes : List ℕ)
    → IsHeap size heap
    → IsHeap size (set heap idx (pack_word byte_shifts 0 bytes))
packed-IsHeap size heap idx bytes h =
    set-IsHeap size heap idx _ (pack_word-IsWord byte_shifts 0 bytes (omega arith)) h

pack_bytes-IsHeap :
    (size : ℕ) (bytes : List ℕ) (idx : ℕ) (heap : List I32)
    → IsHeap size heap
    → IsHeap size (pack_bytes heap idx bytes)
unfolding pack_bytes
pack_bytes-IsHeap size [] idx heap h = h
pack_bytes-IsHeap size (a ∷ []) idx heap h = packed-IsHeap size heap idx (a ∷ []) h
pack_bytes-IsHeap size (a ∷ b ∷ []) idx heap h = packed-IsHeap size heap idx (a ∷ b ∷ []) h
pack_bytes-IsHeap size (a ∷ b ∷ c ∷ []) idx heap h = packed-IsHeap size heap idx (a ∷ b ∷ c ∷ []) h
pack_bytes-IsHeap size (a ∷ b ∷ c ∷ d ∷ bytes) idx heap h =
    pack_bytes-IsHeap size bytes (idx + 1) _ (packed-IsHeap size heap idx (a ∷ b ∷ c ∷ d ∷ []) h)

place_args-IsHeap :
    (size : ℕ) (args : List (List ℕ)) (i ptr : ℕ) (heap : List I32)
    → IsHeap size heap
    → IsHeap size (place_args heap i ptr args)
unfolding place_args pack_string
place_args-IsHeap size [] i ptr heap h = h
place_args-IsHeap size (arg ∷ args) i ptr heap h =
    place_args-IsHeap size args (i + 1) _ _ (
      pack_bytes-IsHeap size (terminated arg) ptr _
        (set-IsHeap size heap (2 + i) _ (omega arith) h))

-- Where there is room for the heap, laying out the arguments does not panic. Where it succeeds, the heap has the size asked for and
-- holds words, and the program's part begins where the arguments end, within the heap.
init_heap-Returns :
    (size : ℕ) (args : List (List ℕ))
    → ltb max_words size ≡ false
    → Returns
        (λ (heap, start). IsHeap size heap × (start ≡ heap_start_of args) × (start ≤ size))
        (init_heap size args)
unfolding init_heap
init_heap-Returns size args room =
    Returns-if (ltb (2 ^ 31 - 1) (length args)) (λ _. errors)
      (λ _. elim (Option-cases (find_non_ascii args)) [
        | inr (arg, e) ↦ rw e errors
        | inl e ↦ rw e (
            Returns-if (ltb size (heap_start_of args)) (λ _. errors)
              (λ f. rw room (returns (placed, refl, not_ltb→le _ _ f))))
      ])
  where
    placed : IsHeap size (
        place_args (set (replicate size 0) 1 (as_i32 (length args))) 0 (1 + (1 + length args)) args)
    placed = place_args-IsHeap size args 0 _ _ (
        set-IsHeap size (replicate size 0) 1 _ (omega arith)
          (length-replicate size 0, All-replicate IsWord size (omega arith)))

-- Where the arguments are laid out, the heap has the size asked for and holds words, and the
-- program's part begins within it, where the arguments end.
init_heap-IsHeap :
    (size : ℕ) (args : List (List ℕ)) {heap : List I32} {start : ℕ}
    → init_heap size args ≡ ok (heap, start)
    → IsHeap size heap × (start ≡ heap_start_of args) × (start ≤ size)
init_heap-IsHeap size args {heap} {start} h = elim (Bool-cases (ltb max_words size)) [
  | inl m ↦ absurd (refused m)
  | inr m ↦ Returns-eq_ok (init_heap-Returns size args m) h
]
  where
    refused : ltb max_words size ≡ true → ⊥
    refused m = elim (Option-cases (find_non_ascii args)) [
      | inr (arg, e) ↦ unfold init_heap in ground (arith, e, h)
      | inl e ↦ unfold init_heap in ground (arith, e, h, m)
    ]

initial-started :
    (size k : ℕ) (heap : List I32) (start : ℕ) {st : State}
    → initial size k heap start ≡ ok st
    → started size k heap start ≡ st
unfolding initial
initial-started size k heap start h = ground (arith, h)

registers_length :
    (size k : ℕ) (heap : List I32) (start : ℕ) → length (started size k heap start).registers ≡ k
unfolding started
registers_length size k heap start = elim (Bool-cases (ltb 0 k)) [
  | inl e ↦ rw e (length-set _ 0 _ ∙ length-replicate k 0)
  | inr e ↦ rw e (length-replicate k 0)
]

started-Owns :
    (size k : ℕ) (heap : List I32) (start : ℕ)
    → 0 < start
    → Owns start size [] (started size k heap start)
unfolding started cover held
started-Owns size k heap start p = elim (Bool-cases (ltb start size)) [
  | inl e ↦ record {
    canonical = rw e (omega arith, omega (arith, ltb→lt _ _ e), tt);
    partition = λ a. rw e ground arith;
    entries = tt;
  }
  | inr e ↦ record { canonical = rw e tt; partition = λ a. ground (arith, e); entries = tt }
]

started-IsValid :
    (size k : ℕ) (args : List (List ℕ)) {heap : List I32} {start : ℕ}
    → init_heap size args ≡ ok (heap, start)
    → IsValid size k (started size k heap start)
unfolding started
started-IsValid size k args {heap} {start} h =
    let (valid, e, le) = init_heap-IsHeap size args h in
    record {
      heap_length = valid.0;
      register_count = registers_length size k heap start;
      heap_words = valid.1;
      register_words = elim (Bool-cases (ltb 0 k)) [
        | inl e ↦
            rw e (
              All-set IsWord (replicate k 0) 0 (All-replicate IsWord k (omega arith)) (omega arith))
        | inr e ↦ rw e (All-replicate IsWord k (omega arith))
      ];
    }

-- The heap and the registers have the sizes asked for, and hold words.
pub initial-IsValid :
    (size k : ℕ) (args : List (List ℕ)) {heap : List I32} {start : ℕ} {st : State}
    → init_heap size args ≡ ok (heap, start)
    → initial size k heap start ≡ ok st
    → IsValid size k st
initial-IsValid size k args {heap} {start} h e =
    subst (λ st. IsValid size k st) (initial-started size k heap start e)
      (started-IsValid size k args h)

-- In a program that calls `free` only with the base of a live block, from its first round on every
-- word behind the arguments is in exactly one free block or one live block.
pub program-Owns :
    (size k : ℕ) (args : List (List ℕ)) (env : Env) {heap : List I32} {start : ℕ} {i₀ i : Instr}
    {st₀ st : State} {live : Live}
    → init_heap size args ≡ ok (heap, start)
    → initial size k heap start ≡ ok st₀
    → Runs env i₀ st₀ [] i st live
    → Owns start size live st
program-Owns size k args env {heap} {start} h b r =
    let (valid, e, le) = init_heap-IsHeap size args h in
    let pos : 0 < start = omega arith in
    Runs-Owns start size pos env
      (subst (λ st. Owns start size [] st) (initial-started size k heap start b)
        (started-Owns size k heap start pos))
      r

initial_starts :
    (size k : ℕ) (heap : List I32) (start : ℕ)
    → k ≤ max_words
    → initial size k heap start ≡ ok (started size k heap start)
unfolding initial
initial_starts size k heap start q = rw (le→not_ltb max_words k q) refl

eval_from-ne-panic :
    (fuel k : ℕ) (env : Env) (st : State)
    → IsSafeEnv k env
    → length st.registers ≡ k
    → eval_from fuel env (ok st) ≢ some panic
unfolding eval_from
eval_from-ne-panic fuel k env st w n = elim (Option-cases (lookup 0 env)) [
  | inl e ↦ rw (e, eval_from) (λ p. cc)
  | inr (i, e) ↦
      rw (e, eval_from) (eval_rec-ne-panic k env w fuel i st (lookup-IsSafeInstr k env 0 w e) n)
]

-- A program whose registers exist and that has no `/` and no `%` never panics, whatever its
-- arguments and the fuel, where there is room for its heap and its registers.
pub eval-ne-panic :
    (fuel size k : ℕ) (env : Env) (args : List (List ℕ))
    → size ≤ max_words
    → k ≤ max_words
    → IsSafeEnv k env
    → eval fuel size k env args ≢ some panic
unfolding eval
eval-ne-panic fuel size k env args p q w =
    after (init_heap size args) (init_heap-Returns size args (le→not_ltb max_words size p))
  where
    after :
        {P : List I32 × ℕ → Type 0} (r : Run (List I32 × ℕ))
        → Returns P r
        → elim r [
          | err e ↦ some (err e)
          | panic ↦ some panic
          | ok (heap, heap_start) ↦ eval_from fuel env (initial size k heap heap_start)
        ]
          ≢ some panic
    after (err e) h = λ p. cc
    after panic h = absurd (Returns-ne-panic h)
    after (ok (heap, start)) h =
        subst (λ r. eval_from fuel env r ≢ some panic) (sym (initial_starts size k heap start q))
          (eval_from-ne-panic fuel k env _ w (registers_length size k heap start))
