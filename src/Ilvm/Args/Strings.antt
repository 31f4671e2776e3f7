-- ===== src/Ilvm/Args/Strings.antt =====
-- eval.rs, `init_heap` and `print_str`: the arguments of the command line as a program finds them.
use plbench.Prelude.{
  ℕ, zero, suc, ◌+◌, ◌-◌, ◌^◌, ◌≤◌, ◌<◌, ◌≡◌, refl, ap, ◌∙◌, inl, inr, List, [], ◌∷◌, some, arith,
  ltb, not_ltb→le, Bool-cases, Option-cases, length, get_elem?, set, drop, replicate, All,
  All-get_elem?, get_elem?-set_self, get_elem?-set_ne, length-set, length-replicate,
}
use plbench.Ilvm.Syntax.{I32, Val}
use plbench.Ilvm.Word.{as_usize, as_i32, as_usize-as_i32}
use plbench.Ilvm.Run.{ok}
use plbench.Ilvm.State.{State, Output, eval_val}
use plbench.Ilvm.Print.{print_line, print_str, scan_words}
use plbench.Ilvm.Args.{
  pack_string, terminated, string_words, total_words, place_args, find_non_ascii, heap_start_of,
  init_heap, max_words,
}
use plbench.Ilvm.Args.Region.{Region, Region-set_below}
use plbench.Ilvm.Args.Packed.{words, IsByte, IsTextByte}
use plbench.Ilvm.Args.Layout.{
  write_words, pack_bytes-words, length-write_words, write_words-below, write_words-Region,
  write_words-keeps,
}
use plbench.Ilvm.Args.Scanned.{scan_words-words}

-- A text that is printed whole.
abbrev pub IsText : List ℕ → Type 0
IsText = All IsTextByte

-- The words of a text and the 0 behind it.
abbrev text_words : List ℕ → List I32
text_words s = words (terminated s)

length-text_words : (s : List ℕ) → length (text_words s) ≡ string_words s
unfolding words string_words
length-text_words [] = refl
length-text_words (a ∷ []) = refl
length-text_words (a ∷ b ∷ []) = refl
length-text_words (a ∷ b ∷ c ∷ []) = refl
length-text_words (a ∷ b ∷ c ∷ d ∷ s) = omega (arith, length-text_words s)

terminated-IsByte : (s : List ℕ) → IsText s → All IsByte (terminated s)
terminated-IsByte [] h = (omega arith, tt)
terminated-IsByte (b ∷ s) h = (omega arith, terminated-IsByte s h.1)

pack_string-words :
    (heap : List I32) (idx : ℕ) (s : List ℕ)
    → IsText s
    → pack_string heap idx s ≡ write_words heap idx (text_words s)
unfolding pack_string
pack_string-words heap idx s h = pack_bytes-words (terminated s) heap idx (terminated-IsByte s h)

-- The heap with one argument's pointer and text.
with_arg : List I32 → ℕ → ℕ → List ℕ → List I32
with_arg heap i ptr arg = write_words (set heap (2 + i) (as_i32 ptr)) ptr (text_words arg)

length-with_arg :
    (heap : List I32) (i ptr : ℕ) (arg : List ℕ) → length (with_arg heap i ptr arg) ≡ length heap
unfolding with_arg
length-with_arg heap i ptr arg =
    length-write_words (text_words arg) _ ptr ∙ length-set heap (2 + i) _

place_args-cons :
    (heap : List I32) (i ptr : ℕ) (arg : List ℕ) (args : List (List ℕ))
    → IsText arg
    → place_args heap i ptr (arg ∷ args)
      ≡ place_args (with_arg heap i ptr arg) (i + 1) (ptr + string_words arg) args
unfolding place_args with_arg
place_args-cons heap i ptr arg args h =
    ap (λ (heap' : List I32). place_args heap' (i + 1) (ptr + string_words arg) args)
      (pack_string-words _ ptr arg h)

-- The later arguments leave the earlier pointers alone.
place_args-below :
    (args : List (List ℕ)) (heap : List I32) (i ptr j : ℕ)
    → All IsText args
    → j < 2 + i
    → j < ptr
    → get_elem? (place_args heap i ptr args) j ≡ get_elem? heap j
unfolding place_args with_arg
place_args-below [] heap i ptr j h p q = refl
place_args-below (arg ∷ args) heap i ptr j h p q =
    ap (λ (heap' : List I32). get_elem? heap' j) (place_args-cons heap i ptr arg args h.0)
    ∙ place_args-below args (with_arg heap i ptr arg) (i + 1) (ptr + string_words arg) j h.1
        (omega arith) (omega arith)
    ∙ write_words-below (text_words arg) _ ptr j q
    ∙ get_elem?-set_ne heap {i = 2 + i} {j = j} _ (λ e. omega arith)

-- They leave the earlier texts alone.
place_args-keeps :
    (args : List (List ℕ)) (heap : List I32) (i ptr p : ℕ) (run : List I32)
    → All IsText args
    → 2 + i + length args ≤ p
    → p + length run ≤ ptr
    → Region heap p run
    → Region (place_args heap i ptr args) p run
unfolding place_args with_arg
place_args-keeps [] heap i ptr p run h a b r = r
place_args-keeps (arg ∷ args) heap i ptr p run h a b r =
    rw (place_args-cons heap i ptr arg args h.0) (
      place_args-keeps args (with_arg heap i ptr arg) (i + 1) (ptr + string_words arg) p run h.1
        (omega arith) (omega arith)
        (write_words-keeps (text_words arg) _ ptr p run b
          (Region-set_below heap p run (2 + i) _ (omega arith) r)))

place_args-first :
    (args : List (List ℕ)) (arg : List ℕ) (heap : List I32) (i ptr k : ℕ)
    → All IsText (arg ∷ args)
    → 2 + i + suc (length args) ≤ ptr
    → ptr + string_words arg ≤ length heap
    → k ≡ 2 + i
    → (get_elem? (place_args heap i ptr (arg ∷ args)) k ≡ some (as_i32 ptr))
      × Region (place_args heap i ptr (arg ∷ args)) ptr (text_words arg)
unfolding with_arg
place_args-first args arg heap i ptr k h a b q =
    let heap1 = set heap (2 + i) (as_i32 ptr) in
    let n = length-text_words arg in
    let room : ptr + length (text_words arg) ≤ length heap1 =
      omega (arith, length-set heap (2 + i) (as_i32 ptr)) in
    rw (place_args-cons heap i ptr arg args h.0, q)
      (
        place_args-below args _ (i + 1) (ptr + string_words arg) (2 + i) h.1 (omega arith)
              (omega arith)
            ∙ write_words-below (text_words arg) heap1 ptr (2 + i) (omega arith)
            ∙ get_elem?-set_self heap (2 + i) _ (omega arith),
        place_args-keeps args _ (i + 1) (ptr + string_words arg) ptr (text_words arg) h.1
            (omega arith) (omega arith) (write_words-Region (text_words arg) heap1 ptr room),
      )

string_words_pos : (s : List ℕ) → 0 < string_words s
unfolding string_words
string_words_pos s = omega arith

-- The `j`-th argument: its pointer is in the table, and its text where the pointer says.
place_args-lays :
    (args : List (List ℕ)) (heap : List I32) (i ptr j k : ℕ) {s : List ℕ}
    → All IsText args
    → 2 + i + length args ≤ ptr
    → ptr + total_words args ≤ length heap
    → get_elem? args j ≡ some s
    → k ≡ 2 + i + j
    → (p : ℕ) × (p < length heap)
      × (get_elem? (place_args heap i ptr args) k ≡ some (as_i32 p))
      × Region (place_args heap i ptr args) p (text_words s)
unfolding total_words
place_args-lays [] heap i ptr j k h a b e q = cc
place_args-lays (arg ∷ args) heap i ptr zero k {s} h a b e q =
    let same : arg ≡ s = cc e in
    let (slot, run) = place_args-first args arg heap i ptr k h a (omega arith) (omega arith) in
    (ptr, omega (arith, string_words_pos arg), slot, rw (← same) run)
place_args-lays (arg ∷ args) heap i ptr (suc j) k h a b e q =
    let n = length-with_arg heap i ptr arg in
    let (p, lt, slot, run) =
      place_args-lays args (with_arg heap i ptr arg) (i + 1) (ptr + string_words arg) j k h.1
        (omega arith) (omega arith) e (omega arith) in
    rw (place_args-cons heap i ptr arg args h.0) (p, omega arith, slot, run)

-- What `init_heap` returns, where it returns.
init_heap-lays :
    (size : ℕ) (args : List (List ℕ)) {heap : List I32} {start : ℕ}
    → init_heap size args ≡ ok (heap, start)
    → (place_args (set (replicate size 0) 1 (as_i32 (length args))) 0 (1 + (1 + length args)) args
        ≡ heap)
      × (1 + (1 + length args) + total_words args ≤ size)
unfolding init_heap
init_heap-lays size args h = elim (Option-cases (find_non_ascii args)) [
  | inr (arg, e) ↦ absurd (ground (arith, e))
  | inl e ↦ elim (Bool-cases (ltb (2 ^ 31 - 1) (length args))) [
    | inl f ↦ absurd (ground (arith, f))
    | inr f ↦ elim (Bool-cases (ltb size (heap_start_of args))) [
      | inl g ↦ absurd (ground (arith, e, f, g))
      | inr g ↦ elim (Bool-cases (ltb max_words size)) [
        | inl m ↦ absurd (ground (arith, e, f, g, m))
        | inr m ↦ (ground (arith, e, f, g, m), not_ltb→le _ _ g)
      ]
    ]
  ]
]

-- Word 1 of the heap that a program starts with is the number of its arguments, and the words from 2
-- on point to their texts.
pub init_heap-argv :
    (size : ℕ) (args : List (List ℕ)) (j : ℕ) {heap : List I32} {start : ℕ} {s : List ℕ}
    → init_heap size args ≡ ok (heap, start)
    → All IsText args
    → get_elem? args j ≡ some s
    → (get_elem? heap 1 ≡ some (as_i32 (length args)))
      × ((p : ℕ) × (p < size)
          × (get_elem? heap (2 + j) ≡ some (as_i32 p))
          × Region heap p (words (terminated s)))
init_heap-argv size args j {heap} {start} h texts e =
    let (same, room) = init_heap-lays size args h in
    let heap0 = set (replicate size 0) 1 (as_i32 (length args)) in
    let n : length heap0 ≡ size = length-set (replicate size 0) 1 _ ∙ length-replicate size 0 in
    let ptr = 1 + (1 + length args) in
    let (p, lt, slot, run) =
      place_args-lays args heap0 0 ptr j (2 + j) texts (omega arith) (omega arith) e
        (omega arith) in
    rw (← same) (
      place_args-below args heap0 0 ptr 1 texts (omega arith) (omega arith)
          ∙ get_elem?-set_self (replicate size 0) 1 _
              (omega (arith, length-replicate {A = I32} size 0)),
      (p, omega arith, slot, run),
    )

-- Where the heap is still what the program started with and has at most 2 ^ 31 words, `print_str` of
-- the word at 2 + j prints the `j`-th argument, provided that the arguments have no byte 0.
pub print_str-argument :
    (size : ℕ) (args : List (List ℕ)) (j : ℕ) (st : State) (v : Val) {start : ℕ} {s : List ℕ}
    {w : I32}
    → init_heap size args ≡ ok (st.heap, start)
    → size ≤ 2 ^ 31
    → All IsText args
    → get_elem? args j ≡ some s
    → get_elem? st.heap (2 + j) ≡ some w
    → eval_val st.registers v ≡ ok w
    → print_str st v ≡ ok (print_line (Output.text s) st)
unfolding print_str
print_str-argument size args j st v {start} {s} {w} h small texts e slot read =
    let (_, (p, lt, slot', (rest, run))) = init_heap-argv size args j h texts e in
    let word : w ≡ as_i32 p = cc (slot, slot') in
    let address : as_usize w ≡ p = ap as_usize word ∙ as_usize-as_i32 p (omega arith) in
    let scanned : scan_words v (drop (as_usize w) st.heap) (as_usize w) [] ≡ ok s =
      rw (address, run)
        (scan_words-words v s p [] rest (All-get_elem? IsText args j texts e) refl) in
    rw (read, scanned) refl
