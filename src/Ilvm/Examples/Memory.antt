-- ===== src/Ilvm/Examples/Memory.antt =====
-- The allocator and the arithmetic on concrete inputs.
use plbench.Prelude.{ℕ, ◌+◌, ◌-◌, ◌^◌, ◌/◌, ◌%◌, ◌≤◌, ◌<◌, ◌≡◌, refl, ◌≢◌, ◌↔◌, none, some, arith}
use plbench.Prelude.Int.{pos, ◌+ℤ◌, ◌-ℤ◌, ◌*ℤ◌}
use plbench.Ilvm.Syntax.{I32, Op2, add, sub, mul, div, modulo, shl, shr, u_shr}
use plbench.Ilvm.Word.{signed, wrap}
use plbench.Ilvm.Op.{eval_op2}
use plbench.Ilvm.Op.Laws.{eval_op2_wraps, eval_op2_shifts, floor_div}
use plbench.Ilvm.Op.Panics.{Divides, eval_op2-panic_iff}
use plbench.Ilvm.Op.Division.{eval_op2_divides, size}
use plbench.Ilvm.Alloc.{FreeList, nil, node, malloc, free}
use plbench.Ilvm.Alloc.Cover.{within, cover, malloc-cover, free-cover}
use plbench.Ilvm.Alloc.FirstFit.{Allocates, malloc_iff}
use plbench.Ilvm.Alloc.Canonical.{IsCanonical, IsApart, malloc-IsCanonical, free-IsCanonical}
use plbench.Ilvm.Alloc.RoundTrip.{free-malloc, malloc_finds_room}
use plbench.Ilvm.Alloc.Commute.{free_comm}

-- Two free blocks, the words 3 to 6 and 10 to 14.
abbrev two_blocks : FreeList
two_blocks = node 3 4 (node 10 5 nil)

abbrev second_allocated : FreeList
second_allocated = node 3 4 nil

two_blocks-IsCanonical : IsCanonical 2 two_blocks
two_blocks-IsCanonical = (omega arith, omega arith, (omega arith, omega arith, tt))

malloc_second : malloc two_blocks 5 ≡ some (second_allocated, 10)
unfolding malloc
malloc_second = refl

second_free : IsApart second_allocated 10 5
unfolding cover
second_free a = ground arith

free_second : free second_allocated 10 5 ≡ two_blocks
unfolding free
free_second = refl

-- Freeing the words between two blocks joins all three.
free_between : free two_blocks 7 3 ≡ node 3 12 nil
unfolding free
free_between = refl

no_room : malloc two_blocks 6 ≡ none
unfolding malloc
no_room = refl

malloc-cover_example : cover two_blocks 12 ≡ within 10 5 12 + cover second_allocated 12
malloc-cover_example = malloc-cover two_blocks 5 12 malloc_second

free-cover_example : cover (free two_blocks 7 3) 8 ≡ within 7 3 8 + cover two_blocks 8
free-cover_example = free-cover two_blocks 7 3 8

malloc_iff_example :
    (malloc two_blocks 5 ≡ some (second_allocated, 10)) ↔ Allocates 5 two_blocks second_allocated 10
malloc_iff_example = malloc_iff two_blocks second_allocated 5 10

malloc-IsCanonical_example : (2 < 10) × IsCanonical 2 second_allocated
malloc-IsCanonical_example =
    malloc-IsCanonical two_blocks 5 (omega arith) two_blocks-IsCanonical malloc_second

free-IsCanonical_example : IsCanonical 2 (free second_allocated 10 5)
free-IsCanonical_example =
    free-IsCanonical second_allocated 10 5 (omega arith) (omega arith)
      (omega arith, omega arith, tt) second_free

free-malloc_example : free second_allocated 10 5 ≡ two_blocks
free-malloc_example = free-malloc two_blocks 5 2 (omega arith) two_blocks-IsCanonical malloc_second

free_comm_example : free (free nil 3 4) 10 5 ≡ free (free nil 10 5) 3 4
free_comm_example =
    free_comm nil {lo = 2} tt 3 4 10 5 (omega arith) (omega arith) (omega arith) (omega arith)
      (unfold cover in λ a. ground arith)

run_of_five : (a : ℕ) → 10 ≤ a → a < 10 + 5 → 0 < cover two_blocks a
unfolding cover
run_of_five a p q = ground arith

malloc_finds_room_example : malloc two_blocks 5 ≢ none
malloc_finds_room_example =
    malloc_finds_room two_blocks 5 10 2 (omega arith) two_blocks-IsCanonical run_of_five

-- The patterns of -7 and -2.
abbrev minus_seven : I32
minus_seven = 2 ^ 32 - 7

abbrev minus_two : I32
minus_two = 2 ^ 32 - 2

quotient : eval_op2 div minus_seven 2 ≡ some (2 ^ 32 - 3)
unfolding eval_op2
quotient = refl

remainder : eval_op2 modulo minus_seven 2 ≡ some (2 ^ 32 - 1)
unfolding eval_op2
remainder = refl

sum : eval_op2 add minus_seven 5 ≡ some minus_two
unfolding eval_op2
sum = refl

eval_op2_wraps_example :
    (eval_op2 add minus_seven 3 ≡ some (wrap (signed minus_seven +ℤ signed 3)))
    × (eval_op2 sub minus_seven 3 ≡ some (wrap (signed minus_seven -ℤ signed 3)))
    × (eval_op2 mul minus_seven 3 ≡ some (wrap (signed minus_seven *ℤ signed 3)))
eval_op2_wraps_example = eval_op2_wraps minus_seven 3 (omega arith) (omega arith)

eval_op2_shifts_example :
    (eval_op2 shl minus_seven 33 ≡ some (wrap (signed minus_seven *ℤ pos (2 ^ (33 % 32)))))
    × ((w : I32) × (eval_op2 shr minus_seven 33 ≡ some w)
        × (signed w ≡ floor_div (signed minus_seven) (2 ^ (33 % 32))))
    × (eval_op2 u_shr minus_seven 33 ≡ some (minus_seven / 2 ^ (33 % 32)))
eval_op2_shifts_example = eval_op2_shifts minus_seven 33 (omega arith)

abbrev no_value : I32
no_value = 0

abbrev seven : I32
seven = 7

eval_op2-panic_iff_example :
    ((eval_op2 div seven no_value ≡ none) ↔ (Divides seven no_value → ⊥))
    × ((eval_op2 modulo seven no_value ≡ none) ↔ (Divides seven no_value → ⊥))
    × ((op : Op2) → op ≢ div → op ≢ modulo → eval_op2 op seven no_value ≢ none)
eval_op2-panic_iff_example = eval_op2-panic_iff seven no_value (omega arith) (omega arith)

eval_op2_divides_example :
    (q r : I32) × (eval_op2 div minus_seven 2 ≡ some q)
    × (eval_op2 modulo minus_seven 2 ≡ some r)
    × (signed minus_seven ≡ signed q *ℤ signed 2 +ℤ signed r)
    × (size (signed r) < size (signed 2))
eval_op2_divides_example = eval_op2_divides minus_seven 2 (omega arith) (omega arith) refl
