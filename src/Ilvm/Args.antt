-- ===== src/Ilvm/Args.antt =====
-- eval.rs, `string_words`, `pack_string` and `init_heap`: the command line's arguments at the low
-- end of the heap. An argument is the list of its bytes.
pub mod Region
pub mod Packed
pub mod Scanned
pub mod Layout
pub mod Strings
use Prim.Native.Nat.{bit_or}
use plbench.Prelude.{
  ℕ, ◌+◌, ◌-◌, ◌*◌, ◌/◌, ◌%◌, ◌^◌, List, [], ◌∷◌, Option, none, some, ltb, if◌then◌else◌, length,
  set, replicate,
}
use plbench.Ilvm.Syntax.{I32}
use plbench.Ilvm.Word.{as_i32}
use plbench.Ilvm.Run.{
  Run, ok, err, panic, usage, runtime, too_many_arguments, argument_not_ascii,
  no_heap_for_arguments,
}
use plbench.Ilvm.Print.{all_ascii, byte_shifts}

-- The words that hold the bytes and the 0 after them.
unfoldable pub string_words : List ℕ → ℕ
string_words s = (length s + 1 + 3) / 4

-- The inner loop of `pack_string`: `word |= byte << shift`, as long as there are bytes.
unfoldable pub pack_word : List ℕ → I32 → List ℕ → I32
pack_word (shift ∷ shifts) word (byte ∷ bytes) =
    pack_word shifts (bit_or word (byte * 2 ^ shift % 2 ^ 32)) bytes
pack_word shifts word bytes = word

-- The outer loop: each round takes up to four bytes, and stops where none is left.
unfoldable pub pack_bytes : List I32 → ℕ → List ℕ → List I32
unfolding pack_word
pack_bytes heap idx [] = heap
pack_bytes heap idx (a ∷ []) = set heap idx (pack_word byte_shifts 0 (a ∷ []))
pack_bytes heap idx (a ∷ b ∷ []) = set heap idx (pack_word byte_shifts 0 (a ∷ b ∷ []))
pack_bytes heap idx (a ∷ b ∷ c ∷ []) = set heap idx (pack_word byte_shifts 0 (a ∷ b ∷ c ∷ []))
pack_bytes heap idx (a ∷ b ∷ c ∷ d ∷ bytes) =
    pack_bytes (set heap idx (pack_word byte_shifts 0 (a ∷ b ∷ c ∷ d ∷ []))) (idx + 1) bytes

-- The bytes of the text, then one 0.
abbrev pub terminated : List ℕ → List ℕ
terminated [] = 0 ∷ []
terminated (b ∷ bs) = b ∷ terminated bs

unfoldable pub pack_string : List I32 → ℕ → List ℕ → List I32
unfolding pack_bytes
pack_string heap word_idx s = pack_bytes heap word_idx (terminated s)

unfoldable pub total_words : List (List ℕ) → ℕ
unfolding string_words
total_words [] = 0
total_words (arg ∷ args) = string_words arg + total_words args

-- The first argument with a byte that is not ASCII.
unfoldable pub find_non_ascii : List (List ℕ) → Option (List ℕ)
find_non_ascii [] = none
find_non_ascii (arg ∷ args) = if all_ascii arg then find_non_ascii args else some arg

-- The loop over the arguments: the pointer of the `i`-th one, and its text.
unfoldable pub place_args : List I32 → ℕ → ℕ → List (List ℕ) → List I32
unfolding pack_string string_words
place_args heap i string_ptr [] = heap
place_args heap i string_ptr (arg ∷ args) =
    place_args (pack_string (set heap (2 + i) (as_i32 string_ptr)) string_ptr arg) (i + 1)
      (string_ptr + string_words arg) args

abbrev pub heap_start_of : List (List ℕ) → ℕ
heap_start_of cli_args = 1 + (1 + length cli_args) + total_words cli_args

-- The most words that `vec![0; n]` makes room for: with more bytes than 2 ^ 63 - 1 it panics.
abbrev pub max_words : ℕ
max_words = 2 ^ 61 - 1

-- The heap, and the first address behind the arguments. Every write is in bounds, since the heap is
-- at least `heap_start` words long.
unfoldable pub init_heap : ℕ → List (List ℕ) → Run (List I32 × ℕ)
unfolding find_non_ascii place_args total_words
init_heap heap_size cli_args =
    let placed =
      place_args (set (replicate heap_size 0) 1 (as_i32 (length cli_args))) 0
        (1 + (1 + length cli_args)) cli_args in
    if ltb (2 ^ 31 - 1) (length cli_args)
    then err (usage too_many_arguments)
    else elim (find_non_ascii cli_args) [
      | some arg ↦ err (usage (argument_not_ascii arg))
      | none ↦
          if ltb heap_size (heap_start_of cli_args)
          then err (runtime no_heap_for_arguments)
          else if ltb max_words heap_size
          then panic
          else ok (placed, heap_start_of cli_args)
    ]
