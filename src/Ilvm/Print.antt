-- ===== src/Ilvm/Print.antt =====
-- eval.rs, `print_printable` and `print_str`.
use plbench.Prelude.{
  ℕ, ◌+◌, ◌/◌, ◌%◌, ◌^◌, Bool, true, ◌&&◌, List, [], ◌∷◌, ◌++◌, ltb, leb, ◌==◌, if◌then◌else◌,
  length, drop,
}
use plbench.Ilvm.Syntax.{I32, Val, Printable, id, val, array}
use plbench.Ilvm.Word.{as_usize, add_usize}
use plbench.Ilvm.Run.{Run, ok, err, ◌>>=◌, runtime, non_ascii, print_str_address}
use plbench.Ilvm.State.{Output, State, eval_val}

abbrev pub print_line : Output → State → State
print_line o st = record st { stdout = o ∷ st.stdout }

unfoldable pub print_printable : State → Printable → Run State
unfolding eval_val
print_printable st (id s) = ok (print_line (Output.id s) st)
print_printable st (val v) = do n ← eval_val st.registers v; ok (print_line (Output.number n) st)
print_printable st (array v1 v2) = do
  m ← eval_val st.registers v1
  n ← eval_val st.registers v2
  let ptr = as_usize m
  let end = add_usize ptr (as_usize n)
  let invalid = leb (length st.heap) end
  ok (print_line (if invalid then Output.invalid_address end else Output.addresses ptr end) st)

-- The byte of the word at a shift: `(word >> shift) & 0xff`.
abbrev pub byte_at : I32 → ℕ → ℕ
byte_at word shift = word / 2 ^ shift % 256

abbrev pub all_ascii : List ℕ → Bool
all_ascii [] = true
all_ascii (b ∷ bs) = ltb b 128 && all_ascii bs

-- What one word adds to the bytes read so far: the string is complete, or reading goes on.
pub data Scan : Type 0 where
  complete : List ℕ → Scan
  more : List ℕ → Scan
  refused : Scan

-- The inner loop, over the shifts that are left.
unfoldable pub scan_word : I32 → List ℕ → List ℕ → Scan
scan_word word [] bytes = more bytes
scan_word word (shift ∷ shifts) bytes =
    let rest = scan_word word shifts (bytes ++ byte_at word shift ∷ []) in
    if byte_at word shift == 0
    then (if all_ascii bytes then complete bytes else refused)
    else if ltb (byte_at word shift) 128
    then rest
    else refused

abbrev pub byte_shifts : List ℕ
byte_shifts = 24 ∷ 16 ∷ 8 ∷ 0 ∷ []

-- The outer loop, over the words of the heap from `word_idx` on. No word left is an address that is
-- not valid. A complete string is ASCII, so `String::from_utf8` accepts it.
unfoldable pub scan_words : Val → List I32 → ℕ → List ℕ → Run (List ℕ)
unfolding scan_word
scan_words v [] word_idx bytes = err (runtime (print_str_address v word_idx))
scan_words v (word ∷ words) word_idx bytes = elim (scan_word word byte_shifts bytes) [
  | complete s ↦ ok s
  | more bytes' ↦ scan_words v words (word_idx + 1) bytes'
  | refused ↦ err (runtime non_ascii)
]

unfoldable pub print_str : State → Val → Run State
unfolding eval_val scan_words
print_str st v = do
  n ← eval_val st.registers v
  s ← scan_words v (drop (as_usize n) st.heap) (as_usize n) []
  ok (print_line (Output.text s) st)
