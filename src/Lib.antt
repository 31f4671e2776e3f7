-- ===== src/Lib.antt =====
-- Two programs, as executable definitions with their theorems: the ILVM interpreter of
-- tasks/ilvm-interpreter/solution/ilvm, and parts of the type migration tool TypeWhich of
-- tasks/gradual-type-migration/solution/typewhich. A source file named below stands in the folder
-- src/ of its program. The programs do not interact.
--
-- ILVM: the interpreter reads a program of numbered blocks, checks the numbers (tc.rs), lays out
-- the command line's arguments at the low end of a heap of 32-bit words, and runs block 0
-- (eval.rs). A block is a tree of instructions; `goto` looks its target up in the table of
-- blocks. `malloc` and `free` serve words of the heap from a list of free blocks, and a table of
-- allocations remembers their sizes.
--
-- The files, and what they model:
--
--   Prelude: Boolean tests, lists and association lists over the native numbers, integers, and
--     bounds of the bitwise operations.
--   Ilvm/Syntax, Ilvm/Run: syntax.rs and error.rs; an outcome is a result, an error, or a panic.
--   Ilvm/Word, Ilvm/Op: `eval_op1` and `eval_op2` of eval.rs on two's complement patterns.
--   Ilvm/Alloc: `FreeList`, `malloc` and `free` of eval.rs.
--   Ilvm/State, Ilvm/Print, Ilvm/Machine: `State`, `print_printable`, `print_str` and `eval_rec`
--     of eval.rs. `step` is the body of the loop, one function for every instruction, and
--     `eval_rec` the loop.
--   Ilvm/Parser: parser.rs. Token has the tokens, Nom and Text what is used of the crate nom,
--     Values, Instr and Blocks the parser over tokens, Lexer the lexer and Whole `parse`; Grammar
--     and Lexemes have the language independently of them, with the program without blocks in it.
--   Ilvm/Main: `parse_cli_args` and `parse_and_eval` of main.rs.
--   Ilvm/Args, Ilvm/Eval: `init_heap`, `pack_string` and `eval` of eval.rs, and tc.rs.
--   TypeWhich/Syntax: the data types of syntax.rs, `Lit::typ`, `UnOp::typ` and `BinOp::typ`.
--   TypeWhich/Outcome, TypeWhich/TypeCheck: `tcheck` of type_check.rs, in all its cases, and the
--     typing rules that its comments state, with the second type of a pair for `snd`.
--   TypeWhich/Precision: `typ_lt` and `exp_lt` of precision.rs, where the equality of floats is a
--     parameter.
--   TypeWhich/Coercions: `coerce` of insert_coercions.rs and `Coerce::seq` of syntax.rs.
--   TypeWhich/Insertion: `ins` and `insert_coercions` of insert_coercions.rs.
--   TypeWhich/Types, TypeWhich/Builders: the methods of `Typ`, and the functions of `Exp` that
--     build expressions, of syntax.rs.
--   TypeWhich/Fresh, TypeWhich/Matching: `fresh_types` and `matches_roughly` of syntax.rs, and
--     the counter of metavariables of parser.rs.
--   TypeWhich/InsAndOuts: of ins_and_outs, the types with their kinds (syntax.rs), the
--     translation of programs (to_from_portable_ast.rs), the collection of coercions
--     (collect_coercions.rs), and the least upper bounds in `solve_closure` (solve.rs). A set of
--     flows is a list, and a table is read at one key.
--   TypeWhich/Z3: the data type of z3_state.rs, and what is used of the crate z3.
--   TypeWhich/Migration: cgen.rs. Migration has the state and the constraints that `strengthen`
--     and `weaken` make, Generate `cgen`, Annotate `annotate`, and Solve the reading of a model
--     and `typeinf_options`.
--   TypeWhich/Eval: `eval_k` and `eval` of eval.rs, with the types of programs with coercions and
--     of values.
--   Ilvm/Examples, TypeWhich/Examples: the operations on concrete inputs.
--
-- An `i32` is its bit pattern, a number below 2 ^ 32; `signed` gives the integer it stands for. A
-- `usize` is a number, with the wrap-around at 2 ^ 64 written out where an address from the
-- program is added to. Addition, subtraction, multiplication and shifts wrap as in the release
-- build that the task makes; `/` and `%` panic where Rust does. The hash maps are association
-- lists, whose first entry of a key counts. Standard output is a list of lines, a line being what
-- it shows, not its characters; an error holds the values that its message shows.
--
-- The parser takes nom's combinators as parameters, records of functions with the documented
-- behaviour of each. A parser returns the rest of the input and a value, or nothing; what nom's
-- errors say of the place is left out. Instructions nest, so their parser runs on fuel, one more
-- than there are tokens, of which every nested call needs fewer; the loops over blocks and over
-- characters have as much fuel as tokens and characters, of which every round takes at least one.
-- Files are a parameter.
--
-- The loop of `eval_rec` runs on fuel, and is `none` where the fuel does not suffice: a program
-- can run forever. The runs of the machine are also stated as a relation without fuel. A heap or
-- a register file of more than 2 ^ 61 - 1 words is a panic, as on a 64-bit target; that memory
-- runs out below that is left out.
--
-- TypeWhich: the type checker is given an expression with type annotations and an environment, a
-- list whose first entry of a name counts, as a later insertion into the hash map does. Where two
-- types differ that should match, it panics, as the constant `PANIC_ON_MISMATCH` has it; its
-- other refusals are values. The calls of `coerce` swap the two types, so it runs on fuel: as
-- much as the types have constructors, of which every call takes away at least one. The evaluator
-- runs on fuel for the depth of its calls, since programs can diverge; that the fuel ends is an
-- outcome of its own. The counter of metavariables is passed along, and wraps at 2 ^ 32. The Z3
-- solver is a parameter: a record of the operations that build terms and formulas, of the values
-- and truth in a model, and of the check of assertions, with what the documentation of Z3 says of
-- each. The pushing and popping of assertions is the list of what is asserted at each check. The
-- reading of a type in a model goes down the value of its term, so its fuel is the depth of that
-- value. Integers and floats of literals are bit patterns, and characters are code points.
--
-- Not modelled: of ILVM, the options of the command line, which the crate clap handles, and the
-- exit of the process (main.rs); of TypeWhich, the parser and the printers (generated tables and
-- text), and the driver, and of ins_and_outs the closure of flows and the decoration of programs.
pub mod Prelude
pub mod Ilvm
pub mod TypeWhich
