-- ===== src/Ilvm/Machine/Discipline.antt =====
-- eval.rs, the `Malloc` and `Free` cases of `eval_rec`: the live blocks before and after a round.
use plbench.Prelude.{
  ℕ, ◌+◌, ◌-◌, ◌<◌, ◌≤◌, ◌≡◌, inl, inr, List, ◌∷◌, true, false, none, some, arith, ltb, ◌==◌,
  if◌then◌else◌, Option-cases, Bool-cases, ==_refl, length,
}
use plbench.Prelude.Assoc.{lookup, insert, lookup-insert}
use plbench.Ilvm.Syntax.{I32, Instr, malloc, free, reg}
use plbench.Ilvm.Alloc as Alloc
use plbench.Ilvm.Alloc.{FreeList}
use plbench.Ilvm.Alloc.Cover.{malloc-cover, free-cover}
use plbench.Ilvm.Alloc.Canonical.{malloc-IsCanonical, free-IsCanonical}
use plbench.Ilvm.Run.{
  Run, ok, err, panic, ◌>>=◌, Ensures, holds, fails, panics, Ensures-bind, Ensures-if,
}
use plbench.Ilvm.Word.{as_i32, as_usize}
use plbench.Ilvm.State.{State, Output, eval_val, set_register}
use plbench.Ilvm.Print as Print
use plbench.Ilvm.Machine.{Env, Next, goes_on, exits, run_malloc}
use plbench.Ilvm.Machine.Owns.{
  Live, held, remove, Owns, IsEntry, held-remove, All-remove, All-lookup, All-insert,
}

module _ (start end : ℕ) (pos : 0 < start) where
  -- The block that `malloc` hands out joins the live ones.
  module _ (st : State) (live : Live) (o : Owns start end live st) (n ptr : ℕ) (fl : FreeList)
      (size : 0 < n) (got : Alloc.malloc st.free_list n ≡ some (fl, ptr)) where
    block_unheld : held live ptr ≡ 0
    block_unheld = ground (arith, o.partition ptr, malloc-cover st.free_list n ptr got)

    block_bounds : (start ≤ ptr) × (ptr + n ≤ end)
    block_bounds = (
      omega (arith, (malloc-IsCanonical st.free_list n size o.canonical got).0),
      ground (arith, o.partition (ptr + n - 1), malloc-cover st.free_list n (ptr + n - 1) got),
    )

    after_malloc :
        (regs : List I32)
        → Owns start end ((ptr, n) ∷ live) (record st {
          registers = regs;
          free_list = fl;
          alloc_blocks = insert ptr n st.alloc_blocks;
        })
    unfolding held
    after_malloc regs = record {
      canonical = (malloc-IsCanonical st.free_list n size o.canonical got).1;
      partition = λ a. omega (arith, o.partition a, malloc-cover st.free_list n a got);
      entries = (
        (ground (arith, lookup-insert ptr ptr n st.alloc_blocks, ==_refl ptr), size),
        All-insert st.alloc_blocks live ptr n block_unheld o.entries,
      );
    }

  -- The block that `free` takes leaves the live ones.
  pub after_free :
      (st : State) (live : Live) (ptr n : ℕ)
      → Owns start end live st
      → lookup ptr live ≡ some n
      → Owns start end (remove ptr live) (record st { free_list = Alloc.free st.free_list ptr n })
  after_free st live ptr n o e =
      let (entry, size) = All-lookup st.alloc_blocks live ptr n o.entries e in
      record {
        canonical =
            free-IsCanonical st.free_list ptr n size
              (ground (arith, o.partition ptr, held-remove live ptr n ptr e)) o.canonical
              (λ a. ground (arith, o.partition a, held-remove live ptr n a e));
        partition = λ a.
            omega
              (arith, o.partition a, held-remove live ptr n a e, free-cover st.free_list ptr n a);
        entries = All-remove (IsEntry st.alloc_blocks) live ptr o.entries;
      }

-- The live blocks after a round.
unfoldable pub malloc_live : ℕ → FreeList → Live → Live
malloc_live n fl live =
    if n == 0
    then live
    else elim (Alloc.malloc fl n) [ none ↦ live | some (fl', ptr) ↦ (ptr, n) ∷ live ]

unfoldable pub after_value : Run I32 → (I32 → Live) → Live → Live
after_value (ok n) f live = f n
after_value _ f live = live

unfoldable pub next_live : Instr → State → Live → Live
unfolding malloc_live after_value
next_live (malloc r v i) st live =
    after_value (eval_val st.registers v) (λ n. malloc_live (as_usize n) st.free_list live) live
next_live (free r i) st live =
    after_value (eval_val st.registers (reg r)) (λ n. remove (as_usize n) live) live
next_live i st live = live

-- `free` is given the base of a live block.
abbrev pub IsDisciplined : Instr → State → Live → Type 0
IsDisciplined (free r i) st live =
    (w : I32) × (n : ℕ) × (eval_val st.registers (reg r) ≡ ok w)
    × (lookup (as_usize w) live ≡ some n)
IsDisciplined i st live = Unit

module _ (start end : ℕ) (pos : 0 < start) (env : Env) where
  -- The invariant of the next state, for the live blocks given.
  abbrev pub OwnsNext : Live → Next → Type 0
  OwnsNext live (goes_on i st) = Owns start end live st
  OwnsNext live (exits n) = Unit

  pub any : {A : Type 0} (r : Run A) → Ensures (λ _. Unit {0}) r
  any (ok a) = holds tt
  any (err e) = fails
  any panic = panics

  set_register-keeps :
      (P : State → Type 0) (r : ℕ) (w : I32) (st : State)
      → ((regs : List I32) → P (record st { registers = regs }))
      → Ensures P (set_register r w st)
  unfolding set_register
  set_register-keeps P r w st o = Ensures-if (ltb r (length st.registers)) (holds (o _)) panics

  registers-Owns :
      (st : State) (live : Live)
      → Owns start end live st
      → (regs : List I32) → Owns start end live (record st { registers = regs })
  registers-Owns st live o regs = record {
    canonical = o.canonical;
    partition = o.partition;
    entries = o.entries;
  }

  -- After a computation that keeps the invariant, the round goes on.
  pub then_goes :
      (live : Live) (i : Instr) {r : Run State}
      → Ensures (Owns start end live) r
      → Ensures (OwnsNext live) (r >>= λ st. ok (goes_on i st))
  then_goes live i h = Ensures-bind h λ st o. holds o

  pub writes :
      (r : ℕ) (w : I32) (st : State) (live : Live) (i : Instr)
      → Owns start end live st
      → Ensures (OwnsNext live) (set_register r w st >>= λ st'. ok (goes_on i st'))
  writes r w st live i o =
      then_goes live i (set_register-keeps (Owns start end live) r w st (registers-Owns st live o))

  run_malloc-Owns :
      (r n : ℕ) (st : State) (live : Live)
      → Owns start end live st
      → (n == 0) ≡ false
      → Ensures (Owns start end (malloc_live n st.free_list live)) (run_malloc r n st)
  unfolding run_malloc malloc_live
  run_malloc-Owns r n st live o nz = elim (Option-cases (Alloc.malloc st.free_list n)) [
    | inl e ↦ rw (e, run_malloc) fails
    | inr (m, e) ↦
        rw (nz, e, malloc_live, run_malloc)
          (Ensures-bind
            (set_register-keeps
              (λ st'.
                Owns start end ((m.1, n) ∷ live)
                  (record st' { alloc_blocks = insert m.1 n st'.alloc_blocks }))
              r (as_i32 m.1) (record st { free_list = m.0 })
              (after_malloc start end pos st live o n m.1 m.0 (ground arith) e))
            λ st' o'. holds o')
  ]

  zero_live : (n : ℕ) (fl : FreeList) (live : Live) → (n == 0) ≡ true → malloc_live n fl live ≡ live
  unfolding malloc_live
  zero_live n fl live z = rw z

  pub run_malloc_or_zero-Owns :
      (r n : ℕ) (st : State) (live : Live)
      → Owns start end live st
      → Ensures
          (Owns start end (malloc_live n st.free_list live))
          (if n == 0 then set_register r 0 st else run_malloc r n st)
  run_malloc_or_zero-Owns r n st live o = elim (Bool-cases (n == 0)) [
    | inl z ↦
        rw (z, zero_live n st.free_list live z)
          (set_register-keeps (Owns start end live) r 0 st (registers-Owns st live o))
    | inr nz ↦ rw nz (run_malloc-Owns r n st live o nz)
  ]

  pub print_line-Owns :
      (out : Output) (st : State) (live : Live)
      → Owns start end live st
      → Owns start end live (Print.print_line out st)
  print_line-Owns out st live o = record {
    canonical = o.canonical;
    partition = o.partition;
    entries = o.entries;
  }
