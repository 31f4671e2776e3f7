-- ===== src/Ilvm/Main/Arguments.antt =====
-- main.rs, `parse_cli_args`: the command lines that are accepted.
use Prim.Native.String.{String}
use text.Mathlib.Text.{◌==◌ as str_eq}
use text.Mathlib.TextEquality.{eq_iff}
use plbench.Prelude.{
  ◌≡◌, refl, ◌↔◌, Bool-cases, inl, inr, List, [], ◌∷◌, ◌++◌, Option, none, some, append_assoc,
  append-nil, ap, ◌∙◌, sym,
}
use plbench.Ilvm.Run.{Ensures, holds, fails, Ensures-imp, Ensures-eq_ok, ok}
use plbench.Ilvm.Main.{read_file, parse_args, parse_cli_args, IsArgs}

module _ (files : String → Option String) where
  parse_args_complete :
      (args ys done : List String)
      → IsArgs files args ys
      → parse_args files done args ≡ ok (done ++ ys)
  unfolding parse_args
  parse_args_complete _ _ done IsArgs.end = rw append-nil
  parse_args_complete _ _ done (IsArgs.literal {v} {rest} {args} d) =
      parse_args_complete rest args (done ++ v ∷ []) d ∙ ap ok (append_assoc done (v ∷ []) args)
  parse_args_complete _ _ done (IsArgs.file {v} {buf} {rest} {args} e d) = rw e (
      parse_args_complete rest args (done ++ buf ∷ []) d
      ∙ ap ok (append_assoc done (buf ∷ []) args))

  -- What the loop returns behind what it had.
  abbrev Read : List String → List String → List String → Type 0
  Read done args all = (ys : List String) × (all ≡ done ++ ys) × IsArgs files args ys

  read_file-Read :
      (kind v : String) (rest done : List String) (read : Option String)
      → files v ≡ read
      → kind ≡ "-f"
      → ((buf : String)
          → Ensures (Read (done ++ buf ∷ []) rest) (parse_args files (done ++ buf ∷ []) rest))
      → Ensures
          (Read done (kind ∷ v ∷ rest))
          (read_file read λ buf. parse_args files (done ++ buf ∷ []) rest)
  read_file-Read kind v rest done none e k ih = fails
  read_file-Read kind v rest done (some buf) e k ih =
      Ensures-imp (ih buf)
        λ all (ys, q, d). (buf ∷ ys, q ∙ append_assoc done (buf ∷ []) ys, rw k (IsArgs.file e d))

  parse_args-Read :
      (done args : List String) → Ensures (Read done args) (parse_args files done args)
  unfolding parse_args
  parse_args-Read done [] = holds ([], sym (append-nil done), IsArgs.end)
  parse_args-Read done (kind ∷ []) = fails
  parse_args-Read done (kind ∷ v ∷ rest) = elim (Bool-cases (str_eq kind "-l")) [
    | inl l ↦ rw l (
        Ensures-imp (parse_args-Read (done ++ v ∷ []) rest) λ all (ys, q, d). (
          v ∷ ys,
          q ∙ append_assoc done (v ∷ []) ys,
          rw ((eq_iff kind "-l").0 l) (IsArgs.literal d),
        ))
    | inr l ↦ elim (Bool-cases (str_eq kind "-f")) [
      | inr f ↦ rw (l, f) fails
      | inl f ↦
          rw (l, f)
            (read_file-Read kind v rest done (files v) refl ((eq_iff kind "-f").0 f)
              λ buf. parse_args-Read (done ++ buf ∷ []) rest)
    ]
  ]

  -- The command line is accepted exactly when it is markers with their values, and gives those
  -- values, in order.
  pub parse_cli_args_iff :
      (args values : List String)
      → (parse_cli_args files args ≡ ok values) ↔ IsArgs files args values
  unfolding parse_cli_args
  parse_cli_args_iff args values = (
    λ e. sound (Ensures-eq_ok (parse_args-Read [] args) e),
    λ d. parse_args_complete args values [] d,
  )
    where
      sound : Read [] args values → IsArgs files args values
      sound (ys, e, d) = rw e d
