-- ===== src/TypeWhich/TypeCheck/Complete.antt =====
-- type_check.rs: the checker on expressions that have a type.
use plbench.Prelude.{◌≡◌, refl, ap, ◌↔◌, Option, none, some}
use mathlib.Core.Logic.{ite}
use plbench.TypeWhich.Syntax.{Typ, Typ-discrete, Exp, Bindings, bin_op_typ}
use plbench.TypeWhich.Outcome.{accepts, refuses, crashes, unbound, Accepts-eq}
use plbench.TypeWhich.TypeCheck.{Env, should_match, added, tcheck, check_all}
use plbench.TypeWhich.TypeCheck.Typing.{HasType, HaveTypes, IsAddable}
use plbench.TypeWhich.TypeCheck.Sound.{tcheck_sound}

should_match_same : (t : Typ) → should_match t t ≡ accepts t
unfolding should_match
should_match_same t = decided (Typ-discrete t t)
  where
    decided : (d : Dec (t ≡ t)) → ite d (accepts t) crashes ≡ accepts t
    decided (yes e) = refl
    decided (no ne) = absurd (ne refl)

added_same : (t : Typ) → IsAddable t → added t ≡ accepts t
added_same Typ.int h = refl
added_same Typ.str h = refl
added_same Typ.any h = refl
added_same Typ.unit h = absurd h
added_same _ h = absurd h

mutual
  unfolding tcheck

  tcheck_complete : {env : Env} {e : Exp} {t : Typ} → HasType env e t → tcheck env e ≡ accepts t
  tcheck_complete (HasType.lit l) = refl
  tcheck_complete (HasType.var {x} e) =
      ap (λ (o : Option Typ). elim o [ none ↦ refuses (unbound x) | some t ↦ accepts t ]) e
  tcheck_complete (HasType.func h) = rw (tcheck_complete h, tcheck) refl
  tcheck_complete (HasType.fix {t} h) = rw (tcheck_complete h, tcheck) (should_match_same t)
  tcheck_complete (HasType.app {t} h k) =
      rw (tcheck_complete h, tcheck_complete k, should_match_same t) refl
  tcheck_complete (HasType.unary_op op h) = rw (tcheck_complete h, should_match_same) refl
  tcheck_complete (HasType.binary_op op h k) =
      rw
        (
          tcheck_complete h,
          tcheck_complete k,
          should_match_same (bin_op_typ op).0,
          should_match_same (bin_op_typ op).1,
        )
        refl
  tcheck_complete (HasType.let_exp h k) = rw (tcheck_complete h, tcheck_complete k) refl
  tcheck_complete (HasType.let_rec h k) = rw (check_all_complete h, tcheck_complete k) refl
  tcheck_complete (HasType.ann {t} h) = rw (tcheck_complete h, should_match_same) refl
  tcheck_complete (HasType.add_overload {t} h k a) =
      rw (tcheck_complete h, tcheck_complete k, should_match_same) (added_same t a)
  tcheck_complete (HasType.if_exp {t} h k l) =
      rw
        (
          tcheck_complete h,
          tcheck_complete k,
          tcheck_complete l,
          should_match_same Typ.bool,
          should_match_same t,
        )
        refl
  tcheck_complete (HasType.pair h k) = rw (tcheck_complete h, tcheck_complete k) refl
  tcheck_complete (HasType.fst h) = rw (tcheck_complete h) refl
  tcheck_complete (HasType.snd h) = rw (tcheck_complete h) refl
  tcheck_complete (HasType.cons h k) =
      rw (tcheck_complete h, tcheck_complete k, should_match_same) refl
  tcheck_complete (HasType.empty t) = refl
  tcheck_complete (HasType.head h) = rw (tcheck_complete h) refl
  tcheck_complete (HasType.tail h) = rw (tcheck_complete h) refl
  tcheck_complete (HasType.is_empty h) = rw (tcheck_complete h) refl
  tcheck_complete (HasType.box h) = rw (tcheck_complete h) refl
  tcheck_complete (HasType.unbox h) = rw (tcheck_complete h) refl
  tcheck_complete (HasType.box_set h k) =
      rw (tcheck_complete h, tcheck_complete k, should_match_same) refl
  tcheck_complete (HasType.vector h k) =
      rw (tcheck_complete h, tcheck_complete k, should_match_same) refl
  tcheck_complete (HasType.vector_ref h k) =
      rw (tcheck_complete h, tcheck_complete k, should_match_same) refl
  tcheck_complete (HasType.vector_set {t} h k l) =
      rw
        (
          tcheck_complete h,
          tcheck_complete k,
          tcheck_complete l,
          should_match_same Typ.int,
          should_match_same (Typ.vect t),
        )
        refl
  tcheck_complete (HasType.vector_len h) = rw (tcheck_complete h) refl
  tcheck_complete (HasType.is_bool h) = rw (tcheck_complete h, should_match_same) refl
  tcheck_complete (HasType.is_int h) = rw (tcheck_complete h, should_match_same) refl
  tcheck_complete (HasType.is_string h) = rw (tcheck_complete h, should_match_same) refl
  tcheck_complete (HasType.is_list h) = rw (tcheck_complete h, should_match_same) refl
  tcheck_complete (HasType.is_fun h) = rw (tcheck_complete h, should_match_same) refl
  tcheck_complete (HasType.coerce t' h) = rw (tcheck_complete h, should_match_same) refl

  check_all_complete :
      {env : Env} {bs : Bindings} → HaveTypes env bs → check_all env bs ≡ accepts tt
  check_all_complete HaveTypes.done = refl
  check_all_complete (HaveTypes.binding h k) =
      rw (tcheck_complete h, should_match_same, check_all_complete k) refl

-- The checker accepts an expression with a type exactly where the typing rules give the expression
-- that type.
pub tcheck_iff : (env : Env) (e : Exp) (t : Typ) → (tcheck env e ≡ accepts t) ↔ HasType env e t
tcheck_iff env e t = (λ h. Accepts-eq (tcheck_sound e env) h, tcheck_complete)
