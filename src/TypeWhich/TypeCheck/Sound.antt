-- ===== src/TypeWhich/TypeCheck/Sound.antt =====
-- type_check.rs: the expressions that the checker accepts.
use Prim.Native.String.{String}
use plbench.Prelude.{◌≡◌, refl, sym, ◌∷◌, Option, none, some}
use mathlib.Core.Logic.{ite}
use plbench.TypeWhich.Syntax.{Typ, Typ-discrete, Exp, Bindings}
use plbench.TypeWhich.Outcome.{
  Outcome, accepts, refuses, crashes, unbound, ◌>>=◌, Accepts, good, bad, broken, Accepts-bind,
}
use plbench.TypeWhich.TypeCheck.{
  Env, get, should_match, bind_all, added, arrow_result, first, second, element, content, entry,
  tcheck, check_all,
}
use plbench.TypeWhich.TypeCheck.Typing.{HasType, HaveTypes, IsAddable}

-- `should_match` accepts equal types only, and answers the second.
should_match-Accepts : (t1 t2 : Typ) → Accepts (λ t. (t1 ≡ t2) × (t ≡ t2)) (should_match t1 t2)
unfolding should_match
should_match-Accepts t1 t2 = decided (Typ-discrete t1 t2)
  where
    decided : (d : Dec (t1 ≡ t2)) → Accepts (λ t. (t1 ≡ t2) × (t ≡ t2)) (ite d (accepts t2) crashes)
    decided (yes e) = good (e, refl)
    decided (no ne) = broken

moved : {env : Env} {e : Exp} {t1 t2 : Typ} → t1 ≡ t2 → HasType env e t2 → HasType env e t1
moved p h = rw p h

-- A premise of the type wanted, and then the rest.
module _ {A : Type 0} {Q : A → Type 0} {env : Env} {e : Exp} where
  matches :
      (t1 t2 : Typ) (next : Typ → Outcome A)
      → HasType env e t2
      → (HasType env e t1 → (t : Typ) → Accepts Q (next t))
      → Accepts Q (should_match t1 t2 >>= next)
  matches t1 t2 next h go = Accepts-bind (should_match-Accepts t1 t2) λ t (p, _). go (moved p h) t

answers :
    {env : Env} {e : Exp} (t1 t2 : Typ) {Q : Typ → Type 0}
    → HasType env e t2
    → (HasType env e t1 → Q t1)
    → Accepts Q (should_match t1 t2)
answers t1 t2 {Q} h go = after (should_match-Accepts t1 t2)
  where
    after : {o : Outcome Typ} → Accepts (λ t. (t1 ≡ t2) × (t ≡ t2)) o → Accepts Q o
    after (good {a} (p, q)) = good (rw (q, ← p) (go (moved p h)))
    after bad = bad
    after broken = broken

added-Accepts : (t : Typ) → Accepts (λ t'. (t' ≡ t) × IsAddable t) (added t)
added-Accepts Typ.int = good (refl, tt)
added-Accepts Typ.str = good (refl, tt)
added-Accepts Typ.any = good (refl, tt)
added-Accepts _ = bad

arrow-Accepts :
    (env : Env) (e1 e2 : Exp) (t t1 : Typ)
    → HasType env e1 t
    → HasType env e2 t1
    → Accepts (HasType env (Exp.app e1 e2)) (arrow_result t t1)
arrow-Accepts env e1 e2 (Typ.arr t t') t1 h k = matches t t1 _ k λ k' _. good (HasType.app h k')
arrow-Accepts env e1 e2 _ t1 h k = bad

-- What the answers for pairs, lists, boxes and vectors say of the type.
first-Accepts : (t : Typ) → Accepts (λ t1. (t2 : Typ) × (t ≡ Typ.pair t1 t2)) (first t)
first-Accepts (Typ.pair t1 t2) = good (t2, refl)
first-Accepts _ = bad

second-Accepts : (t : Typ) → Accepts (λ t2. (t1 : Typ) × (t ≡ Typ.pair t1 t2)) (second t)
second-Accepts (Typ.pair t1 t2) = good (t1, refl)
second-Accepts _ = bad

element-Accepts : (t : Typ) → Accepts (λ t'. t ≡ Typ.list t') (element t)
element-Accepts (Typ.list t') = good refl
element-Accepts _ = bad

content-Accepts : (t : Typ) → Accepts (λ t'. t ≡ Typ.box t') (content t)
content-Accepts (Typ.box t') = good refl
content-Accepts _ = bad

entry-Accepts : (t : Typ) → Accepts (λ t'. t ≡ Typ.vect t') (entry t)
entry-Accepts (Typ.vect t') = good refl
entry-Accepts _ = bad

implied :
    {A : Type 0} {P Q : A → Type 0} {o : Outcome A}
    → Accepts P o
    → ((a : A) → P a → Q a)
    → Accepts Q o
implied (good {a} p) f = good (f a p)
implied bad f = bad
implied broken f = broken

var-Accepts :
    (x : String) (env : Env) (o : Option Typ)
    → get x env ≡ o
    → Accepts (HasType env (Exp.var x)) (elim o [ none ↦ refuses (unbound x) | some t ↦ accepts t ])
var-Accepts x env none e = bad
var-Accepts x env (some t) e = good (HasType.var e)

mutual
  unfolding tcheck

  pub tcheck_sound : (e : Exp) (env : Env) → Accepts (HasType env e) (tcheck env e)
  tcheck_sound (Exp.lit l) env = good (HasType.lit l)
  tcheck_sound (Exp.var x) env = var-Accepts x env (get x env) refl
  tcheck_sound (Exp.func x t body) env =
      Accepts-bind (tcheck_sound body ((x, t) ∷ env)) λ t' h. good (HasType.func h)
  tcheck_sound (Exp.fix x t body) env =
      Accepts-bind (tcheck_sound body ((x, t) ∷ env)) λ t' h. answers t t' h (λ k. HasType.fix k)
  tcheck_sound (Exp.app e1 e2) env =
      Accepts-bind (tcheck_sound e1 env)
        λ t h. Accepts-bind (tcheck_sound e2 env) λ t1 k. arrow-Accepts env e1 e2 t t1 h k
  tcheck_sound (Exp.unary_op op e) env =
      Accepts-bind (tcheck_sound e env) λ t h. matches _ t _ h λ k _. good (HasType.unary_op op k)
  tcheck_sound (Exp.binary_op op e1 e2) env = Accepts-bind (tcheck_sound e1 env) λ t h.
      matches _ t _ h λ h' _.
        Accepts-bind (tcheck_sound e2 env)
          λ t' k. matches _ t' _ k λ k' _. good (HasType.binary_op op h' k')
  tcheck_sound (Exp.let_exp x e1 e2) env =
      Accepts-bind (tcheck_sound e1 env)
        λ t1 h. implied (tcheck_sound e2 ((x, t1) ∷ env)) λ t2 k. HasType.let_exp h k
  tcheck_sound (Exp.let_rec es e) env =
      Accepts-bind (check_all_sound es (bind_all env es))
        λ _ h. implied (tcheck_sound e (bind_all env es)) λ t k. HasType.let_rec h k
  tcheck_sound (Exp.ann e t) env =
      Accepts-bind (tcheck_sound e env) λ t' h. answers t t' h (λ k. HasType.ann k)
  tcheck_sound (Exp.add_overload e1 e2) env = Accepts-bind (tcheck_sound e1 env) λ t1 h.
      Accepts-bind (tcheck_sound e2 env) λ t2 k.
        matches t1 t2 _ k
          λ k' _. implied (added-Accepts t1) λ t (p, a). moved p (HasType.add_overload h k' a)
  tcheck_sound (Exp.if_exp e1 e2 e3) env = Accepts-bind (tcheck_sound e1 env) λ t h.
      matches Typ.bool t _ h λ h' _. Accepts-bind (tcheck_sound e2 env) λ t1 k.
        Accepts-bind (tcheck_sound e3 env)
          λ t2 l. matches t1 t2 _ l λ l' _. good (HasType.if_exp h' k l')
  tcheck_sound (Exp.pair e1 e2) env =
      Accepts-bind (tcheck_sound e1 env)
        λ t1 h. Accepts-bind (tcheck_sound e2 env) λ t2 k. good (HasType.pair h k)
  tcheck_sound (Exp.fst e) env =
      Accepts-bind (tcheck_sound e env)
        λ t h. implied (first-Accepts t) λ t1 (t2, p). HasType.fst (moved (sym p) h)
  tcheck_sound (Exp.snd e) env =
      Accepts-bind (tcheck_sound e env)
        λ t h. implied (second-Accepts t) λ t2 (t1, p). HasType.snd (moved (sym p) h)
  tcheck_sound (Exp.cons e1 e2) env = Accepts-bind (tcheck_sound e1 env) λ t1 h.
      Accepts-bind (tcheck_sound e2 env)
        λ t2 k. answers (Typ.list t1) t2 k (λ k'. HasType.cons h k')
  tcheck_sound (Exp.empty t) env = good (HasType.empty t)
  tcheck_sound (Exp.head e) env =
      Accepts-bind (tcheck_sound e env)
        λ t h. implied (element-Accepts t) λ t' p. HasType.head (moved (sym p) h)
  tcheck_sound (Exp.tail e) env = Accepts-bind (tcheck_sound e env) λ t h.
      Accepts-bind (element-Accepts t) λ t' p. good (moved p (HasType.tail (moved (sym p) h)))
  tcheck_sound (Exp.is_empty e) env =
      Accepts-bind (tcheck_sound e env)
        λ t h. Accepts-bind (element-Accepts t) λ t' p. good (HasType.is_empty (moved (sym p) h))
  tcheck_sound (Exp.box e) env = Accepts-bind (tcheck_sound e env) λ t h. good (HasType.box h)
  tcheck_sound (Exp.unbox e) env =
      Accepts-bind (tcheck_sound e env)
        λ t h. implied (content-Accepts t) λ t' p. HasType.unbox (moved (sym p) h)
  tcheck_sound (Exp.box_set e1 e2) env = Accepts-bind (tcheck_sound e1 env) λ t1 h.
      Accepts-bind (tcheck_sound e2 env)
        λ t2 k. matches (Typ.box t2) t1 _ h λ h' _. good (HasType.box_set h' k)
  tcheck_sound (Exp.vector e1 e2) env = Accepts-bind (tcheck_sound e1 env) λ t1 h.
      matches Typ.int t1 _ h
        λ h' _. Accepts-bind (tcheck_sound e2 env) λ t k. good (HasType.vector h' k)
  tcheck_sound (Exp.vector_ref e1 e2) env = Accepts-bind (tcheck_sound e2 env) λ t2 h.
      matches Typ.int t2 _ h λ h' _.
        Accepts-bind (tcheck_sound e1 env)
          λ t k. implied (entry-Accepts t) λ t' p. HasType.vector_ref (moved (sym p) k) h'
  tcheck_sound (Exp.vector_set e1 e2 e3) env = Accepts-bind (tcheck_sound e1 env) λ t1 h.
      Accepts-bind (tcheck_sound e2 env) λ t2 k. matches Typ.int t2 _ k λ k' _.
        Accepts-bind (tcheck_sound e3 env)
          λ t3 l. matches (Typ.vect t3) t1 _ h λ h' _. good (HasType.vector_set h' k' l)
  tcheck_sound (Exp.vector_len e) env =
      Accepts-bind (tcheck_sound e env)
        λ t h. Accepts-bind (entry-Accepts t) λ t' p. good (HasType.vector_len (moved (sym p) h))
  tcheck_sound (Exp.is_bool e) env =
      Accepts-bind (tcheck_sound e env) λ t h. matches Typ.any t _ h λ k _. good (HasType.is_bool k)
  tcheck_sound (Exp.is_int e) env =
      Accepts-bind (tcheck_sound e env) λ t h. matches Typ.any t _ h λ k _. good (HasType.is_int k)
  tcheck_sound (Exp.is_string e) env =
      Accepts-bind (tcheck_sound e env)
        λ t h. matches Typ.any t _ h λ k _. good (HasType.is_string k)
  tcheck_sound (Exp.is_list e) env =
      Accepts-bind (tcheck_sound e env) λ t h. matches Typ.any t _ h λ k _. good (HasType.is_list k)
  tcheck_sound (Exp.is_fun e) env =
      Accepts-bind (tcheck_sound e env) λ t h. matches Typ.any t _ h λ k _. good (HasType.is_fun k)
  tcheck_sound (Exp.coerce t1 t2 e) env =
      Accepts-bind (tcheck_sound e env) λ t h. matches t1 t _ h λ k _. good (HasType.coerce t2 k)
  tcheck_sound (Exp.prim_coerce c e) env = broken

  check_all_sound : (bs : Bindings) (env : Env) → Accepts (λ _. HaveTypes env bs) (check_all env bs)
  check_all_sound Bindings.done env = good HaveTypes.done
  check_all_sound (Bindings.binding x t e bs) env =
      Accepts-bind (tcheck_sound e env) λ t' h.
        matches t t' _ h λ k _. implied (check_all_sound bs env) λ _ l. HaveTypes.binding k l
