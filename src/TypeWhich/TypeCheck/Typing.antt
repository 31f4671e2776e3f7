-- ===== src/TypeWhich/TypeCheck/Typing.antt =====
-- type_check.rs against its typing rules, those that the comments above its cases state, but
-- for `snd`, which has the second type of a pair here and the first one in its comment.
use Prim.Native.String.{String}
use plbench.Prelude.{◌≡◌, ◌∷◌, some}
use plbench.TypeWhich.Syntax.{Typ, Lit, UnOp, BinOp, Exp, Bindings, lit_typ, un_op_typ, bin_op_typ}
use plbench.TypeWhich.TypeCheck.{Env, get, bind_all}

-- The types that `+` is overloaded at.
abbrev pub IsAddable : Typ → Type 0
IsAddable Typ.int = Unit
IsAddable Typ.str = Unit
IsAddable Typ.any = Unit
IsAddable _ = ⊥

mutual
  -- The typing rules.
  pub data HasType : Env → Exp → Typ → Type 0 where
    lit : {env : Env} (l : Lit) → HasType env (Exp.lit l) (lit_typ l)
    var : {env : Env} {x : String} {t : Typ} → get x env ≡ some t → HasType env (Exp.var x) t
    func :
        {env : Env} {x : String} {t t' : Typ} {e : Exp}
        → HasType ((x, t) ∷ env) e t'
        → HasType env (Exp.func x t e) (Typ.arr t t')
    fix :
        {env : Env} {x : String} {t : Typ} {e : Exp}
        → HasType ((x, t) ∷ env) e t
        → HasType env (Exp.fix x t e) t
    app :
        {env : Env} {e1 e2 : Exp} {t t' : Typ}
        → HasType env e1 (Typ.arr t t')
        → HasType env e2 t
        → HasType env (Exp.app e1 e2) t'
    unary_op :
        {env : Env} {e : Exp} (op : UnOp)
        → HasType env e (un_op_typ op).0
        → HasType env (Exp.unary_op op e) (un_op_typ op).1
    binary_op :
        {env : Env} {e1 e2 : Exp} (op : BinOp)
        → HasType env e1 (bin_op_typ op).0
        → HasType env e2 (bin_op_typ op).1
        → HasType env (Exp.binary_op op e1 e2) (bin_op_typ op).2
    let_exp :
        {env : Env} {x : String} {e1 e2 : Exp} {t1 t2 : Typ}
        → HasType env e1 t1
        → HasType ((x, t1) ∷ env) e2 t2
        → HasType env (Exp.let_exp x e1 e2) t2
    let_rec :
        {env : Env} {es : Bindings} {e : Exp} {t : Typ}
        → HaveTypes (bind_all env es) es
        → HasType (bind_all env es) e t
        → HasType env (Exp.let_rec es e) t
    ann : {env : Env} {e : Exp} {t : Typ} → HasType env e t → HasType env (Exp.ann e t) t
    add_overload :
        {env : Env} {e1 e2 : Exp} {t : Typ}
        → HasType env e1 t
        → HasType env e2 t
        → IsAddable t
        → HasType env (Exp.add_overload e1 e2) t
    if_exp :
        {env : Env} {e1 e2 e3 : Exp} {t : Typ}
        → HasType env e1 Typ.bool
        → HasType env e2 t
        → HasType env e3 t
        → HasType env (Exp.if_exp e1 e2 e3) t
    pair :
        {env : Env} {e1 e2 : Exp} {t1 t2 : Typ}
        → HasType env e1 t1
        → HasType env e2 t2
        → HasType env (Exp.pair e1 e2) (Typ.pair t1 t2)
    fst :
        {env : Env} {e : Exp} {t1 t2 : Typ}
        → HasType env e (Typ.pair t1 t2)
        → HasType env (Exp.fst e) t1
    snd :
        {env : Env} {e : Exp} {t1 t2 : Typ}
        → HasType env e (Typ.pair t1 t2)
        → HasType env (Exp.snd e) t2
    cons :
        {env : Env} {e1 e2 : Exp} {t : Typ}
        → HasType env e1 t
        → HasType env e2 (Typ.list t)
        → HasType env (Exp.cons e1 e2) (Typ.list t)
    empty : {env : Env} (t : Typ) → HasType env (Exp.empty t) (Typ.list t)
    head : {env : Env} {e : Exp} {t : Typ} → HasType env e (Typ.list t) → HasType env (Exp.head e) t
    tail :
        {env : Env} {e : Exp} {t : Typ}
        → HasType env e (Typ.list t)
        → HasType env (Exp.tail e) (Typ.list t)
    is_empty :
        {env : Env} {e : Exp} {t : Typ}
        → HasType env e (Typ.list t)
        → HasType env (Exp.is_empty e) Typ.bool
    box : {env : Env} {e : Exp} {t : Typ} → HasType env e t → HasType env (Exp.box e) (Typ.box t)
    unbox :
        {env : Env} {e : Exp} {t : Typ} → HasType env e (Typ.box t) → HasType env (Exp.unbox e) t
    box_set :
        {env : Env} {e1 e2 : Exp} {t : Typ}
        → HasType env e1 (Typ.box t)
        → HasType env e2 t
        → HasType env (Exp.box_set e1 e2) Typ.unit
    vector :
        {env : Env} {e1 e2 : Exp} {t : Typ}
        → HasType env e1 Typ.int
        → HasType env e2 t
        → HasType env (Exp.vector e1 e2) (Typ.vect t)
    vector_ref :
        {env : Env} {e1 e2 : Exp} {t : Typ}
        → HasType env e1 (Typ.vect t)
        → HasType env e2 Typ.int
        → HasType env (Exp.vector_ref e1 e2) t
    vector_set :
        {env : Env} {e1 e2 e3 : Exp} {t : Typ}
        → HasType env e1 (Typ.vect t)
        → HasType env e2 Typ.int
        → HasType env e3 t
        → HasType env (Exp.vector_set e1 e2 e3) Typ.unit
    vector_len :
        {env : Env} {e : Exp} {t : Typ}
        → HasType env e (Typ.vect t)
        → HasType env (Exp.vector_len e) Typ.int
    is_bool : {env : Env} {e : Exp} → HasType env e Typ.any → HasType env (Exp.is_bool e) Typ.bool
    is_int : {env : Env} {e : Exp} → HasType env e Typ.any → HasType env (Exp.is_int e) Typ.bool
    is_string :
        {env : Env} {e : Exp} → HasType env e Typ.any → HasType env (Exp.is_string e) Typ.bool
    is_list : {env : Env} {e : Exp} → HasType env e Typ.any → HasType env (Exp.is_list e) Typ.bool
    is_fun : {env : Env} {e : Exp} → HasType env e Typ.any → HasType env (Exp.is_fun e) Typ.bool
    coerce :
        {env : Env} {e : Exp} {t : Typ} (t' : Typ)
        → HasType env e t
        → HasType env (Exp.coerce t t' e) t'

  -- Every binding of a `letrec` has the type that it is given.
  pub data HaveTypes : Env → Bindings → Type 0 where
    done : {env : Env} → HaveTypes env Bindings.done
    binding :
        {env : Env} {x : String} {t : Typ} {e : Exp} {bs : Bindings}
        → HasType env e t
        → HaveTypes env bs
        → HaveTypes env (Bindings.binding x t e bs)
