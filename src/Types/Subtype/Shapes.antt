-- ===== src/Types/Subtype/Shapes.antt =====
-- Shapes of types that the order laws of `is_subtype` ask for, and the base types' order.
use ida_structor.Prelude.{◌≡◌, ap, true, arith}
use ida_structor.Types.Base.{BaseType, code_inj}
use ida_structor.Types.Inferred.{
  InferredType, base, pointer, function, array, structure, sum, Child, null, to, Types, nil, cons,
  is_unknown, is_bottom,
}
use ida_structor.Types.Subtype.{base_subtype}

-- No type of several alternatives stands in the type.
abbrev mutual
  pub IsSumFree : InferredType → Type 0
  IsSumFree (base b) = Unit
  IsSumFree (pointer c) = IsSumFreeChild c
  IsSumFree (function r ps) = IsSumFreeChild r × IsSumFreeTypes ps
  IsSumFree (array c n) = IsSumFreeChild c
  IsSumFree (structure t) = Unit
  IsSumFree (sum ts) = ⊥

  pub IsSumFreeChild : Child → Type 0
  IsSumFreeChild null = Unit
  IsSumFreeChild (to t) = IsSumFree t

  pub IsSumFreeTypes : Types → Type 0
  IsSumFreeTypes nil = Unit
  IsSumFreeTypes (cons t ts) = IsSumFree t × IsSumFreeTypes ts

-- Every function in the type has its return type, as `make_func` gives it.
abbrev mutual
  pub IsTyped : InferredType → Type 0
  IsTyped (base b) = Unit
  IsTyped (pointer c) = IsTypedChild c
  IsTyped (function r ps) = HasReturn r × IsTypedTypes ps
  IsTyped (array c n) = IsTypedChild c
  IsTyped (structure t) = Unit
  IsTyped (sum ts) = IsTypedTypes ts

  pub IsTypedChild : Child → Type 0
  IsTypedChild null = Unit
  IsTypedChild (to t) = IsTyped t

  pub HasReturn : Child → Type 0
  HasReturn null = ⊥
  HasReturn (to t) = IsTyped t

  pub IsTypedTypes : Types → Type 0
  IsTypedTypes nil = Unit
  IsTypedTypes (cons t ts) = IsTyped t × IsTypedTypes ts

pub base_subtype_trans :
    (x y z : BaseType) → base_subtype x y ≡ true → base_subtype y z ≡ true → base_subtype x z ≡ true
base_subtype_trans x y z h k = ground arith

pub base_subtype_bottom :
    (x y : BaseType)
    → base_subtype x y ≡ true
    → is_bottom (base y) ≡ true
    → is_bottom (base x) ≡ true
base_subtype_bottom x y h e = ground arith

pub base_subtype_unknown :
    (x y : BaseType)
    → base_subtype x y ≡ true
    → is_unknown (base x) ≡ true
    → is_unknown (base y) ≡ true
base_subtype_unknown x y h e = ground arith

pub bottom_not_unknown : (a : InferredType) → is_unknown a ≡ true → is_bottom a ≡ true → ⊥
bottom_not_unknown (base b) h e = ground arith
bottom_not_unknown _ h e = cc

pub both_bottom : (a b : InferredType) → is_bottom a ≡ true → is_bottom b ≡ true → a ≡ b
both_bottom (base x) (base y) h k = ap base (code_inj x y (ground arith))
both_bottom (base x) _ h k = cc
both_bottom _ _ h k = cc

pub both_unknown : (a b : InferredType) → is_unknown a ≡ true → is_unknown b ≡ true → a ≡ b
both_unknown (base x) (base y) h k = ap base (code_inj x y (ground arith))
both_unknown (base x) _ h k = cc
both_unknown _ _ h k = cc

pub base_subtype_antisym :
    (x y : BaseType) → base_subtype x y ≡ true → base_subtype y x ≡ true → x ≡ y
base_subtype_antisym x y h k = code_inj x y (ground arith)
