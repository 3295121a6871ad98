-- ===== src/Types/Subtype/Antisym.antt =====
-- `is_subtype` is reflexive on types without alternatives, and antisymmetric.
use ida_structor.Prelude.{◌≡◌, refl, sym, ap, ap₂, true, arith}
use ida_structor.Types.Inferred.{
  InferredType, base, pointer, function, array, structure, sum, Child, null, to, Types, nil, cons,
}
use ida_structor.Types.Subtype.{is_subtype}
use ida_structor.Types.Subtype.Shapes.{
  IsSumFree, IsSumFreeChild, IsSumFreeTypes, IsTyped, IsTypedChild, HasReturn, IsTypedTypes,
  base_subtype_bottom, base_subtype_unknown, bottom_not_unknown, both_bottom, both_unknown,
  base_subtype_antisym,
}
use ida_structor.Types.Subtype.Rules.{
  Sub, from_bottom, to_unknown, of_base, of_pointer, of_function, of_array, of_structure, of_sum,
  SubChild, no_child, child, SubReturn, untyped_left, untyped_right, result, SubParams, no_params,
  param, is_subtype_iff,
}

mutual
  pub Sub-refl : (a : InferredType) → IsSumFree a → Sub a a
  Sub-refl (base b) w = of_base (ground arith)
  Sub-refl (pointer c) w = of_pointer (SubChild-refl c w)
  Sub-refl (function r ps) w = of_function (SubReturn-refl r w.0) (SubParams-refl ps w.1)
  Sub-refl (array c n) w = of_array refl (SubChild-refl c w)
  Sub-refl (structure t) w = of_structure refl
  Sub-refl (sum ts) w = absurd w

  SubChild-refl : (c : Child) → IsSumFreeChild c → SubChild c c
  SubChild-refl null w = no_child
  SubChild-refl (to a) w = child (Sub-refl a w)

  SubReturn-refl : (c : Child) → IsSumFreeChild c → SubReturn c c
  SubReturn-refl null w = untyped_left
  SubReturn-refl (to a) w = result (Sub-refl a w)

  SubParams-refl : (ps : Types) → IsSumFreeTypes ps → SubParams ps ps
  SubParams-refl nil w = no_params
  SubParams-refl (cons p ps) w = param (Sub-refl p w.0) (SubParams-refl ps w.1)

mutual
  antisym :
      {a b : InferredType}
      → IsSumFree a
      → IsSumFree b
      → IsTyped a
      → IsTyped b
      → Sub a b
      → Sub b a
      → a ≡ b
  antisym {a} {b} f g v w (from_bottom e) (from_bottom k) = both_bottom a b e k
  antisym {a} f g v w (from_bottom e) (to_unknown k) = absurd (bottom_not_unknown a k e)
  antisym f g v w (from_bottom e) (of_base {x} {y} k) =
      both_bottom (base y) (base x) e (base_subtype_bottom x y k e)
  antisym f g v w (from_bottom e) (of_pointer k) = cc
  antisym f g v w (from_bottom e) (of_function k l) = cc
  antisym f g v w (from_bottom e) (of_array k l) = cc
  antisym f g v w (from_bottom e) (of_structure k) = cc
  antisym f g v w (from_bottom e) (of_sum k) = cc
  antisym {b} f g v w (to_unknown e) (from_bottom k) = absurd (bottom_not_unknown b e k)
  antisym {a} {b} f g v w (to_unknown e) (to_unknown k) = both_unknown a b k e
  antisym f g v w (to_unknown e) (of_base {x} {y} k) =
      both_unknown (base y) (base x) (base_subtype_unknown x y k e) e
  antisym f g v w (to_unknown e) (of_pointer k) = cc
  antisym f g v w (to_unknown e) (of_function k l) = cc
  antisym f g v w (to_unknown e) (of_array k l) = cc
  antisym f g v w (to_unknown e) (of_structure k) = cc
  antisym f g v w (to_unknown e) (of_sum k) = cc
  antisym f g v w (of_base {x} {y} h) (from_bottom e) =
      both_bottom (base x) (base y) (base_subtype_bottom x y h e) e
  antisym f g v w (of_base {x} {y} h) (to_unknown e) =
      both_unknown (base x) (base y) e (base_subtype_unknown x y h e)
  antisym f g v w (of_base {x} {y} h) (of_base k) = ap base (base_subtype_antisym x y h k)
  antisym f g v w (of_pointer h) (from_bottom e) = cc
  antisym f g v w (of_pointer h) (to_unknown e) = cc
  antisym f g v w (of_pointer h) (of_pointer k) = ap pointer (antisym_child f g v w h k)
  antisym f g v w (of_function h l) (from_bottom e) = cc
  antisym f g v w (of_function h l) (to_unknown e) = cc
  antisym f g v w (of_function h l) (of_function k m) =
      ap₂ function (antisym_return f.0 g.0 v.0 w.0 h k) (antisym_params f.1 g.1 v.1 w.1 l m)
  antisym f g v w (of_array h l) (from_bottom e) = cc
  antisym f g v w (of_array h l) (to_unknown e) = cc
  antisym f g v w (of_array h l) (of_array k m) = ap₂ array (antisym_child f g v w l m) h
  antisym f g v w (of_structure h) (from_bottom e) = cc
  antisym f g v w (of_structure h) (to_unknown e) = cc
  antisym f g v w (of_structure h) (of_structure k) = ap structure h
  antisym f g v w (of_sum h) k = absurd f

  antisym_child :
      {c d : Child}
      → IsSumFreeChild c
      → IsSumFreeChild d
      → IsTypedChild c
      → IsTypedChild d
      → SubChild c d
      → SubChild d c
      → c ≡ d
  antisym_child f g v w no_child no_child = refl
  antisym_child f g v w (child h) (child k) = ap to (antisym f g v w h k)

  antisym_return :
      {c d : Child}
      → IsSumFreeChild c
      → IsSumFreeChild d
      → HasReturn c
      → HasReturn d
      → SubReturn c d
      → SubReturn d c
      → c ≡ d
  antisym_return f g v w untyped_left k = absurd v
  antisym_return f g v w untyped_right k = absurd w
  antisym_return f g v w (result h) (result k) = ap to (antisym f g v w h k)

  antisym_params :
      {ps qs : Types}
      → IsSumFreeTypes ps
      → IsSumFreeTypes qs
      → IsTypedTypes ps
      → IsTypedTypes qs
      → SubParams ps qs
      → SubParams qs ps
      → ps ≡ qs
  antisym_params f g v w no_params no_params = refl
  antisym_params f g v w (param h l) (param k m) =
      ap₂ cons (sym (antisym g.0 f.0 w.0 v.0 h k)) (antisym_params f.1 g.1 v.1 w.1 l m)

-- Every type without alternatives is a subtype of itself.
pub is_subtype_refl : (a : InferredType) → IsSumFree a → is_subtype a a ≡ true
is_subtype_refl a w = (is_subtype_iff a a).1 (Sub-refl a w)

-- Two types without alternatives that are subtypes of each other are equal, if the functions in them
-- have their return types.
pub is_subtype_antisym :
    (a b : InferredType)
    → IsSumFree a
    → IsSumFree b
    → IsTyped a
    → IsTyped b
    → is_subtype a b ≡ true
    → is_subtype b a ≡ true
    → a ≡ b
is_subtype_antisym a b f g v w h k =
    antisym f g v w ((is_subtype_iff a b).0 h) ((is_subtype_iff b a).0 k)
