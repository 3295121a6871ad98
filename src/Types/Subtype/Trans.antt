-- ===== src/Types/Subtype/Trans.antt =====
-- `is_subtype` is transitive; and where a type of several alternatives stands in its order.
use ida_structor.Prelude.{◌≡◌, ◌∙◌, true, false, Bool-cases, inl, inr}
use ida_structor.Types.Inferred.{InferredType, sum, Child, Types, is_bottom, is_sum}
use ida_structor.Types.Subtype.{is_subtype}
use ida_structor.Types.Subtype.Shapes.{
  IsTyped, IsTypedChild, HasReturn, IsTypedTypes, base_subtype_trans, base_subtype_bottom,
  base_subtype_unknown, bottom_not_unknown,
}
use ida_structor.Types.Subtype.Rules.{
  Sub, from_bottom, to_unknown, of_base, of_pointer, of_function, of_array, of_structure, of_sum,
  SubChild, no_child, child, SubReturn, untyped_left, untyped_right, result, SubParams, no_params,
  param, SubAny, here, there, is_subtype_iff,
}

-- What a type of alternatives is compared with decides, not its alternatives.
any_alternatives : {ps qs rs : Types} → SubAny (sum ps) rs → SubAny (sum qs) rs
any_alternatives (here (from_bottom e)) = cc
any_alternatives (here (to_unknown e)) = here (to_unknown e)
any_alternatives (here (of_sum s)) = here (of_sum (any_alternatives s))
any_alternatives (there s) = there (any_alternatives s)

mutual
  -- By recursion on the first derivation.
  trans_up : {a b c : InferredType} → IsTyped b → Sub a b → Sub b c → Sub a c
  trans_up w (from_bottom e) k = from_bottom e
  trans_up w d (to_unknown e) = to_unknown e
  trans_up {b} w (to_unknown e) (from_bottom f) = absurd (bottom_not_unknown b e f)
  trans_up w (to_unknown e) (of_base {x} {y} k) = to_unknown (base_subtype_unknown x y k e)
  trans_up w (to_unknown e) (of_pointer k) = cc
  trans_up w (to_unknown e) (of_function k l) = cc
  trans_up w (to_unknown e) (of_array k l) = cc
  trans_up w (to_unknown e) (of_structure k) = cc
  trans_up w (to_unknown e) (of_sum k) = cc
  trans_up w (of_base {x} {y} h) (from_bottom e) = from_bottom (base_subtype_bottom x y h e)
  trans_up w (of_base {x} {y} h) (of_base {y = z} k) = of_base (base_subtype_trans x y z h k)
  trans_up w (of_pointer h) (from_bottom e) = cc
  trans_up w (of_pointer h) (of_pointer k) = of_pointer (child_up w h k)
  trans_up w (of_function h l) (from_bottom e) = cc
  trans_up w (of_function h l) (of_function k m) =
      of_function (return_up w.0 h k) (params_up w.1 l m)
  trans_up w (of_array h l) (from_bottom e) = cc
  trans_up w (of_array h l) (of_array k m) = of_array (h ∙ k) (child_up w l m)
  trans_up w (of_structure h) (from_bottom e) = cc
  trans_up w (of_structure h) (of_structure k) = of_structure (h ∙ k)
  trans_up w (of_sum h) (from_bottom e) = cc
  trans_up w (of_sum h) (of_sum k) = of_sum (any_alternatives k)

  child_up : {a b c : Child} → IsTypedChild b → SubChild a b → SubChild b c → SubChild a c
  child_up w no_child no_child = no_child
  child_up w (child h) (child k) = child (trans_up w h k)

  return_up : {a b c : Child} → HasReturn b → SubReturn a b → SubReturn b c → SubReturn a c
  return_up w untyped_left k = untyped_left
  return_up w untyped_right k = absurd w
  return_up w (result h) untyped_right = untyped_right
  return_up w (result h) (result k) = result (trans_up w h k)

  params_up :
      {ps qs rs : Types} → IsTypedTypes qs → SubParams ps qs → SubParams qs rs → SubParams ps rs
  params_up w no_params no_params = no_params
  params_up w (param h l) (param k m) = param (trans_down w.0 h k) (params_up w.1 l m)

  -- By recursion on the second derivation, which a parameter's is.
  trans_down : {a b c : InferredType} → IsTyped b → Sub b c → Sub a b → Sub a c
  trans_down w d (from_bottom e) = from_bottom e
  trans_down w (to_unknown e) k = to_unknown e
  trans_down {b} w (from_bottom f) (to_unknown e) = absurd (bottom_not_unknown b e f)
  trans_down w (of_base {x} {y} k) (to_unknown e) = to_unknown (base_subtype_unknown x y k e)
  trans_down w (of_pointer k) (to_unknown e) = cc
  trans_down w (of_function k l) (to_unknown e) = cc
  trans_down w (of_array k l) (to_unknown e) = cc
  trans_down w (of_structure k) (to_unknown e) = cc
  trans_down w (of_sum k) (to_unknown e) = cc
  trans_down w (from_bottom e) (of_base {x} {y} h) = from_bottom (base_subtype_bottom x y h e)
  trans_down w (of_base {y = z} k) (of_base {x} {y} h) = of_base (base_subtype_trans x y z h k)
  trans_down w (from_bottom e) (of_pointer h) = cc
  trans_down w (of_pointer k) (of_pointer h) = of_pointer (child_down w k h)
  trans_down w (from_bottom e) (of_function h l) = cc
  trans_down w (of_function k m) (of_function h l) =
      of_function (return_down w.0 k h) (params_down w.1 m l)
  trans_down w (from_bottom e) (of_array h l) = cc
  trans_down w (of_array k m) (of_array h l) = of_array (h ∙ k) (child_down w m l)
  trans_down w (from_bottom e) (of_structure h) = cc
  trans_down w (of_structure k) (of_structure h) = of_structure (h ∙ k)
  trans_down w (from_bottom e) (of_sum h) = cc
  trans_down w (of_sum k) (of_sum h) = of_sum (any_alternatives k)

  child_down : {a b c : Child} → IsTypedChild b → SubChild b c → SubChild a b → SubChild a c
  child_down w no_child no_child = no_child
  child_down w (child k) (child h) = child (trans_down w k h)

  return_down : {a b c : Child} → HasReturn b → SubReturn b c → SubReturn a b → SubReturn a c
  return_down w untyped_right k = untyped_right
  return_down w untyped_left k = absurd w
  return_down w (result k) untyped_left = untyped_left
  return_down w (result k) (result h) = result (trans_down w k h)

  params_down :
      {ps qs rs : Types} → IsTypedTypes qs → SubParams qs rs → SubParams ps qs → SubParams ps rs
  params_down w no_params no_params = no_params
  params_down w (param k m) (param h l) = param (trans_up w.0 k h) (params_down w.1 m l)

-- Subtyping is transitive, types with alternatives included, if the functions in the middle type
-- have their return types.
pub is_subtype_trans :
    (a b c : InferredType)
    → IsTyped b
    → is_subtype a b ≡ true
    → is_subtype b c ≡ true
    → is_subtype a c ≡ true
is_subtype_trans a b c w h k =
    (is_subtype_iff a c).1 (trans_up w ((is_subtype_iff a b).0 h) ((is_subtype_iff b c).0 k))

not_below_sum :
    (a : InferredType) (ts : Types) → is_bottom a ≡ false → is_sum a ≡ false → ¬ Sub a (sum ts)
not_below_sum a ts h k (from_bottom e) = cc
not_below_sum a ts h k (to_unknown e) = cc
not_below_sum a ts h k (of_sum s) = cc

-- A type that is neither bottom nor itself a type of alternatives is a subtype of no type of
-- alternatives, not even of one that lists it.
pub is_subtype-sum :
    (a : InferredType) (ts : Types)
    → is_bottom a ≡ false
    → is_sum a ≡ false
    → is_subtype a (sum ts) ≡ false
is_subtype-sum a ts h k = elim (Bool-cases (is_subtype a (sum ts))) [
  | inl e ↦ absurd (not_below_sum a ts h k ((is_subtype_iff a (sum ts)).0 e))
  | inr e ↦ e
]
