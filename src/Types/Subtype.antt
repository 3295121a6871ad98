-- ===== src/Types/Subtype.antt =====
-- `TypeLattice::is_subtype` (src/z3/type_lattice.cpp). The recursion takes fuel, since a parameter of
-- a function is compared the other way round; `is_subtype` gives as much as the two types are large.
pub mod Rules
pub mod Shapes
pub mod Trans
pub mod Antisym
use ida_structor.Prelude.{
  ℕ, zero, suc, ◌+◌, Bool, true, false, ◌&&◌, ◌||◌, leb, ◌==◌, if◌then◌else◌,
}
use ida_structor.Types.Base.{BaseType, code, is_signed_int, is_unsigned_int}
use ida_structor.Types.Inferred.{
  InferredType, base, pointer, function, array, structure, sum, Child, null, to, Types, nil, cons,
  is_unknown, is_bottom, length_types,
}

abbrev pub signed_int_subtype : BaseType → BaseType → Bool
signed_int_subtype a b = is_signed_int a && is_signed_int b && leb (code a) (code b)

abbrev pub unsigned_int_subtype : BaseType → BaseType → Bool
unsigned_int_subtype a b = is_unsigned_int a && is_unsigned_int b && leb (code a) (code b)

-- `case Kind::Base`.
abbrev pub base_subtype : BaseType → BaseType → Bool
base_subtype a b =
    if code a == code b
    then true
    else if is_signed_int a && is_signed_int b
    then signed_int_subtype a b
    else if is_unsigned_int a && is_unsigned_int b
    then unsigned_int_subtype a b
    else false

-- The body of `is_subtype` over its own recursive call `rec`.
module _ (rec : InferredType → InferredType → Bool) where
  -- Both children are absent, or both are there and in order.
  abbrev pub child_subtype : Child → Child → Bool
  child_subtype null null = true
  child_subtype (to a) (to b) = rec a b
  child_subtype _ _ = false

  -- Return types are compared only where both are there.
  abbrev pub return_subtype : Child → Child → Bool
  return_subtype (to a) (to b) = rec a b
  return_subtype _ _ = true

  -- The loop over the parameters, whose numbers have been compared before.
  abbrev pub params_subtype : Types → Types → Bool
  params_subtype (cons p ps) (cons q qs) = rec q p && params_subtype ps qs
  params_subtype _ _ = true

  abbrev pub any_supertype : InferredType → Types → Bool
  any_supertype a nil = false
  any_supertype a (cons b bs) = rec a b || any_supertype a bs

  -- The `switch` on one kind. Of different kinds the source widens integers only if both types are
  -- base types, and those have one kind: nothing is left but `false`.
  abbrev pub same_kind : InferredType → InferredType → Bool
  same_kind (base a) (base b) = base_subtype a b
  same_kind (pointer a) (pointer b) = child_subtype a b
  same_kind (function a ps) (function b qs) =
      length_types ps == length_types qs && return_subtype a b && params_subtype ps qs
  same_kind (array a m) (array b n) = m == n && child_subtype a b
  same_kind (structure a) (structure b) = a == b
  same_kind (sum ps) (sum qs) = any_supertype (sum ps) qs
  same_kind _ _ = false

  abbrev pub subtype_body : InferredType → InferredType → Bool
  subtype_body a b =
      if is_bottom a
      then true
      else if is_unknown b
      then true
      else if is_unknown a
      then is_unknown b
      else same_kind a b

pub subtype_fuel : ℕ → InferredType → InferredType → Bool
subtype_fuel zero a b = false
subtype_fuel (suc n) a b = subtype_body (subtype_fuel n) a b

-- The number of nodes of a type.
unfoldable mutual
  pub nodes : InferredType → ℕ
  nodes (base b) = 1
  nodes (pointer c) = suc (nodes_child c)
  nodes (function r ps) = suc (nodes_child r + nodes_types ps)
  nodes (array c n) = suc (nodes_child c)
  nodes (structure t) = 1
  nodes (sum ts) = suc (nodes_types ts)

  pub nodes_child : Child → ℕ
  nodes_child null = 0
  nodes_child (to t) = nodes t

  pub nodes_types : Types → ℕ
  nodes_types nil = 0
  nodes_types (cons t ts) = nodes t + nodes_types ts

pub is_subtype : InferredType → InferredType → Bool
is_subtype a b = subtype_fuel (suc (nodes a + nodes b)) a b
