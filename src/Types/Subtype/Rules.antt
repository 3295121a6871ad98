-- ===== src/Types/Subtype/Rules.antt =====
-- Subtyping as rules, and that `is_subtype` decides them.
use ida_structor.Prelude.{
  ℕ, zero, suc, ◌+◌, ◌<◌, ◌≡◌, refl, Bool, true, false, ◌||◌, ◌==◌, ==_iff, &&_iff, ◌↔◌, ap, arith,
  Bool-cases, inl, inr,
}
use ida_structor.Types.Base.{BaseType}
use ida_structor.Types.Inferred.{
  InferredType, base, pointer, function, array, structure, sum, Child, null, to, Types, nil, cons,
  is_unknown, is_bottom, length_types,
}
use ida_structor.Types.Subtype.{
  base_subtype, child_subtype, return_subtype, params_subtype, any_supertype, same_kind,
  subtype_body, subtype_fuel, nodes, nodes_child, nodes_types, is_subtype,
}

mutual
  pub data Sub : InferredType → InferredType → Type 0 where
    from_bottom : {a b : InferredType} → is_bottom a ≡ true → Sub a b
    to_unknown : {a b : InferredType} → is_unknown b ≡ true → Sub a b
    of_base : {x y : BaseType} → base_subtype x y ≡ true → Sub (base x) (base y)
    of_pointer : {c d : Child} → SubChild c d → Sub (pointer c) (pointer d)
    of_function :
        {c d : Child} {ps qs : Types}
        → SubReturn c d
        → SubParams ps qs
        → Sub (function c ps) (function d qs)
    of_array : {c d : Child} {m n : ℕ} → m ≡ n → SubChild c d → Sub (array c m) (array d n)
    of_structure : {s t : ℕ} → s ≡ t → Sub (structure s) (structure t)
    of_sum : {ps qs : Types} → SubAny (sum ps) qs → Sub (sum ps) (sum qs)

  pub data SubChild : Child → Child → Type 0 where
    no_child : SubChild null null
    child : {a b : InferredType} → Sub a b → SubChild (to a) (to b)

  pub data SubReturn : Child → Child → Type 0 where
    untyped_left : {d : Child} → SubReturn null d
    untyped_right : {c : Child} → SubReturn c null
    result : {a b : InferredType} → Sub a b → SubReturn (to a) (to b)

  pub data SubParams : Types → Types → Type 0 where
    no_params : SubParams nil nil
    param :
        {p q : InferredType} {ps qs : Types}
        → Sub q p
        → SubParams ps qs
        → SubParams (cons p ps) (cons q qs)

  pub data SubAny : InferredType → Types → Type 0 where
    here : {a b : InferredType} {bs : Types} → Sub a b → SubAny a (cons b bs)
    there : {a b : InferredType} {bs : Types} → SubAny a bs → SubAny a (cons b bs)

-- Of two base types the fast paths agree with the `switch`.
base_body :
    (rec : InferredType → InferredType → Bool) (x y : BaseType)
    → base_subtype x y ≡ true
    → subtype_body rec (base x) (base y) ≡ true
base_body rec x y h = ground arith

module _ (rec : InferredType → InferredType → Bool)
    (ok : (a b : InferredType) → rec a b ≡ true → Sub a b) where
  child_sound : (c d : Child) → child_subtype rec c d ≡ true → SubChild c d
  child_sound null null h = no_child
  child_sound (to a) (to b) h = child (ok a b h)
  child_sound _ _ h = cc

  return_sound : (c d : Child) → return_subtype rec c d ≡ true → SubReturn c d
  return_sound null d h = untyped_left
  return_sound (to a) null h = untyped_right
  return_sound (to a) (to b) h = result (ok a b h)

  params_sound :
      (ps qs : Types)
      → (length_types ps == length_types qs) ≡ true
      → params_subtype rec ps qs ≡ true
      → SubParams ps qs
  params_sound nil nil e h = no_params
  params_sound nil (cons q qs) e h = absurd (ground arith)
  params_sound (cons p ps) nil e h = absurd (ground arith)
  params_sound (cons p ps) (cons q qs) e h =
      let r = (&&_iff _ _).0 h in param (ok q p r.0) (params_sound ps qs (ground arith) r.1)

  any_sound : (a : InferredType) (bs : Types) → any_supertype rec a bs ≡ true → SubAny a bs
  any_sound a nil h = cc
  any_sound a (cons b bs) h = elim (Bool-cases (rec a b)) [
    | inl e ↦ here (ok a b e)
    | inr e ↦ there (any_sound a bs (ground arith))
  ]

  kind_sound : (a b : InferredType) → same_kind rec a b ≡ true → Sub a b
  kind_sound (base a) (base b) h = of_base h
  kind_sound (pointer a) (pointer b) h = of_pointer (child_sound a b h)
  kind_sound (function a ps) (function b qs) h =
      let r = (&&_iff _ _).0 h in
      let s = (&&_iff _ _).0 r.0 in of_function (return_sound a b s.1) (params_sound ps qs s.0 r.1)
  kind_sound (array a m) (array b n) h =
      let r = (&&_iff _ _).0 h in of_array ((==_iff m n).0 r.0) (child_sound a b r.1)
  kind_sound (structure a) (structure b) h = of_structure ((==_iff a b).0 h)
  kind_sound (sum ps) (sum qs) h = of_sum (any_sound (sum ps) qs h)
  kind_sound _ _ h = cc

  body_sound : (a b : InferredType) → subtype_body rec a b ≡ true → Sub a b
  body_sound a b h = elim (Bool-cases (is_bottom a)) [
    | inl e ↦ from_bottom e
    | inr e ↦ elim (Bool-cases (is_unknown b)) [
      | inl f ↦ to_unknown f
      | inr f ↦ kind_sound a b (ground arith)
    ]
  ]

fuel_sound : (n : ℕ) (a b : InferredType) → subtype_fuel n a b ≡ true → Sub a b
unfolding subtype_fuel
fuel_sound zero a b h = cc
fuel_sound (suc n) a b h = body_sound (subtype_fuel n) (fuel_sound n) a b h

module _ (rec : InferredType → InferredType → Bool) (a b : InferredType) where
  body_of_bottom : is_bottom a ≡ true → subtype_body rec a b ≡ true
  body_of_bottom e = ground arith

  body_of_unknown : is_unknown b ≡ true → subtype_body rec a b ≡ true
  body_of_unknown e = elim (Bool-cases (is_bottom a)) [
    | inl f ↦ ground arith
    | inr f ↦ ground arith
  ]

nodes_pos : (a : InferredType) → 0 < nodes a
unfolding nodes
nodes_pos (base b) = omega arith
nodes_pos (pointer c) = omega arith
nodes_pos (function r ps) = omega arith
nodes_pos (array c n) = omega arith
nodes_pos (structure t) = omega arith
nodes_pos (sum ts) = omega arith

or_right : (p : Bool) {q : Bool} → q ≡ true → (p || q) ≡ true
or_right p h = ground arith

-- Fuel above the size of the two types is enough.
mutual
  unfolding subtype_fuel nodes

  fuel_complete :
      (n : ℕ) {a b : InferredType} → Sub a b → nodes a + nodes b < n → subtype_fuel n a b ≡ true
  fuel_complete zero d h = absurd (omega arith)
  fuel_complete (suc n) {a} {b} (from_bottom e) h = body_of_bottom (subtype_fuel n) a b e
  fuel_complete (suc n) {a} {b} (to_unknown e) h = body_of_unknown (subtype_fuel n) a b e
  fuel_complete (suc n) (of_base {x} {y} e) h = base_body (subtype_fuel n) x y e
  fuel_complete (suc n) (of_pointer c) h = child_complete n c (omega arith)
  fuel_complete (suc n) (of_function r ps) h = (&&_iff _ _).1 (
    (&&_iff _ _).1 ((==_iff _ _).1 (params_length ps), return_complete n r (omega arith)),
    params_complete n ps (omega arith),
  )
  fuel_complete (suc n) (of_array e c) h =
      (&&_iff _ _).1 ((==_iff _ _).1 e, child_complete n c (omega arith))
  fuel_complete (suc n) (of_structure e) h = (==_iff _ _).1 e
  fuel_complete (suc n) (of_sum s) h = any_complete n s (omega arith)

  child_complete :
      (n : ℕ) {c d : Child}
      → SubChild c d
      → nodes_child c + nodes_child d < n
      → child_subtype (subtype_fuel n) c d ≡ true
  child_complete n no_child h = refl
  child_complete n (child s) h = fuel_complete n s h

  return_complete :
      (n : ℕ) {c d : Child}
      → SubReturn c d
      → nodes_child c + nodes_child d < n
      → return_subtype (subtype_fuel n) c d ≡ true
  return_complete n untyped_left h = refl
  return_complete n (untyped_right {c = null}) h = refl
  return_complete n (untyped_right {c = to a}) h = refl
  return_complete n (result s) h = fuel_complete n s h

  params_length : {ps qs : Types} → SubParams ps qs → length_types ps ≡ length_types qs
  params_length no_params = refl
  params_length (param s r) = ap suc (params_length r)

  params_complete :
      (n : ℕ) {ps qs : Types}
      → SubParams ps qs
      → nodes_types ps + nodes_types qs < n
      → params_subtype (subtype_fuel n) ps qs ≡ true
  params_complete n no_params h = refl
  params_complete n (param s r) h =
      (&&_iff _ _).1 (fuel_complete n s (omega arith), params_complete n r (omega arith))

  any_complete :
      (n : ℕ) {a : InferredType} {bs : Types}
      → SubAny a bs
      → nodes a + nodes_types bs < n
      → any_supertype (subtype_fuel n) a bs ≡ true
  any_complete n (here s) h = rw (fuel_complete n s (omega arith)) refl
  any_complete n (there {a} {b} s) h =
      or_right (subtype_fuel n a b) (any_complete n s (omega arith))

-- `is_subtype` answers yes exactly where the rules of subtyping derive it, so its recursion has enough
-- fuel on every pair of types.
pub is_subtype_iff : (a b : InferredType) → (is_subtype a b ≡ true) ↔ Sub a b
unfolding is_subtype
is_subtype_iff a b = (
  fuel_sound (suc (nodes a + nodes b)) a b,
  λ s. fuel_complete (suc (nodes a + nodes b)) s (omega arith),
)

-- Two integers are compared by the `switch`.
pub is_subtype-base :
    (x y : BaseType)
    → is_bottom (base x) ≡ false
    → is_unknown (base x) ≡ false
    → is_unknown (base y) ≡ false
    → is_subtype (base x) (base y) ≡ base_subtype x y
unfolding is_subtype subtype_fuel
is_subtype-base x y h k l = rw (h, k, l)
