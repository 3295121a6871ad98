-- ===== src/Types/Inferred.antt =====
-- `InferredType` (include/structor/z3/type_lattice.hpp, src/z3/type_lattice.cpp): the tree, its size
-- in bytes, its text and its equality. A shared pointer to a child is `Child`; a type id is a number.
use Prim.Native.Nat.{max}
use ida_structor.Prelude.{
  ℕ, suc, ◌*◌, ◌%◌, ◌^◌, ◌≡◌, refl, Bool, true, false, ◌&&◌, ◌==◌, ◌↔◌, subst, ap, ap₂, ==_iff,
  &&_iff,
}
use ida_structor.Types.Base.{BaseType, code, base_type_size, base_eq_iff}

mutual
  pub data InferredType : Type 0 where
    base : BaseType → InferredType
    pointer : Child → InferredType
    function : Child → Types → InferredType
    array : Child → ℕ → InferredType
    structure : ℕ → InferredType
    sum : Types → InferredType

  pub data Child : Type 0 where
    null : Child
    to : InferredType → Child

  pub data Types : Type 0 where
    nil : Types
    cons : InferredType → Types → Types

abbrev pub unknown : InferredType
unknown = base BaseType.unknown

abbrev pub bottom : InferredType
bottom = base BaseType.bottom

abbrev pub make_ptr : InferredType → InferredType
make_ptr t = pointer (to t)

abbrev pub make_func : InferredType → Types → InferredType
make_func r ps = function (to r) ps

abbrev pub make_array : InferredType → ℕ → InferredType
make_array t n = array (to t) n

abbrev pub is_unknown : InferredType → Bool
is_unknown (base b) = code b == code BaseType.unknown
is_unknown _ = false

abbrev pub is_bottom : InferredType → Bool
is_bottom (base b) = code b == code BaseType.bottom
is_bottom _ = false

abbrev pub is_pointer : InferredType → Bool
is_pointer (pointer c) = true
is_pointer _ = false

abbrev pub is_sum : InferredType → Bool
is_sum (sum ts) = true
is_sum _ = false

-- `Kind`, in the order of its enumerators.
abbrev pub kind : InferredType → ℕ
kind (base _) = 0
kind (pointer _) = 1
kind (function _ _) = 2
kind (array _ _) = 3
kind (structure _) = 4
kind (sum _) = 5

abbrev pub length_types : Types → ℕ
length_types nil = 0
length_types (cons t ts) = suc (length_types ts)

abbrev pub u32_mod : ℕ
u32_mod = 2 ^ 32

-- `size`: a product of 32-bit numbers wraps.
mutual
  pub size : InferredType → ℕ → ℕ
  size (base b) p = base_type_size b
  size (pointer c) p = p
  size (function r ps) p = p
  size (array c n) p = (size_child c p * n) % u32_mod
  size (structure t) p = 0
  size (sum ts) p = size_max ts p

  pub size_child : Child → ℕ → ℕ
  size_child null p = 0
  size_child (to t) p = size t p

  pub size_max : Types → ℕ → ℕ
  size_max nil p = 0
  size_max (cons t ts) p = max (size t p) (size_max ts p)

-- `operator==`.
mutual
  pub type_eq : InferredType → InferredType → Bool
  type_eq (base a) (base b) = code a == code b
  type_eq (pointer a) (pointer b) = child_eq a b
  type_eq (function a ps) (function b qs) = child_eq a b && types_eq ps qs
  type_eq (array a m) (array b n) = m == n && child_eq a b
  type_eq (structure a) (structure b) = a == b
  type_eq (sum ps) (sum qs) = types_eq ps qs
  type_eq _ _ = false

  pub child_eq : Child → Child → Bool
  child_eq null null = true
  child_eq (to a) (to b) = type_eq a b
  child_eq _ _ = false

  pub types_eq : Types → Types → Bool
  types_eq nil nil = true
  types_eq (cons a ps) (cons b qs) = type_eq a b && types_eq ps qs
  types_eq _ _ = false

mutual
  unfolding type_eq child_eq types_eq

  type_eq_sound : (a b : InferredType) → type_eq a b ≡ true → a ≡ b
  type_eq_sound (base a) (base b) h = ap base ((base_eq_iff a b).0 h)
  type_eq_sound (pointer a) (pointer b) h = ap pointer (child_eq_sound a b h)
  type_eq_sound (function a ps) (function b qs) h =
      let p = (&&_iff (child_eq a b) (types_eq ps qs)).0 h in
      ap₂ function (child_eq_sound a b p.0) (types_eq_sound ps qs p.1)
  type_eq_sound (array a m) (array b n) h =
      let p = (&&_iff (m == n) (child_eq a b)).0 h in
      ap₂ array (child_eq_sound a b p.1) ((==_iff m n).0 p.0)
  type_eq_sound (structure a) (structure b) h = ap structure ((==_iff a b).0 h)
  type_eq_sound (sum ps) (sum qs) h = ap sum (types_eq_sound ps qs h)
  type_eq_sound _ _ h = cc

  child_eq_sound : (a b : Child) → child_eq a b ≡ true → a ≡ b
  child_eq_sound null null h = refl
  child_eq_sound (to a) (to b) h = ap to (type_eq_sound a b h)
  child_eq_sound _ _ h = cc

  types_eq_sound : (a b : Types) → types_eq a b ≡ true → a ≡ b
  types_eq_sound nil nil h = refl
  types_eq_sound (cons a ps) (cons b qs) h =
      let p = (&&_iff (type_eq a b) (types_eq ps qs)).0 h in
      ap₂ cons (type_eq_sound a b p.0) (types_eq_sound ps qs p.1)
  types_eq_sound _ _ h = cc

mutual
  unfolding type_eq child_eq types_eq

  type_eq_refl : (a : InferredType) → type_eq a a ≡ true
  type_eq_refl (base a) = (==_iff (code a) (code a)).1 refl
  type_eq_refl (pointer a) = child_eq_refl a
  type_eq_refl (function a ps) = (&&_iff _ _).1 (child_eq_refl a, types_eq_refl ps)
  type_eq_refl (array a m) = (&&_iff _ _).1 ((==_iff m m).1 refl, child_eq_refl a)
  type_eq_refl (structure a) = (==_iff a a).1 refl
  type_eq_refl (sum ps) = types_eq_refl ps

  child_eq_refl : (a : Child) → child_eq a a ≡ true
  child_eq_refl null = refl
  child_eq_refl (to a) = type_eq_refl a

  types_eq_refl : (a : Types) → types_eq a a ≡ true
  types_eq_refl nil = refl
  types_eq_refl (cons a ps) = (&&_iff _ _).1 (type_eq_refl a, types_eq_refl ps)

-- `operator==` holds exactly of equal type trees.
pub type_eq_iff : (a b : InferredType) → (type_eq a b ≡ true) ↔ (a ≡ b)
type_eq_iff a b = (type_eq_sound a b, λ e. subst (λ c. type_eq a c ≡ true) e (type_eq_refl a))
