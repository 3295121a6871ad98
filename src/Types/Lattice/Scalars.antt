-- ===== src/Types/Lattice/Scalars.antt =====
-- `lub` and `glb` of two base types against `is_subtype`.
use ida_structor.Prelude.{
  ℕ, ◌≡◌, refl, Bool, true, false, ◌||◌, ◌&&◌, ◌⊎◌, inl, inr, arith, Bool-cases, min, max,
}
use ida_structor.Types.Base.{
  BaseType, code, cast_base, cast_base-code, is_signed_int, is_unsigned_int, is_integer,
}
use ida_structor.Types.Inferred.{base, is_bottom, bottom}
use ida_structor.Types.Subtype.{base_subtype}
use ida_structor.Types.Subtype.Rules.{Sub, from_bottom, to_unknown, of_base}
use ida_structor.Types.Lattice.{lub_base, glb_base}

pub min_cases : (m n : ℕ) → (min m n ≡ m) ⊎ (min m n ≡ n)
min_cases m n = omega arith

pub max_cases : (m n : ℕ) → (max m n ≡ m) ⊎ (max m n ≡ n)
max_cases m n = omega arith

-- The smaller of two integers of one sign is below both.
pub signed_min :
    (x y : BaseType)
    → is_signed_int x && is_signed_int y ≡ true
    → (base_subtype (cast_base (min (code x) (code y))) x ≡ true)
      × (base_subtype (cast_base (min (code x) (code y))) y ≡ true)
signed_min x y h = elim (min_cases (code x) (code y)) [
  | inl e ↦ rw (e, cast_base-code) (ground arith, ground arith)
  | inr e ↦ rw (e, cast_base-code) (ground arith, ground arith)
]

pub unsigned_min :
    (x y : BaseType)
    → is_unsigned_int x && is_unsigned_int y ≡ true
    → (base_subtype (cast_base (min (code x) (code y))) x ≡ true)
      × (base_subtype (cast_base (min (code x) (code y))) y ≡ true)
unsigned_min x y h = elim (min_cases (code x) (code y)) [
  | inl e ↦ rw (e, cast_base-code) (ground arith, ground arith)
  | inr e ↦ rw (e, cast_base-code) (ground arith, ground arith)
]

pub glb_base-Sub : (x y : BaseType) → Sub (glb_base x y) (base x) × Sub (glb_base x y) (base y)
glb_base-Sub x y = elim (Bool-cases (is_signed_int x && is_signed_int y)) [
  | inl e ↦ let p = signed_min x y e in rw e (of_base p.0, of_base p.1)
  | inr e ↦ elim (Bool-cases (is_unsigned_int x && is_unsigned_int y)) [
    | inl f ↦ let p = unsigned_min x y f in rw (e, f) (of_base p.0, of_base p.1)
    | inr f ↦ rw (e, f) (from_bottom refl, from_bottom refl)
  ]
]

signed_max :
    (x y : BaseType)
    → is_signed_int x && is_signed_int y ≡ true
    → (base_subtype x (cast_base (max (code x) (code y))) ≡ true)
      × (base_subtype y (cast_base (max (code x) (code y))) ≡ true)
signed_max x y h = elim (max_cases (code x) (code y)) [
  | inl e ↦ rw (e, cast_base-code) (ground arith, ground arith)
  | inr e ↦ rw (e, cast_base-code) (ground arith, ground arith)
]

unsigned_max :
    (x y : BaseType)
    → is_unsigned_int x && is_unsigned_int y ≡ true
    → (base_subtype x (cast_base (max (code x) (code y))) ≡ true)
      × (base_subtype y (cast_base (max (code x) (code y))) ≡ true)
unsigned_max x y h = elim (max_cases (code x) (code y)) [
  | inl e ↦ rw (e, cast_base-code) (ground arith, ground arith)
  | inr e ↦ rw (e, cast_base-code) (ground arith, ground arith)
]

-- Two integers of different signs.
abbrev pub mixed_signs : BaseType → BaseType → Bool
mixed_signs x y = is_signed_int x && is_unsigned_int y || is_unsigned_int x && is_signed_int y

pub lub_base-Sub :
    (x y : BaseType)
    → mixed_signs x y ≡ false
    → Sub (base x) (lub_base x y) × Sub (base y) (lub_base x y)
lub_base-Sub x y m = elim (Bool-cases (is_signed_int x && is_signed_int y)) [
  | inl e ↦ let p = signed_max x y e in rw e (of_base p.0, of_base p.1)
  | inr e ↦ elim (Bool-cases (is_unsigned_int x && is_unsigned_int y)) [
    | inl f ↦ let p = unsigned_max x y f in rw (e, f) (of_base p.0, of_base p.1)
    | inr f ↦
        let g : is_integer x && is_integer y ≡ false = ground arith in
        rw (e, f, g) (to_unknown refl, to_unknown refl)
  ]
]

-- Two base types of which neither is below the other.
abbrev pub Apart : BaseType → BaseType → Type 0
Apart x y = (base_subtype x y ≡ false) × (base_subtype y x ≡ false)

pub glb_base_apart : (x y : BaseType) → Apart x y → glb_base x y ≡ bottom
glb_base_apart x y h = elim (Bool-cases (is_signed_int x && is_signed_int y)) [
  | inl e ↦ absurd (ground arith)
  | inr e ↦ elim (Bool-cases (is_unsigned_int x && is_unsigned_int y)) [
    | inl f ↦ absurd (ground arith)
    | inr f ↦ rw (e, f)
  ]
]

-- Nothing but an unknown type is above both.
pub above_apart :
    (x y z : BaseType)
    → Apart x y
    → is_bottom (base x) ≡ false
    → is_bottom (base y) ≡ false
    → base_subtype x z ≡ true
    → base_subtype y z ≡ true
    → ⊥
above_apart x y z h bx byy k l = ground arith

-- Nothing but bottom is below both.
pub below_apart :
    (x y z : BaseType) → Apart x y → base_subtype z x ≡ true → base_subtype z y ≡ true → ⊥
below_apart x y z h k l = ground arith
