-- ===== src/Types/Base.antt =====
-- `BaseType` and its utilities (include/structor/z3/type_lattice.hpp, src/z3/type_lattice.cpp).
use ida_structor.Prelude.{
  ℕ, ◌+◌, ◌-◌, ◌≡◌, Bool, ◌&&◌, ◌||◌, String, arith, leb, ◌==◌, if◌then◌else◌, ==_iff, ◌↔◌, true,
}

-- `other n` is the value of the enumeration's underlying type that a cast from 14 + n makes.
pub data BaseType : Type 0 where
  unknown bottom : BaseType
  int8 int16 int32 int64 : BaseType
  uint8 uint16 uint32 uint64 : BaseType
  float32 float64 : BaseType
  void bool : BaseType
  other : ℕ → BaseType

-- `static_cast<unsigned>(type)`.
abbrev pub code : BaseType → ℕ
code unknown = 0
code bottom = 1
code int8 = 2
code int16 = 3
code int32 = 4
code int64 = 5
code uint8 = 6
code uint16 = 7
code uint32 = 8
code uint64 = 9
code float32 = 10
code float64 = 11
code void = 12
code bool = 13
code (other n) = 14 + n

-- `static_cast<BaseType>(n)`.
unfoldable pub cast_base : ℕ → BaseType
cast_base n =
    if n == 0
    then unknown
    else if n == 1
    then bottom
    else if n == 2
    then int8
    else if n == 3
    then int16
    else if n == 4
    then int32
    else if n == 5
    then int64
    else if n == 6
    then uint8
    else if n == 7
    then uint16
    else if n == 8
    then uint32
    else if n == 9
    then uint64
    else if n == 10
    then float32
    else if n == 11
    then float64
    else if n == 12
    then void
    else if n == 13
    then bool
    else other (n - 14)

pub base_type_name : BaseType → String
base_type_name unknown = "unknown"
base_type_name bottom = "bottom"
base_type_name int8 = "int8"
base_type_name int16 = "int16"
base_type_name int32 = "int32"
base_type_name int64 = "int64"
base_type_name uint8 = "uint8"
base_type_name uint16 = "uint16"
base_type_name uint32 = "uint32"
base_type_name uint64 = "uint64"
base_type_name float32 = "float32"
base_type_name float64 = "float64"
base_type_name void = "void"
base_type_name bool = "bool"
base_type_name (other n) = "invalid"

abbrev pub base_type_size : BaseType → ℕ
base_type_size int8 = 1
base_type_size uint8 = 1
base_type_size bool = 1
base_type_size int16 = 2
base_type_size uint16 = 2
base_type_size int32 = 4
base_type_size uint32 = 4
base_type_size float32 = 4
base_type_size int64 = 8
base_type_size uint64 = 8
base_type_size float64 = 8
base_type_size _ = 0

abbrev pub is_signed_int : BaseType → Bool
is_signed_int t = leb (code int8) (code t) && leb (code t) (code int64)

abbrev pub is_unsigned_int : BaseType → Bool
is_unsigned_int t = leb (code uint8) (code t) && leb (code t) (code uint64)

abbrev pub is_integer : BaseType → Bool
is_integer t = is_signed_int t || is_unsigned_int t

abbrev pub is_floating : BaseType → Bool
is_floating t = code t == code float32 || code t == code float64

pub base_type_from_size : ℕ → Bool → BaseType
base_type_from_size size is_signed =
    if is_signed
    then (if size == 1
        then int8
        else if size == 2
        then int16
        else if size == 4
        then int32
        else if size == 8
        then int64
        else unknown)
    else (if size == 1
        then uint8
        else if size == 2
        then uint16
        else if size == 4
        then uint32
        else if size == 8
        then uint64
        else unknown)

pub cast_base-code : (t : BaseType) → cast_base (code t) ≡ t
unfolding cast_base
cast_base-code t = ground arith

pub code-cast_base : (n : ℕ) → code (cast_base n) ≡ n
unfolding cast_base
code-cast_base n = ground arith

pub code_inj : (s t : BaseType) → code s ≡ code t → s ≡ t
code_inj s t h = ground (arith, cast_base-code s, cast_base-code t)

-- `a == b` on the enumeration.
pub base_eq_iff : (s t : BaseType) → ((code s == code t) ≡ true) ↔ (s ≡ t)
base_eq_iff s t = (λ h. code_inj s t ((==_iff (code s) (code t)).0 h), λ e. ground arith)
