-- ===== src/Types/Solver.antt =====
-- `TypeLatticeEncoder` (src/z3/type_lattice.cpp): types as integers of the solver. An expression is
-- read by its value: a solver integer is `ℤ`, a formula is a Boolean, and `%` and `/` by 256 are the
-- solver's, rounded down. What the model's evaluation gives is an argument of `decode`.
pub mod Decode
pub mod Tags
use Prim.Native.Nat.{bit_or}
use ida_structor.Prelude.{
  ℕ, zero, suc, ◌+◌, ◌-◌, ◌*◌, ◌/◌, ◌%◌, ◌^◌, Bool, true, false, ◌&&◌, ◌||◌, Option, none, some,
  ltb, leb, ◌==◌, if◌then◌else◌,
}
use ida_structor.Prelude.Int.{ℤ, pos, negsuc, ◌+ℤ◌}
use ida_structor.Types.Base.{BaseType, code, cast_base, base_type_size, void}
use ida_structor.Types.Base
use ida_structor.Types.Inferred.{
  InferredType, base, pointer, function, array, structure, sum, Child, null, to, nil, length_types,
  unknown, make_ptr, make_func, make_array, u32_mod,
}

-- An `int` by its 32 bits.
abbrev pub to_int32 : ℕ → ℤ
to_int32 n = if ltb n (2 ^ 31) then pos n else negsuc (2 ^ 32 - 1 - n)

abbrev pub of_int32 : ℤ → ℕ
of_int32 (pos n) = n % u32_mod
of_int32 (negsuc n) = u32_mod - 1 - n % u32_mod

-- The loop over nested pointers, from the pointee of the first: the depth, and where it ends.
unfoldable pub chain_depth : Child → ℕ
chain_depth (to (pointer c)) = suc (chain_depth c)
chain_depth _ = 1

pub chain_base : Child → BaseType
chain_base (to (pointer c)) = chain_base c
chain_base (to (base b)) = b
chain_base _ = void

-- The 32 bits of `encoded`.
pub encode_bits : InferredType → ℕ
unfolding chain_depth chain_base
encode_bits (base b) = bit_or (code b * 2 ^ 8 % u32_mod) 0
encode_bits (pointer c) =
    bit_or (bit_or (chain_depth c * 2 ^ 16 % u32_mod) (code (chain_base c) * 2 ^ 8 % u32_mod)) 1
encode_bits (function r ps) = bit_or (length_types ps * 2 ^ 8 % u32_mod) 2
encode_bits (array c n) = bit_or (n % 256 * 2 ^ 24) 3
encode_bits (structure t) = 4
encode_bits (sum ts) = 5

pub encode : InferredType → ℤ
unfolding encode_bits
encode t = to_int32 (encode_bits t)

pub encode_base : BaseType → ℤ
encode_base b = pos (code b)

pub encode_ptr : ℤ → ℤ
encode_ptr z = z +ℤ pos (2 ^ 16)

-- `BADADDR`.
abbrev pub badaddr : ℕ
badaddr = 2 ^ 64 - 1

pub wrap_pointers : ℕ → InferredType → InferredType
wrap_pointers zero t = t
wrap_pointers (suc n) t = wrap_pointers n (make_ptr t)

-- The type that the low 32 bits of a value stand for.
pub decode_bits : ℕ → InferredType
unfolding wrap_pointers
decode_bits n =
    let kind = n % 256 in
    let base_bits = n / 2 ^ 8 % 256 in
    let ptr_depth = n / 2 ^ 16 % 256 in
    if kind == 0
    then base (cast_base base_bits)
    else if kind == 1
    then wrap_pointers ptr_depth (base (cast_base base_bits))
    else if kind == 2
    then make_func (base void) nil
    else if kind == 3
    then make_array unknown (n / 2 ^ 24 % 256)
    else if kind == 4
    then structure badaddr
    else unknown

-- `get_numeral_int64` throws where the value has more than 64 bits.
abbrev pub fits_int64 : ℤ → Bool
fits_int64 (pos n) = ltb n (2 ^ 63)
fits_int64 (negsuc n) = ltb n (2 ^ 63)

-- `none` is an evaluation that gives no numeral, or throws.
pub decode : Option ℤ → InferredType
unfolding decode_bits
decode none = unknown
decode (some z) = if fits_int64 z then decode_bits (of_int32 z) else unknown

-- The solver's division and remainder by 256.
abbrev pub mod256 : ℤ → ℕ
mod256 (pos n) = n % 256
mod256 (negsuc n) = 255 - n % 256

abbrev pub div256 : ℤ → ℤ
div256 (pos n) = pos (n / 256)
div256 (negsuc n) = negsuc (n / 256)

abbrev pub kind_tag : ℤ → ℕ
kind_tag z = mod256 z

abbrev pub base_tag : ℤ → ℕ
base_tag z = mod256 (div256 z)

abbrev pub eq_ℤ : ℤ → ℤ → Bool
eq_ℤ (pos m) (pos n) = m == n
eq_ℤ (negsuc m) (negsuc n) = m == n
eq_ℤ _ _ = false

pub type_eq : ℤ → ℤ → Bool
type_eq s t = eq_ℤ s t

pub is_pointer_type : ℤ → Bool
is_pointer_type t = kind_tag t == 1

abbrev in_range : ℕ → BaseType → BaseType → Bool
in_range n lo hi = leb (code lo) n && leb n (code hi)

pub is_signed_type : ℤ → Bool
is_signed_type t = kind_tag t == 0 && in_range (base_tag t) Base.int8 Base.int64

pub is_unsigned_type : ℤ → Bool
is_unsigned_type t = kind_tag t == 0 && in_range (base_tag t) Base.uint8 Base.uint64

pub is_integer_type : ℤ → Bool
is_integer_type t =
    kind_tag t == 0
    && (in_range (base_tag t) Base.int8 Base.int64 || in_range (base_tag t) Base.uint8 Base.uint64)

pub is_floating_type : ℤ → Bool
is_floating_type t =
    kind_tag t == 0 && (base_tag t == code Base.float32 || base_tag t == code Base.float64)

-- The options of the base types from `n` on, `k` of them.
pub size_options : ℕ → ℕ → ℤ → ℕ → Bool
size_options zero n t size = false
size_options (suc k) n t size =
    base_type_size (cast_base n) == size && (kind_tag t == 0 && base_tag t == n)
    || size_options k (suc n) t size

-- The base types run from `Int8` to the one before `_Count`.
pub type_has_size : ℕ → ℤ → ℕ → Bool
unfolding is_pointer_type size_options
type_has_size ptr_size t size =
    size == ptr_size && is_pointer_type t || size_options 12 (code Base.int8) t size

pub subtype_of : ℤ → ℤ → Bool
unfolding type_eq
subtype_of s t = type_eq s t || kind_tag s == 0 && kind_tag t == 0 && leb (base_tag s) (base_tag t)

pub types_compatible : ℤ → ℤ → Bool
unfolding type_eq is_integer_type is_pointer_type
types_compatible s t =
    type_eq s t || is_integer_type s && is_integer_type t || is_pointer_type s && is_pointer_type t
