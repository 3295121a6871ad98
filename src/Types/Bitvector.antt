-- ===== src/Types/Bitvector.antt =====
-- `BitvectorTypeEncoder` (src/z3/type_lattice.cpp): types as 32-bit vectors, read by their values.
pub mod Fields
use Prim.Native.Nat.{bit_or}
use ida_structor.Prelude.{
  ℕ, ◌*◌, ◌/◌, ◌%◌, ◌^◌, ◌<◌, Bool, true, false, ◌&&◌, ◌||◌, Option, none, some, leb, ltb, ◌==◌,
  if◌then◌else◌,
}
use ida_structor.Types.Base.{code, cast_base, base_type_size, is_signed_int, BaseType}
use ida_structor.Types.Base
use ida_structor.Types.Inferred.{InferredType, base, pointer, unknown, u32_mod}
use ida_structor.Types.Solver.{chain_depth, wrap_pointers}

-- The size, and the signed flag of a signed integer.
abbrev pub base_vector : BaseType → ℕ
base_vector b =
    let sized = bit_or (code b) (base_type_size b * 2 ^ 6) in
    if is_signed_int b then bit_or sized (2 ^ 15) else sized

abbrev pub pointer_vector : ℕ → ℕ → ℕ
pointer_vector ptr_size depth =
    bit_or (bit_or (2 ^ 14) (depth * 2 ^ 16 % u32_mod)) (ptr_size * 2 ^ 6 % u32_mod)

-- Of any other kind the base type is the default one.
pub encode : ℕ → InferredType → ℕ
encode ptr_size (base b) = base_vector b
encode ptr_size (pointer c) = pointer_vector ptr_size (chain_depth c)
encode ptr_size _ = code Base.unknown

pub encode_known : BaseType → ℕ → Bool → ℕ → ℕ
encode_known b size is_ptr ptr_depth =
    let sized = bit_or (code b) (size * 2 ^ 6 % u32_mod) in
    let flagged = if is_ptr then bit_or sized (2 ^ 14) else sized in
    let signed = if is_signed_int b then bit_or flagged (2 ^ 15) else flagged in
    bit_or signed (ptr_depth * 2 ^ 16 % u32_mod)

abbrev pub extract_base_tag : ℕ → ℕ
extract_base_tag v = v % 2 ^ 6

abbrev pub extract_size_bits : ℕ → ℕ
extract_size_bits v = v / 2 ^ 6 % 2 ^ 8

abbrev pub extract_ptr_flag : ℕ → ℕ
extract_ptr_flag v = v / 2 ^ 14 % 2

abbrev pub extract_signed_flag : ℕ → ℕ
extract_signed_flag v = v / 2 ^ 15 % 2

abbrev pub extract_ptr_depth : ℕ → ℕ
extract_ptr_depth v = v / 2 ^ 16 % 2 ^ 8

-- `none` is an evaluation that throws.
pub decode : Option ℕ → InferredType
decode none = unknown
decode (some v) =
    let tag = v % 64 in
    let depth = v / 2 ^ 16 % 256 in
    if v / 2 ^ 14 % 2 == 1 && ltb 0 depth
    then wrap_pointers depth (base (cast_base tag))
    else base (cast_base tag)

pub is_pointer : ℕ → Bool
is_pointer v = extract_ptr_flag v == 1

-- The solver compares bit vectors as signed numbers: a tag of six bits with the top bit set is
-- negative. `Int8` and `UInt64` are positive.
pub is_integer : ℕ → Bool
is_integer v =
    extract_ptr_flag v == 0
    && (ltb (extract_base_tag v) 32 && leb (code Base.int8) (extract_base_tag v))
    && (leb 32 (extract_base_tag v) || leb (extract_base_tag v) (code Base.uint64))

pub is_signed : ℕ → Bool
is_signed v = extract_signed_flag v == 1

-- The constant has eight bits.
pub has_size : ℕ → ℕ → Bool
has_size v size = extract_size_bits v == size % 2 ^ 8

pub get_size : ℕ → ℕ
get_size v = extract_size_bits v

pub types_compatible : ℕ → ℕ → Bool
unfolding is_integer is_pointer
types_compatible s t =
    s == t
    || extract_size_bits s == extract_size_bits t
      && (is_integer s && is_integer t || is_pointer s && is_pointer t)
