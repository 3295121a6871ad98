-- ===== src/Types/Solver/Tags.antt =====
-- What the solver's formulas say of an encoded type.
use Prim.Native.Nat.{bit_or}
use ida_structor.Prelude.{
  ℕ, ◌*◌, ◌/◌, ◌%◌, ◌^◌, ◌<◌, ◌≡◌, refl, ap, ◌∙◌, true, false, ◌||◌, ◌==◌, arith, ltb, lt→ltb, leb,
  ◌&&◌,
}
use ida_structor.Prelude.Int.{pos, ◌+ℤ◌}
use ida_structor.Prelude.Bits.{bit_or-low, bit_or-shift, bit_or-lt}
use ida_structor.Types.Base.{
  BaseType, code, is_signed_int, is_unsigned_int, is_integer, is_floating,
}
use ida_structor.Types.Inferred.{
  InferredType, base, pointer, function, array, structure, sum, length_types, kind,
}
use ida_structor.Types.Subtype.{base_subtype, is_subtype}
use ida_structor.Types.Subtype.Rules.{is_subtype-base}
use ida_structor.Types.Solver.{
  to_int32, chain_depth, chain_base, encode_bits, encode, encode_ptr, mod256, kind_tag, base_tag,
  is_pointer_type, is_signed_type, is_unsigned_type, is_integer_type, is_floating_type, subtype_of,
}
use ida_structor.Types.Solver.Decode.{encode_bits-base}

mod256-to_int32 : (n : ℕ) → n < 2 ^ 32 → mod256 (to_int32 n) ≡ n % 256
mod256-to_int32 n h = ground arith

-- Any multiple of 256 of 32 bits, and `k` in the low byte.
tagged :
    (x k : ℕ) → k < 256 → x % 256 ≡ 0 → x < 2 ^ 32 → (bit_or x k % 256 ≡ k) × (bit_or x k < 2 ^ 32)
tagged x k h m l =
    let e : x ≡ (x / 256) * 256 = omega arith in
    (
      omega (arith, ap (λ y. bit_or y k) e, bit_or-low 8 (x / 256) k h),
      bit_or-lt 32 x k l (omega arith),
    )

pointer_high :
    (d c : ℕ)
    → let x = bit_or (d * 2 ^ 16 % 2 ^ 32) (c * 2 ^ 8 % 2 ^ 32) in (x % 256 ≡ 0) × (x < 2 ^ 32)
pointer_high d c =
    let u = d * 2 ^ 16 % 2 ^ 32 in
    let v = c * 2 ^ 8 % 2 ^ 32 in
    let e : u ≡ (u / 256) * 256 = omega arith in
    let f : v ≡ (v / 256) * 256 = omega arith in
    (
      rw (e, f) (rw (bit_or-shift 8 (u / 256) (v / 256)) (omega arith)),
      bit_or-lt 32 u v (omega arith) (omega arith),
    )

-- The low byte of an encoded type is its kind.
encode_bits-kind : (t : InferredType) → (encode_bits t % 256 ≡ kind t) × (encode_bits t < 2 ^ 32)
unfolding encode_bits
encode_bits-kind (base b) =
    tagged (code b * 2 ^ 8 % 2 ^ 32) 0 (omega arith) (omega arith) (omega arith)
encode_bits-kind (pointer c) =
    let h = pointer_high (chain_depth c) (code (chain_base c)) in tagged _ 1 (omega arith) h.0 h.1
encode_bits-kind (function r ps) =
    tagged (length_types ps * 2 ^ 8 % 2 ^ 32) 2 (omega arith) (omega arith) (omega arith)
encode_bits-kind (array c n) = tagged (n % 256 * 2 ^ 24) 3 (omega arith) (omega arith) (omega arith)
encode_bits-kind (structure t) = (refl, omega arith)
encode_bits-kind (sum ts) = (refl, omega arith)

-- The kind of every type, however deep, survives in its number: the tag that the formulas read is the
-- kind's.
pub kind_tag-encode : (t : InferredType) → kind_tag (encode t) ≡ kind t
unfolding encode
kind_tag-encode t = let h = encode_bits-kind t in mod256-to_int32 (encode_bits t) h.1 ∙ h.0

encode-base : (b : BaseType) → code b < 256 → encode (base b) ≡ pos (code b * 2 ^ 8)
unfolding encode
encode-base b h =
    let l : ltb (code b * 2 ^ 8) (2 ^ 31) ≡ true = lt→ltb _ _ (omega arith) in
    rw (encode_bits-base b h, l)

base_tag-pos : (c : ℕ) → c < 256 → base_tag (pos (c * 2 ^ 8)) ≡ c
base_tag-pos c h = omega arith

kind_tag-pos : (c : ℕ) → kind_tag (pos (c * 2 ^ 8)) ≡ 0
kind_tag-pos c = omega arith

-- The formulas on an encoded base type say what the functions on base types compute.
pub formulas-encode :
    (b : BaseType)
    → code b < 256
    → (is_signed_type (encode (base b)) ≡ is_signed_int b)
      × (is_unsigned_type (encode (base b)) ≡ is_unsigned_int b)
      × (is_integer_type (encode (base b)) ≡ is_integer b)
      × (is_floating_type (encode (base b)) ≡ is_floating b)
unfolding is_signed_type is_unsigned_type is_integer_type is_floating_type
formulas-encode b h =
    rw (encode-base b h, kind_tag-pos (code b), base_tag-pos (code b) h) (refl, refl, refl, refl)

one_family :
    (x y : BaseType)
    → (is_signed_int x && is_signed_int y || is_unsigned_int x && is_unsigned_int y) ≡ true
    → leb (code x) (code y) ≡ base_subtype x y
one_family x y h = ground arith

untagged : (m : ℕ) → (mod256 (pos (m * 2 ^ 8) +ℤ pos (2 ^ 16)) == 1) ≡ false
unfolding ◌+ℤ◌
untagged m = ground arith

same_or_below : (m n : ℕ) → ((m * 2 ^ 8 == n * 2 ^ 8) || leb m n) ≡ leb m n
same_or_below m n = ground arith

-- The solver's subtyping of two encoded base types is the order of their codes alone, whatever the
-- families that they belong to.
pub subtype_of-encode :
    (x y : BaseType)
    → code x < 256
    → code y < 256
    → subtype_of (encode (base x)) (encode (base y)) ≡ leb (code x) (code y)
unfolding subtype_of
subtype_of-encode x y h k =
    rw
      (
        encode-base x h,
        encode-base y k,
        kind_tag-pos (code x),
        kind_tag-pos (code y),
        base_tag-pos (code x) h,
        base_tag-pos (code y) k,
      )
      (same_or_below (code x) (code y))

-- On integers of one sign the solver's subtyping is the lattice's.
pub subtype_of-is_subtype :
    (x y : BaseType)
    → (is_signed_int x && is_signed_int y || is_unsigned_int x && is_unsigned_int y) ≡ true
    → subtype_of (encode (base x)) (encode (base y)) ≡ is_subtype (base x) (base y)
subtype_of-is_subtype x y h =
    rw
      (
        subtype_of-encode x y (ground arith) (ground arith),
        is_subtype-base x y (ground arith) (ground arith) (ground arith),
      )
      (one_family x y h)

-- One more pointer level on the number of a base type leaves the tag of a base type, so that the
-- solver does not take the result for a pointer.
pub encode_ptr-kind :
    (b : BaseType) → code b < 256 → is_pointer_type (encode_ptr (encode (base b))) ≡ false
unfolding is_pointer_type encode_ptr
encode_ptr-kind b h = rw (encode-base b h) (untagged (code b))
