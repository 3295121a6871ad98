-- ===== src/Types/Bitvector/Fields.antt =====
-- The fields of an encoded type, and what comes back from its vector.
use ida_structor.Prelude.{
  ℕ, ◌+◌, ◌*◌, ◌/◌, ◌%◌, ◌^◌, ◌<◌, ◌≡◌, refl, true, false, some, ltb, arith, lt→ltb,
}
use ida_structor.Prelude.Bits.{bit_or-low, bit_or-shift, bit_or-even}
use ida_structor.Types.Base.{BaseType, code, cast_base, base_type_size, is_signed_int, other}
use ida_structor.Types.Base
use ida_structor.Types.Inferred.{base, pointer, unknown, Child}
use ida_structor.Types.Solver.{chain_depth, wrap_pointers}
use ida_structor.Types.Solver.Decode.{chain_depth_pos}
use ida_structor.Types.Bitvector.{
  pointer_vector, encode, decode, is_pointer, is_integer, is_signed, get_size,
}

pointer_vector-sum :
    (p d : ℕ) → p < 256 → d < 256 → pointer_vector p d ≡ d * 2 ^ 16 + 2 ^ 14 + p * 2 ^ 6
pointer_vector-sum p d h k =
    let e : d * 2 ^ 16 % 2 ^ 32 ≡ d * 4 * 2 ^ 14 = omega arith in
    let f : p * 2 ^ 6 % 2 ^ 32 ≡ p * 2 ^ 6 = omega arith in
    let g : d * 4 ≡ d * 2 * 2 = omega arith in
    rw
      (
        e,
        f,
        bit_or-shift 14 1 (d * 4),
        g,
        bit_or-even (d * 2),
        bit_or-low 14 (d * 2 * 2 + 1) (p * 2 ^ 6) (omega arith),
      )
      (omega arith)

-- Of the enumerators, the vector of a base type gives back the type, its size and its kind.
pub base_fields :
    (p : ℕ) (b : BaseType)
    → code b < 14
    → (decode (some (encode p (base b))) ≡ base b)
      × (get_size (encode p (base b)) ≡ base_type_size b)
      × (is_pointer (encode p (base b)) ≡ false)
      × (is_integer (encode p (base b)) ≡ Base.is_integer b)
      × (is_signed (encode p (base b)) ≡ is_signed_int b)
unfolding decode encode get_size is_pointer is_integer is_signed cast_base
base_fields p (other n) h = absurd (omega arith)
base_fields p _ h = (refl, refl, refl, refl, refl)

-- A chain of at most 255 pointers comes back as long as it was, over a type that is unknown.
pub pointer_fields :
    (p : ℕ) (c : Child)
    → p < 256
    → chain_depth c < 256
    → (decode (some (encode p (pointer c))) ≡ wrap_pointers (chain_depth c) unknown)
      × (get_size (encode p (pointer c)) ≡ p)
      × (is_pointer (encode p (pointer c)) ≡ true)
      × (is_integer (encode p (pointer c)) ≡ false)
unfolding decode encode get_size is_pointer is_integer cast_base
pointer_fields p c h k =
    let d = chain_depth c in
    let v = d * 2 ^ 16 + 2 ^ 14 + p * 2 ^ 6 in
    let tag : v % 64 ≡ 0 = omega arith in
    let size : v / 64 % 256 ≡ p = omega arith in
    let flag : v / 2 ^ 14 % 2 ≡ 1 = omega arith in
    let depth : v / 2 ^ 16 % 256 ≡ d = omega arith in
    let some_depth : ltb 0 d ≡ true = lt→ltb 0 d (chain_depth_pos c) in
    rw (pointer_vector-sum p d h k, tag, size, flag, depth, some_depth) (refl, refl, refl, refl)
