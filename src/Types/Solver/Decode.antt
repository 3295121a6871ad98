-- ===== src/Types/Solver/Decode.antt =====
-- What the solver's integers keep of a type: chains of pointers to a base type come back whole, and
-- the kind of a type can be read from its number.
use Prim.Native.Nat.{bit_or}
use ida_structor.Prelude.{
  ℕ, zero, suc, ◌+◌, ◌*◌, ◌/◌, ◌%◌, ◌^◌, ◌<◌, ◌≡◌, refl, ap, true, some, arith,
}
use ida_structor.Prelude.Bits.{bit_or-low, bit_or-zero}
use ida_structor.Types.Base.{BaseType, code, cast_base, cast_base-code}
use ida_structor.Types.Inferred.{InferredType, base, pointer, Child, null, to, make_ptr}
use ida_structor.Types.Solver.{
  to_int32, of_int32, chain_depth, chain_base, encode_bits, encode, wrap_pointers, decode_bits,
  decode, fits_int64,
}

pub wrap_pointers-suc :
    (n : ℕ) (t : InferredType) → wrap_pointers (suc n) t ≡ make_ptr (wrap_pointers n t)
unfolding wrap_pointers
wrap_pointers-suc zero t = refl
wrap_pointers-suc (suc n) t = wrap_pointers-suc n (make_ptr t)

chain_depth-wrap : (n : ℕ) (b : BaseType) → chain_depth (to (wrap_pointers n (base b))) ≡ suc n
unfolding chain_depth wrap_pointers
chain_depth-wrap zero b = refl
chain_depth-wrap (suc n) b = rw (wrap_pointers-suc n (base b)) (ap suc (chain_depth-wrap n b))

chain_base-wrap : (n : ℕ) (b : BaseType) → chain_base (to (wrap_pointers n (base b))) ≡ b
unfolding chain_base wrap_pointers
chain_base-wrap zero b = refl
chain_base-wrap (suc n) b = rw (wrap_pointers-suc n (base b)) (chain_base-wrap n b)

pub chain_depth_pos : (c : Child) → 0 < chain_depth c
unfolding chain_depth
chain_depth_pos null = omega arith
chain_depth_pos (to (pointer c)) = omega arith
chain_depth_pos _ = omega arith

-- The bits of a pointer's number, and of a base type's.
pointer_bits :
    (d c : ℕ)
    → d < 256
    → c < 256
    → bit_or (bit_or (d * 2 ^ 16 % 2 ^ 32) (c * 2 ^ 8 % 2 ^ 32)) 1 ≡ d * 2 ^ 16 + c * 2 ^ 8 + 1
pointer_bits d c h k =
    let e : d * 2 ^ 16 % 2 ^ 32 ≡ d * 2 ^ 16 = omega arith in
    let f : c * 2 ^ 8 % 2 ^ 32 ≡ c * 2 ^ 8 = omega arith in
    let g : d * 2 ^ 16 + c * 2 ^ 8 ≡ (d * 2 ^ 15 + c * 2 ^ 7) * 2 = omega arith in
    rw
      (
        e,
        f,
        bit_or-low 16 d (c * 2 ^ 8) (omega arith),
        g,
        bit_or-low 1 (d * 2 ^ 15 + c * 2 ^ 7) 1 (omega arith),
      )
      refl

of_int32-to_int32 : (n : ℕ) → n < 2 ^ 32 → of_int32 (to_int32 n) ≡ n
of_int32-to_int32 n h = ground arith

fits_int64-to_int32 : (n : ℕ) → n < 2 ^ 32 → fits_int64 (to_int32 n) ≡ true
fits_int64-to_int32 n h = ground arith

decode-bits : (n : ℕ) → n < 2 ^ 32 → decode (some (to_int32 n)) ≡ decode_bits n
unfolding decode
decode-bits n h = rw (fits_int64-to_int32 n h, of_int32-to_int32 n h)

base_bits : (c : ℕ) → c < 256 → bit_or (c * 2 ^ 8 % 2 ^ 32) 0 ≡ c * 2 ^ 8
base_bits c h =
    let f : c * 2 ^ 8 % 2 ^ 32 ≡ c * 2 ^ 8 = omega arith in rw (f, bit_or-zero (c * 2 ^ 8))

decode_bits-base : (c : ℕ) → c < 256 → decode_bits (c * 2 ^ 8) ≡ base (cast_base c)
unfolding decode_bits
decode_bits-base c h =
    let k : c * 2 ^ 8 % 256 ≡ 0 = omega arith in
    let b : c * 2 ^ 8 / 2 ^ 8 % 256 ≡ c = omega arith in rw (k, b)

decode_bits-pointer :
    (d c : ℕ)
    → d < 256
    → c < 256
    → decode_bits (d * 2 ^ 16 + c * 2 ^ 8 + 1) ≡ wrap_pointers d (base (cast_base c))
unfolding decode_bits
decode_bits-pointer d c h l =
    let n = d * 2 ^ 16 + c * 2 ^ 8 + 1 in
    let k : n % 256 ≡ 1 = omega arith in
    let b : n / 2 ^ 8 % 256 ≡ c = omega arith in
    let p : n / 2 ^ 16 % 256 ≡ d = omega arith in rw (k, b, p)

encode_bits-wrap :
    (n : ℕ) (b : BaseType)
    → suc n < 256
    → code b < 256
    → encode_bits (wrap_pointers (suc n) (base b)) ≡ suc n * 2 ^ 16 + code b * 2 ^ 8 + 1
unfolding encode_bits
encode_bits-wrap n b h k =
    rw (wrap_pointers-suc n (base b), encode_bits, chain_depth-wrap n b, chain_base-wrap n b)
      (pointer_bits (suc n) (code b) h k)

pub encode_bits-base : (b : BaseType) → code b < 256 → encode_bits (base b) ≡ code b * 2 ^ 8
unfolding encode_bits
encode_bits-base b h = base_bits (code b) h

wrap_pointers-zero : (t : InferredType) → wrap_pointers 0 t ≡ t
unfolding wrap_pointers
wrap_pointers-zero t = refl

-- A base type under at most 255 pointers comes back from its number, if its own code is below 256.
pub decode-encode :
    (n : ℕ) (b : BaseType)
    → n < 256
    → code b < 256
    → decode (some (encode (wrap_pointers n (base b)))) ≡ wrap_pointers n (base b)
unfolding encode
decode-encode zero b h k = rw (
  wrap_pointers-zero (base b),
  encode_bits-base b k,
  decode-bits (code b * 2 ^ 8) (omega arith),
  decode_bits-base (code b) k,
  cast_base-code b,
)
decode-encode (suc n) b h k = rw (
  encode_bits-wrap n b h k,
  decode-bits (suc n * 2 ^ 16 + code b * 2 ^ 8 + 1) (omega arith),
  decode_bits-pointer (suc n) (code b) h k,
  cast_base-code b,
)
