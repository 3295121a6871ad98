-- ===== src/Storage/Offset.antt =====
-- Checked arithmetic on offsets (include/structor/synth_types.hpp). An `sval_t` is the signed 64-bit
-- integer that it stands for; a result that C++ wraps is written with its modulus.
pub mod Exact
pub mod Product
pub mod Ranges
use Prim.Native.Nat.{bit_and}
use ida_structor.Prelude.{
  ℕ, suc, ◌+◌, ◌-◌, ◌*◌, ◌/◌, ◌%◌, ◌^◌, Bool, true, false, not, ◌&&◌, ◌||◌, Option, none, some, ltb,
  leb, ◌==◌, if◌then◌else◌,
}
use ida_structor.Prelude.Int.{ℤ, pos, negsuc, ◌+ℤ◌, ◌-ℤ◌, ltb_ℤ, leb_ℤ}

abbrev pub u32_max : ℕ
u32_max = 2 ^ 32 - 1

abbrev pub sval_max : ℤ
sval_max = pos (2 ^ 63 - 1)

abbrev pub sval_min : ℤ
sval_min = negsuc (2 ^ 63 - 1)

-- `static_cast<std::uint64_t>(z)`, and back.
abbrev pub to_u64 : ℤ → ℕ
to_u64 (pos n) = n % 2 ^ 64
to_u64 (negsuc n) = 2 ^ 64 - 1 - n % 2 ^ 64

abbrev pub of_u64 : ℕ → ℤ
of_u64 n = if ltb n (2 ^ 63) then pos n else negsuc (2 ^ 64 - 1 - n)

unfoldable pub checked_interval_end : ℤ → ℕ → Option ℤ
checked_interval_end offset size =
    if ltb_ℤ (sval_max -ℤ pos size) offset then none else some (offset +ℤ pos size)

pub checked_interval_span : ℤ → ℤ → Option ℕ
checked_interval_span begin end =
    if ltb_ℤ end begin then none else some ((to_u64 end + 2 ^ 64 - to_u64 begin) % 2 ^ 64)

-- The test on the two ends, where both are there.
abbrev pub ends_overlap : ℤ → Option ℤ → ℤ → Option ℤ → Bool
ends_overlap l (some l') r (some r') = ltb_ℤ l r' && ltb_ℤ r l'
ends_overlap _ _ _ _ = false

pub checked_intervals_overlap : ℤ → ℕ → ℤ → ℕ → Bool
checked_intervals_overlap l m r n =
    if m == 0 || n == 0
    then false
    else ends_overlap l (checked_interval_end l m) r (checked_interval_end r n)

abbrev pub ends_contain : ℤ → Option ℤ → ℤ → Option ℤ → Bool
ends_contain o (some o') i (some i') = leb_ℤ o i && leb_ℤ i' o'
ends_contain _ _ _ _ = false

pub checked_interval_contains : ℤ → ℕ → ℤ → ℕ → Bool
checked_interval_contains o m i n =
    ends_contain o (checked_interval_end o m) i (checked_interval_end i n)

pub checked_u32_product : ℕ → ℕ → Option ℕ
checked_u32_product l r =
    if not (l == 0) && ltb (u32_max / l) r then none else some (l * r % 2 ^ 32)

pub checked_sval_add : ℤ → ℤ → Option ℤ
checked_sval_add l r =
    if ltb_ℤ (pos 0) r && ltb_ℤ (sval_max -ℤ r) l || ltb_ℤ r (pos 0) && ltb_ℤ l (sval_min -ℤ r)
    then none
    else some (l +ℤ r)

pub checked_sval_sub : ℤ → ℤ → Option ℤ
checked_sval_sub l r =
    if ltb_ℤ (pos 0) r && ltb_ℤ l (sval_min +ℤ r) || ltb_ℤ r (pos 0) && ltb_ℤ (sval_max +ℤ r) l
    then none
    else some (l -ℤ r)

-- The magnitude of an `sval_t` in unsigned arithmetic: `U{0} - bits` of a negative one.
abbrev pub magnitude : ℤ → ℕ
magnitude (pos n) = n % 2 ^ 64
magnitude (negsuc n) = (2 ^ 64 - to_u64 (negsuc n)) % 2 ^ 64

-- What is returned for a product of magnitude `m`; `m` is at most 2 ^ 63 where it is negative.
abbrev pub signed_result : Bool → ℕ → ℤ
signed_result negative m =
    if not negative then of_u64 m else if m == 2 ^ 63 then sval_min else pos 0 -ℤ of_u64 m

abbrev pub is_negative : ℤ → Bool
is_negative z = ltb_ℤ z (pos 0)

abbrev pub signs_differ : Bool → Bool → Bool
signs_differ true b = not b
signs_differ false b = b

pub checked_sval_mul : ℤ → ℤ → Option ℤ
checked_sval_mul l r =
    let negative = signs_differ (is_negative l) (is_negative r) in
    let limit : ℕ = if negative then 2 ^ 63 else 2 ^ 63 - 1 in
    if not (magnitude l == 0) && ltb (limit / magnitude l) (magnitude r)
    then none
    else some (signed_result negative (magnitude l * magnitude r % 2 ^ 64))

pub checked_sval_from_u64 : ℕ → Option ℤ
checked_sval_from_u64 n = if ltb (2 ^ 63 - 1) n then none else some (pos n)

-- `size & (size - 1)` on unsigned numbers; 0 - 1 wraps to all ones, and `&` with 0 is 0.
abbrev pub lacks_second_bit : ℕ → Bool
lacks_second_bit n = bit_and n (n - 1) == 0

pub is_valid_abi_alignment : ℤ → Bool
is_valid_abi_alignment (negsuc n) = false
is_valid_abi_alignment (pos n) = if n == 0 || ltb (2 ^ 31 - 1) n then false else lacks_second_bit n

-- `(offset + adjustment) & ~adjustment` on the two's complement bits.
pub align_offset : ℤ → ℕ → ℤ
align_offset offset alignment =
    if alignment == 0 || not (lacks_second_bit alignment)
    then sval_max
    else if ltb_ℤ (sval_max -ℤ pos (alignment - 1)) offset
    then sval_max
    else of_u64 (bit_and (to_u64 (offset +ℤ pos (alignment - 1))) (2 ^ 64 - 1 - (alignment - 1)))

pub compute_alignment : ℕ → ℕ
compute_alignment size =
    if leb 8 size then 8 else if leb 4 size then 4 else if leb 2 size then 2 else 1
