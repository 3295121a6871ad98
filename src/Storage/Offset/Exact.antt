-- ===== src/Storage/Offset/Exact.antt =====
-- The checked operations return the mathematical result exactly where it is an `sval_t`.
use ida_structor.Prelude.{ℕ, ◌^◌, ◌<◌, ◌≡◌, ◌&&◌, Option, none, some, arith, if◌then◌else◌}
use ida_structor.Prelude.Int.{ℤ, pos, negsuc, ◌+ℤ◌, ◌-ℤ◌, pos_part, ◌≤ℤ◌, ltb_ℤ, leb_ℤ}
use ida_structor.Storage.Offset.{
  sval_max, sval_min, checked_interval_end, checked_interval_span, checked_sval_add,
  checked_sval_sub,
}

abbrev pub IsSval : ℤ → Type 0
IsSval z = (sval_min ≤ℤ z) × (z ≤ℤ sval_max)

-- The number, if it is an `sval_t`.
abbrev pub in_sval : ℤ → Option ℤ
in_sval z = if leb_ℤ sval_min z && leb_ℤ z sval_max then some z else none

-- On offsets `checked_sval_add` returns the sum where that is an offset, and nothing otherwise.
pub checked_sval_add_exact :
    (l r : ℤ) → IsSval l → IsSval r → checked_sval_add l r ≡ in_sval (l +ℤ r)
unfolding checked_sval_add ◌+ℤ◌ ◌-ℤ◌
checked_sval_add_exact (pos l) (pos r) h k = ground arith
checked_sval_add_exact (pos l) (negsuc r) h k = ground arith
checked_sval_add_exact (negsuc l) (pos r) h k = ground arith
checked_sval_add_exact (negsuc l) (negsuc r) h k = ground arith

-- On offsets `checked_sval_sub` returns the difference where that is an offset, and nothing otherwise.
pub checked_sval_sub_exact :
    (l r : ℤ) → IsSval l → IsSval r → checked_sval_sub l r ≡ in_sval (l -ℤ r)
unfolding checked_sval_sub ◌+ℤ◌ ◌-ℤ◌
checked_sval_sub_exact (pos l) (pos r) h k = ground arith
checked_sval_sub_exact (pos l) (negsuc r) h k = ground arith
checked_sval_sub_exact (negsuc l) (pos r) h k = ground arith
checked_sval_sub_exact (negsuc l) (negsuc r) h k = ground arith

-- The end of a byte range is its offset plus its size, where that is an offset.
pub checked_interval_end_exact :
    (o : ℤ) (n : ℕ) → IsSval o → n < 2 ^ 32 → checked_interval_end o n ≡ in_sval (o +ℤ pos n)
unfolding checked_interval_end ◌+ℤ◌ ◌-ℤ◌
checked_interval_end_exact (pos o) n h k = ground arith
checked_interval_end_exact (negsuc o) n h k = ground arith

-- `checked_interval_span` is the distance of two ordered offsets over the full signed domain, and
-- nothing for two that are out of order.
pub checked_interval_span_exact :
    (b e : ℤ)
    → IsSval b
    → IsSval e
    → checked_interval_span b e ≡ (if ltb_ℤ e b then none else some (pos_part (e -ℤ b)))
unfolding checked_interval_span ◌-ℤ◌
checked_interval_span_exact (pos b) (pos e) h k = ground arith
checked_interval_span_exact (pos b) (negsuc e) h k = ground arith
checked_interval_span_exact (negsuc b) (pos e) h k = ground arith
checked_interval_span_exact (negsuc b) (negsuc e) h k = ground arith
