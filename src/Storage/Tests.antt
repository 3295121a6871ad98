-- ===== src/Storage/Tests.antt =====
-- The theorems on storage arithmetic at concrete inputs.
use ida_structor.Prelude.{◌≡◌, true, arith, ◌↔◌}
use ida_structor.Prelude.Int.{ℤ, pos, negsuc, ◌+ℤ◌, ◌*ℤ◌}
use ida_structor.Storage.Offset.{checked_sval_mul, checked_intervals_overlap}
use ida_structor.Storage.Offset.Exact.{IsSval, in_sval}
use ida_structor.Storage.Offset.Product.{checked_sval_mul_exact}
use ida_structor.Storage.Offset.Ranges.{IsRange, Covers, checked_intervals_overlap_iff}

three : IsSval (pos 3)
three = (omega arith, omega arith)

minus_five : IsSval (negsuc 4)
minus_five = (omega arith, omega arith)

checked_sval_mul_exact_example : checked_sval_mul (pos 3) (negsuc 4) ≡ in_sval (pos 3 *ℤ negsuc 4)
checked_sval_mul_exact_example = checked_sval_mul_exact (pos 3) (negsuc 4) three minus_five

low : IsRange (negsuc 4) 8
unfolding ◌+ℤ◌
low = record { start = minus_five; size = omega arith; fits = omega arith }

checked_intervals_overlap_iff_example :
    (checked_intervals_overlap (negsuc 4) 8 (pos 2) 4 ≡ true)
    ↔ ((x : ℤ) × Covers (negsuc 4) 8 x × Covers (pos 2) 4 x)
unfolding ◌+ℤ◌
checked_intervals_overlap_iff_example =
    checked_intervals_overlap_iff (negsuc 4) 8 (pos 2) 4 low
      (record { start = (omega arith, omega arith); size = omega arith; fits = omega arith })
