-- ===== src/Storage/Offset/Product.antt =====
-- `checked_sval_mul` returns the product exactly where it is an offset.
use native.Mathlib.Nat.{div-lt_iff_lt-mul, mul_comm}
use ida_structor.Prelude.{
  ℕ, zero, suc, ◌-◌, ◌*◌, ◌/◌, ◌%◌, ◌^◌, ◌<◌, ◌≡◌, ◌↔◌, true, false, not, ◌&&◌, none, some, arith,
  ltb, ltb→lt, lt→ltb, ◌==◌, if◌then◌else◌, Bool-cases, inl, inr,
}
use ida_structor.Prelude.Int.{ℤ, pos, negsuc, ◌-ℤ◌, ◌*ℤ◌, ltb_ℤ}
use ida_structor.Storage.Offset.{checked_sval_mul, magnitude, signed_result}
use ida_structor.Storage.Offset.Exact.{IsSval, in_sval}

ltb_congr : (a b c d : ℕ) → (a < b) ↔ (c < d) → ltb a b ≡ ltb c d
ltb_congr a b c d h = elim (Bool-cases (ltb a b)) [
  | inl e ↦ rw (e, lt→ltb c d (h.0 (ltb→lt a b e)))
  | inr e ↦ elim (Bool-cases (ltb c d)) [
    | inl f ↦ absurd (ground (arith, h.1 (ltb→lt c d f)))
    | inr f ↦ rw (e, f)
  ]
]

-- The quotient test of a product is the test on the product.
pub product_test : (k m n : ℕ) → (not (m == 0) && ltb (k / m) n) ≡ ltb k (m * n)
product_test k zero n = ground arith
product_test k (suc m) n =
    let z : (suc m == 0) ≡ false = ground arith in
    rw z (
      ltb_congr (k / suc m) n k (suc m * n) (
        λ h. rw (mul_comm (suc m) n) ((div-lt_iff_lt-mul {k = suc m} (omega arith)).0 h),
        λ h. (div-lt_iff_lt-mul {k = suc m} (omega arith)).1 (rw (mul_comm n (suc m)) h),
      ))

magnitude-pos : (n : ℕ) → n < 2 ^ 63 → magnitude (pos n) ≡ n
magnitude-pos n h = omega arith

magnitude-negsuc : (n : ℕ) → n < 2 ^ 63 → magnitude (negsuc n) ≡ suc n
magnitude-negsuc n h = omega arith

-- The result for a product of magnitude `p`.
positive_product :
    (p : ℕ)
    → (if ltb (2 ^ 63 - 1) p then none else some (signed_result false (p % 2 ^ 64)))
      ≡ in_sval (pos p)
positive_product p = ground arith

negative_product :
    (p : ℕ)
    → (if ltb (2 ^ 63) p then none else some (signed_result true (p % 2 ^ 64)))
      ≡ in_sval (pos 0 -ℤ pos p)
unfolding ◌-ℤ◌
negative_product p = ground arith

product_pos_pos : (a b : ℕ) → pos (a * b) ≡ pos a *ℤ pos b
unfolding ◌*ℤ◌
product_pos_pos a b = ground arith

product_pos_neg : (a b : ℕ) → pos 0 -ℤ pos (a * suc b) ≡ pos a *ℤ negsuc b
unfolding ◌*ℤ◌ ◌-ℤ◌
product_pos_neg a b = ground arith

product_neg_pos : (a b : ℕ) → pos 0 -ℤ pos (suc a * b) ≡ negsuc a *ℤ pos b
unfolding ◌*ℤ◌ ◌-ℤ◌
product_neg_pos a b = ground arith

product_neg_neg : (a b : ℕ) → pos (suc a * suc b) ≡ negsuc a *ℤ negsuc b
unfolding ◌*ℤ◌
product_neg_neg a b = ground arith

not_negative : (n : ℕ) → ltb_ℤ (pos n) (pos 0) ≡ false
not_negative n = ground arith

negative : (n : ℕ) → ltb_ℤ (negsuc n) (pos 0) ≡ true
negative n = ground arith

-- On offsets `checked_sval_mul` returns the product where that is an offset, and nothing otherwise.
pub checked_sval_mul_exact :
    (l r : ℤ) → IsSval l → IsSval r → checked_sval_mul l r ≡ in_sval (l *ℤ r)
unfolding checked_sval_mul
checked_sval_mul_exact (pos a) (pos b) h k =
    let e : pos (a * b) ≡ pos a *ℤ pos b = product_pos_pos a b in
    rw
      (
        not_negative a,
        not_negative b,
        magnitude-pos a (omega arith),
        magnitude-pos b (omega arith),
        product_test (2 ^ 63 - 1) a b,
        ← e,
      )
      (positive_product (a * b))
checked_sval_mul_exact (pos a) (negsuc b) h k =
    let e = product_pos_neg a b in
    rw
      (
        not_negative a,
        negative b,
        magnitude-pos a (omega arith),
        magnitude-negsuc b (omega arith),
        product_test (2 ^ 63) a (suc b),
        ← e,
      )
      (negative_product (a * suc b))
checked_sval_mul_exact (negsuc a) (pos b) h k =
    let e = product_neg_pos a b in
    rw
      (
        negative a,
        not_negative b,
        magnitude-negsuc a (omega arith),
        magnitude-pos b (omega arith),
        product_test (2 ^ 63) (suc a) b,
        ← e,
      )
      (negative_product (suc a * b))
checked_sval_mul_exact (negsuc a) (negsuc b) h k =
    let e = product_neg_neg a b in
    rw
      (
        negative a,
        negative b,
        magnitude-negsuc a (omega arith),
        magnitude-negsuc b (omega arith),
        product_test (2 ^ 63 - 1) (suc a) (suc b),
        ← e,
      )
      (positive_product (suc a * suc b))
