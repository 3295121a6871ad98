-- ===== src/Solving/Unions/Counts.antt =====
-- The relation counts are exact, or refused where they do not fit 64 bits.
use native.Mathlib.Nat.{mul_comm}
use ida_structor.Prelude.{
  ℕ, zero, suc, ◌+◌, ◌-◌, ◌*◌, ◌/◌, ◌%◌, ◌^◌, ◌<◌, ◌≡◌, refl, ap, ◌∙◌, Bool, true, false, not, ◌||◌,
  ◌==◌, ltb, if◌then◌else◌, Bool-cases, inl, inr, Option, none, some, arith,
}
use ida_structor.Storage.Offset.Product.{product_test}
use ida_structor.Solving.Unions.{
  u64_max, checked_product, checked_sum, checked_candidate_pair_relation_count,
  checked_union_cardinality_relation_count, checked_layout_relation_count,
}

-- The number, if it fits 64 bits.
abbrev pub in_u64 : ℕ → Option ℕ
in_u64 n = if ltb n (2 ^ 64) then some n else none

checked_product_exact : (l r : ℕ) → checked_product l r ≡ in_u64 (l * r)
checked_product_exact l r =
    let t = product_test u64_max r l in let c = mul_comm r l in rw (t, c) (ground arith)

half_even : (n : ℕ) → n % 2 ≡ 0 → (n / 2) * (n - 1) ≡ n * (n - 1) / 2
half_even n h =
    let e : n ≡ 2 * (n / 2) = omega arith in
    let p : n * (n - 1) ≡ 2 * (n / 2) * (n - 1) = ap (λ (x : ℕ). x * (n - 1)) e in grind arith

half_odd : (n : ℕ) → n % 2 ≡ 1 → n * ((n - 1) / 2) ≡ n * (n - 1) / 2
half_odd n h =
    let e : n - 1 ≡ 2 * ((n - 1) / 2) = omega arith in
    let p : n * (n - 1) ≡ n * (2 * ((n - 1) / 2)) = ap (λ (x : ℕ). n * x) e in grind arith

-- The number of unordered pairs of candidates, or nothing where it does not fit 64 bits.
pub checked_candidate_pair_relation_count_exact :
    (n : ℕ) → checked_candidate_pair_relation_count n ≡ in_u64 (n * (n - 1) / 2)
unfolding checked_candidate_pair_relation_count
checked_candidate_pair_relation_count_exact zero = refl
checked_candidate_pair_relation_count_exact (suc zero) = refl
checked_candidate_pair_relation_count_exact (suc (suc m)) =
    let n = suc (suc m) in
    let many : ltb (suc (suc m)) 2 ≡ false = ground arith in
    elim (Bool-cases (n % 2 == 0)) [
      | inl e ↦
          rw (many, e)
            (checked_product_exact (n / 2) (n - 1) ∙ ap in_u64 (half_even n (ground arith)))
      | inr e ↦
          rw (many, e)
            (checked_product_exact n ((n - 1) / 2) ∙ ap in_u64 (half_odd n (ground arith)))
    ]

-- The budget is the number of pairs and, where unions are allowed, of candidates; or nothing where
-- it does not fit 64 bits.
pub checked_layout_relation_count_exact :
    (n max_fields : ℕ) (allow_unions : Bool)
    → n < 2 ^ 64
    → checked_layout_relation_count n max_fields allow_unions
      ≡ in_u64 (n * (n - 1) / 2 + (if allow_unions then n else 0))
unfolding checked_layout_relation_count checked_union_cardinality_relation_count
checked_layout_relation_count_exact n max_fields allow_unions h =
    rw (checked_candidate_pair_relation_count_exact n) (total (n * (n - 1) / 2) allow_unions)
  where
    total :
        (p : ℕ) (b : Bool)
        → checked_sum (in_u64 p) (if not b || n == 0 then some 0 else some n)
          ≡ in_u64 (p + (if b then n else 0))
    total p true = ground arith
    total p false = ground arith
