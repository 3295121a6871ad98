-- ===== src/Analysis/Evidence/Order.antt =====
-- The canonical order of accesses is a strict order, as sorting wants it.
use ida_structor.Prelude.{ℕ, ◌≡◌, Bool, true, false, not, ◌==◌, ltb, if◌then◌else◌, arith}
use ida_structor.Prelude.Int.{ℤ, ltb_ℤ, ◌==ℤ◌, ==ℤ_iff}
use ida_structor.Analysis.Evidence.{
  TypeQueries, FieldAccess, class_rank, evidence_type_class, semantic_rank,
  canonical_field_access_less,
}

-- One key of the comparison.
abbrev by_key : ℕ → ℕ → Bool → Bool
by_key a b rest = if not (a == b) then ltb a b else rest

abbrev by_offset : ℤ → ℤ → Bool → Bool
by_offset a b rest = if not (a ==ℤ b) then ltb_ℤ a b else rest

by_key_trans :
    (a b c : ℕ) {r s t : Bool}
    → (r ≡ true → s ≡ true → t ≡ true)
    → by_key a b r ≡ true
    → by_key b c s ≡ true
    → by_key a c t ≡ true
by_key_trans a b c k h g = ground (arith, k)

by_offset_trans :
    (a b c : ℤ) {r s t : Bool}
    → (r ≡ true → s ≡ true → t ≡ true)
    → by_offset a b r ≡ true
    → by_offset b c s ≡ true
    → by_offset a c t ≡ true
by_offset_trans a b c k h g = ground (arith, k, ==ℤ_iff a b, ==ℤ_iff b c, ==ℤ_iff a c)

by_key_irrefl : (a : ℕ) {r : Bool} → r ≡ false → by_key a a r ≡ false
by_key_irrefl a h = ground arith

by_offset_irrefl : (a : ℤ) {r : Bool} → r ≡ false → by_offset a a r ≡ false
by_offset_irrefl a h = ground (arith, ==ℤ_iff a a)

module _ {T : Type 0} (q : TypeQueries T) where
  -- No access comes before itself, and what comes before comes before what follows.
  pub canonical_field_access_less_strict :
      (x y z : FieldAccess T)
      → (canonical_field_access_less q x x ≡ false)
        × (canonical_field_access_less q x y ≡ true
            → canonical_field_access_less q y z ≡ true
            → canonical_field_access_less q x z ≡ true)
  unfolding canonical_field_access_less
  canonical_field_access_less_strict x y z = (
    by_offset_irrefl x.offset (
        by_key_irrefl x.size (
          by_key_irrefl (class_rank (evidence_type_class q x)) (
            by_key_irrefl (semantic_rank x.semantic_type)
              (by_key_irrefl x.source_func_ea (last_irrefl x.insn_ea))))),
    by_offset_trans x.offset y.offset z.offset (
        by_key_trans x.size y.size z.size (
          by_key_trans (class_rank (evidence_type_class q x)) (class_rank (evidence_type_class q y))
            (class_rank (evidence_type_class q z))
            (by_key_trans (semantic_rank x.semantic_type) (semantic_rank y.semantic_type)
              (semantic_rank z.semantic_type)
              (by_key_trans x.source_func_ea y.source_func_ea z.source_func_ea
                (last_trans x.insn_ea y.insn_ea z.insn_ea))))),
  )
    where
      last_irrefl : (a : ℕ) → ltb a a ≡ false
      last_irrefl a = ground arith

      last_trans : (a b c : ℕ) → ltb a b ≡ true → ltb b c ≡ true → ltb a c ≡ true
      last_trans a b c h g = ground arith
