-- ===== src/Analysis/Alternatives.antt =====
-- `mandatory_union_alternative_excess` of src/synthesis/layout_synthesizer.cpp.
pub mod Excess
use ida_structor.Prelude.{
  ℕ, zero, suc, Bool, true, false, ◌&&◌, ◌==◌, ltb, leb, if◌then◌else◌, List, [], ◌∷◌, ◌++◌, Option,
  none, some, length,
}
use ida_structor.Prelude.Int.{ℤ, pos, ◌==ℤ◌, min_ℤ, max_ℤ}
use ida_structor.Prelude.Sorting.{sort_by}
use ida_structor.Storage.Offset.{checked_interval_end, checked_interval_span}
use ida_structor.Analysis.Evidence.{
  TypeQueries, FieldAccess, field_access_evidence_compatible, merge_field_access_evidence,
  canonical_field_access_less,
}

abbrev pub same_range : {T : Type 0} → FieldAccess T → FieldAccess T → Bool
same_range x y = y.offset ==ℤ x.offset && y.size == x.size

abbrev pub onto :
    {T : Type 0} → FieldAccess T → List (List (FieldAccess T)) → List (List (FieldAccess T))
onto x [] = (x ∷ []) ∷ []
onto x ([] ∷ runs) = (x ∷ []) ∷ runs
onto x ((y ∷ run) ∷ runs) =
    if same_range x y then (x ∷ y ∷ run) ∷ runs else (x ∷ []) ∷ (y ∷ run) ∷ runs

-- The stretches of the sorted accesses that have one range.
unfoldable pub runs_of : {T : Type 0} → List (FieldAccess T) → List (List (FieldAccess T))
runs_of [] = []
runs_of (x ∷ xs) = onto x (runs_of xs)

module _ {T : Type 0} (q : TypeQueries T) where
  unfoldable pub finds_compatible : List (FieldAccess T) → FieldAccess T → Bool
  finds_compatible [] x = false
  finds_compatible (y ∷ ys) x =
      let later = finds_compatible ys x in
      if field_access_evidence_compatible q y x then true else later

  -- The access is merged into the first compatible one.
  unfoldable pub merge_into_first : List (FieldAccess T) → FieldAccess T → List (FieldAccess T)
  merge_into_first [] x = []
  merge_into_first (y ∷ ys) x =
      let later = y ∷ merge_into_first ys x in
      if field_access_evidence_compatible q y x
      then merge_field_access_evidence q y x ∷ ys
      else later

  -- The loop over a stretch, with the alternatives found so far.
  unfoldable pub excess_in : ℕ → List (FieldAccess T) → List (FieldAccess T) → Option ℕ
  unfolding finds_compatible merge_into_first
  excess_in maximum distinct [] = none
  excess_in maximum distinct (x ∷ xs) =
      let merged = excess_in maximum (merge_into_first distinct x) xs in
      let kept = excess_in maximum (distinct ++ (x ∷ [])) xs in
      if finds_compatible distinct x
      then merged
      else if ltb maximum (length (distinct ++ (x ∷ [])))
      then some (length (distinct ++ (x ∷ [])))
      else kept

  abbrev pub first_of : Option ℕ → Option ℕ → Option ℕ
  first_of (some n) rest = some n
  first_of none rest = rest

  unfoldable pub excess_over : ℕ → List (List (FieldAccess T)) → Option ℕ
  unfolding excess_in
  excess_over maximum [] = none
  excess_over maximum (run ∷ runs) = first_of (excess_in maximum [] run) (excess_over maximum runs)

  unfoldable pub mandatory_union_alternative_excess : ℕ → List (FieldAccess T) → Option ℕ
  unfolding excess_over runs_of sort_by
  mandatory_union_alternative_excess maximum accesses =
      excess_over maximum (runs_of (sort_by (canonical_field_access_less q) accesses))
