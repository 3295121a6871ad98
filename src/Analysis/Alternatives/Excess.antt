-- ===== src/Analysis/Alternatives/Excess.antt =====
-- When a stretch of one range holds too many alternatives.
use ida_structor.Prelude.{
  ℕ, suc, ◌≤◌, ◌≡◌, refl, Bool, true, false, ◌&&◌, leb, ltb, if◌then◌else◌, Bool-cases, inl, inr,
  List, [], ◌∷◌, ◌++◌, none, some, length, length-append, arith,
}
use ida_structor.Prelude.Sorting.{sort_by}
use ida_structor.Analysis.Evidence.{
  TypeQueries, FieldAccess, field_access_evidence_compatible, canonical_field_access_less,
}
use ida_structor.Analysis.Alternatives.{
  runs_of, finds_compatible, merge_into_first, excess_in, excess_over,
  mandatory_union_alternative_excess,
}

module _ {T : Type 0} (q : TypeQueries T) where
  -- The alternatives of a stretch: what is compatible is merged, with no limit on how many remain.
  unfoldable pub coalesce : List (FieldAccess T) → List (FieldAccess T) → List (FieldAccess T)
  unfolding finds_compatible merge_into_first
  coalesce distinct [] = distinct
  coalesce distinct (x ∷ xs) =
      let merged = coalesce (merge_into_first q distinct x) xs in
      let kept = coalesce (distinct ++ (x ∷ [])) xs in
      if finds_compatible q distinct x then merged else kept

  -- Every stretch has at most so many alternatives.
  unfoldable pub all_within : ℕ → List (List (FieldAccess T)) → Bool
  unfolding coalesce
  all_within maximum [] = true
  all_within maximum (run ∷ runs) =
      leb (length (coalesce [] run)) maximum && all_within maximum runs

  length-merge_into_first :
      (l : List (FieldAccess T)) (x : FieldAccess T) → length (merge_into_first q l x) ≡ length l
  unfolding merge_into_first
  length-merge_into_first [] x = refl
  length-merge_into_first (y ∷ ys) x = elim (Bool-cases (field_access_evidence_compatible q y x)) [
    | inl e ↦ rw e refl
    | inr e ↦ rw e (omega (arith, length-merge_into_first ys x))
  ]

  coalesce-grows : (xs l : List (FieldAccess T)) → length l ≤ length (coalesce l xs)
  unfolding coalesce
  coalesce-grows [] l = omega arith
  coalesce-grows (x ∷ xs) l = elim (Bool-cases (finds_compatible q l x)) [
    | inl e ↦
        rw e
          (omega (arith, coalesce-grows xs (merge_into_first q l x), length-merge_into_first l x))
    | inr e ↦ rw e (omega (arith, coalesce-grows xs (l ++ (x ∷ [])), length-append l (x ∷ [])))
  ]

  excess_in_lem :
      (maximum : ℕ) (xs l : List (FieldAccess T))
      → length l ≤ maximum
      → excess_in q maximum l xs
        ≡ (if leb (length (coalesce l xs)) maximum then none else some (suc maximum))
  unfolding excess_in coalesce
  excess_in_lem maximum [] l h = ground arith
  excess_in_lem maximum (x ∷ xs) l h = elim (Bool-cases (finds_compatible q l x)) [
    | inl e ↦ rw e (
        excess_in_lem maximum xs (merge_into_first q l x)
          (omega (arith, length-merge_into_first l x)))
    | inr e ↦
        let n = length-append l (x ∷ []) in
        elim (Bool-cases (ltb maximum (length (l ++ (x ∷ []))))) [
          | inl f ↦
              let g = coalesce-grows xs (l ++ (x ∷ [])) in
              let over : leb (length (coalesce (l ++ (x ∷ [])) xs)) maximum ≡ false =
                ground arith in
              let top : length (l ++ (x ∷ [])) ≡ suc maximum = ground arith in
              rw (e, f, over, top) refl
          | inr f ↦ rw (e, f) (excess_in_lem maximum xs (l ++ (x ∷ [])) (ground arith))
        ]
  ]

  excess_over_lem :
      (maximum : ℕ) (runs : List (List (FieldAccess T)))
      → excess_over q maximum runs ≡ (if all_within maximum runs then none else some (suc maximum))
  unfolding excess_over all_within
  excess_over_lem maximum [] = refl
  excess_over_lem maximum (run ∷ runs) =
      let r = excess_over_lem maximum runs in
      let s = excess_in_lem maximum run [] (omega arith) in
      elim (Bool-cases (leb (length (coalesce [] run)) maximum)) [
        | inl e ↦ rw (s, e) r
        | inr e ↦ rw (s, e) refl
      ]

  -- With the limit reached early or late: there is no excess exactly when, in each stretch of
  -- equal ranges, merging all that is compatible leaves at most `maximum` alternatives; and the
  -- excess is always one more than the maximum.
  pub mandatory_union_alternative_excess_lem :
      (maximum : ℕ) (accesses : List (FieldAccess T))
      → mandatory_union_alternative_excess q maximum accesses ≡ (
          if all_within maximum (runs_of (sort_by (canonical_field_access_less q) accesses))
          then none
          else some (suc maximum))
  unfolding mandatory_union_alternative_excess
  mandatory_union_alternative_excess_lem maximum accesses =
      excess_over_lem maximum (runs_of (sort_by (canonical_field_access_less q) accesses))
