-- ===== src/Analysis/Tests.antt =====
-- The theorems on what the analyses keep, at concrete inputs.
use ida_structor.Prelude.{
  ℕ, ◌≡◌, ◌↔◌, ◌⊎◌, refl, false, ◌==◌, if◌then◌else◌, List, [], ◌∷◌, Option, none, some, arith,
}
use ida_structor.Prelude.Int.{ℤ, pos, negsuc}
use ida_structor.Prelude.Sorting.{In, sort_by}
use ida_structor.Analysis.RewriteIndex.{empty_index, upsert, rebuild_head_index}
use ida_structor.Analysis.RewriteIndex.Heads.{holders, first_holder, rebuild_head_index_lem}
use ida_structor.Analysis.RewriteIndex.Roots.{slot_of, empty_index-IsIndex, upsert-canonical}
use ida_structor.Analysis.Evidence.{
  BitfieldInfo, TypeQueries, FieldAccess, read, integer, canonical_field_access_less,
  merge_field_access_evidence,
}
use ida_structor.Analysis.Evidence.Merge.{merge-observations, merge-hint_returns}
use ida_structor.Analysis.Pattern.{add_accesses, empty_pattern, IsSpanning, add_accesses-IsSpanning}
use ida_structor.Analysis.Alternatives.{runs_of, mandatory_union_alternative_excess}
use ida_structor.Analysis.Alternatives.Excess.{all_within, mandatory_union_alternative_excess_lem}

rebuild_head_index_lem_example : rebuild_head_index (some 16 ∷ some 32 ∷ some 16 ∷ []) 16 ≡ (
    if holders 16 (some 16 ∷ some 32 ∷ some 16 ∷ []) == 1
    then first_holder 16 0 (some 16 ∷ some 32 ∷ some 16 ∷ [])
    else none)
rebuild_head_index_lem_example = rebuild_head_index_lem (some 16 ∷ some 32 ∷ some 16 ∷ []) 16

upsert-canonical_example :
    ((upsert empty_index 64 (some 16) (72 ∷ [])).0.0 ≡ slot_of empty_index 64)
    × ((upsert empty_index 64 (some 16) (72 ∷ [])).1.canonical 64
        ≡ (if 64 == 64 then some (slot_of empty_index 64) else empty_index.canonical 64))
upsert-canonical_example =
    upsert-canonical empty_index 64 (some 16) (72 ∷ []) empty_index-IsIndex 64

-- Types by their sizes, with 0 for no type.
abbrev scalars : TypeQueries ℕ
scalars = record {
  is_empty = λ t. t == 0;
  is_ptr = λ t. false;
  is_funcptr = λ t. false;
  is_func = λ t. false;
  is_floating = λ t. false;
  is_struct = λ t. false;
  is_union = λ t. false;
  is_array = λ t. false;
  get_size = λ t. some t;
  get_pointed_object = λ t. 0;
}

abbrev access : ℤ → Option ℕ → FieldAccess ℕ
access offset hint = record {
  insn_ea = 4100;
  source_func_ea = 4096;
  offset = offset;
  size = 4;
  access_type = read;
  semantic_type = integer;
  inferred_type = 4;
  context_expr = "p->x";
  is_vtable_access = false;
  vtable_slot = negsuc 0;
  is_zero_init = false;
  is_call_argument = false;
  bitfields = [];
  observed_constants = 1 ∷ [];
  array_stride_hint = hint;
  base_indirection = none;
  nested_info = none;
}

abbrev merged : FieldAccess ℕ
merged = merge_field_access_evidence scalars (access (pos 8) (some 4)) (access (pos 8) (some 8))

merge-observations_example :
    ((c : ℕ) → In c merged.observed_constants ↔ (In c (1 ∷ []) ⊎ In c (1 ∷ [])))
    × ((b : BitfieldInfo) → In b merged.bitfields ↔ (In b [] ⊎ In b []))
merge-observations_example =
    merge-observations scalars (access (pos 8) (some 4)) (access (pos 8) (some 8))

merge-hint_returns_example :
    (merged.array_stride_hint ≡ none)
    × ((merge_field_access_evidence scalars merged (access (pos 8) (some 8))).array_stride_hint
        ≡ some 8)
merge-hint_returns_example =
    merge-hint_returns scalars (access (pos 8) (some 4)) (access (pos 8) (some 8)) 4 8
      (λ h. omega arith) refl refl

abbrev two_accesses : List (FieldAccess ℕ)
two_accesses = access (pos 8) none ∷ access (negsuc 3) none ∷ []

add_accesses-IsSpanning_example :
    IsSpanning (add_accesses empty_pattern two_accesses)
    × ((add_accesses empty_pattern two_accesses).accesses ≡ two_accesses)
add_accesses-IsSpanning_example = add_accesses-IsSpanning two_accesses

mandatory_union_alternative_excess_lem_example :
    mandatory_union_alternative_excess scalars 1 two_accesses ≡ (
      if all_within scalars 1 (runs_of (sort_by (canonical_field_access_less scalars) two_accesses))
      then none
      else some 2)
mandatory_union_alternative_excess_lem_example =
    mandatory_union_alternative_excess_lem scalars 1 two_accesses
