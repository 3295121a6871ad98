-- ===== src/Solving/Tests.antt =====
-- The theorems on the constraint building at concrete inputs.
use ida_structor.Prelude.{
  ℕ, ◌≤◌, ◌≡◌, ◌↔◌, refl, Bool, true, false, not, ◌||◌, List, [], ◌∷◌, ◌++◌, none, some, length,
  arith,
}
use ida_structor.Prelude.Int.{pos, negsuc}
use ida_structor.Prelude.Sorting.{Each}
use ida_structor.Solving.Signature.{
  map_signature_arguments, InRange, Distinct, numbered, map_signature_arguments_iff,
}
use ida_structor.Solving.Interner.{
  TypeVariableIdentity, TypeVariableKey, local, Interner, new_interner, intern, stop,
}
use ida_structor.Solving.Interner.Stable.{new_interner-IsInterner, same_identity_iff}
use ida_structor.Solving.Unions.{
  CanonicalUnionConstraintVariables, canonical_union_group_domain_constraint,
  canonical_union_alternative_limit_constraints, fill_groups, limits_from, selected_member_count,
  checked_layout_relation_count,
}
use ida_structor.Solving.Unions.Counts.{in_u64, checked_layout_relation_count_exact}
use ida_structor.Solving.Unions.Limits.{how_many}
use ida_structor.Solving.Unions.Groups.{is_member_of, union_constraints_sound}
use ida_structor.Solving.Tracker.{
  Assertion, ConstraintProvenance, ConstraintTracker, other, new_tracker, add_soft,
  add_to_optimizer, get_hard_literals, get_soft_literals, get_provenance,
}
use ida_structor.Solving.Tracker
use ida_structor.Solving.Tracker.Aligned
use ida_structor.Solving.Tracker.Aligned.{track_all, numbers, track_all_lem, new-IsAligned}
use ida_structor.Solving.Tracker.Misaligned.{add_to_optimizer-shifts}

map_signature_arguments_iff_example :
    (map_signature_arguments (pos 2 ∷ pos 0 ∷ []) 2 3 ≡ some (numbered 0 (pos 2 ∷ pos 0 ∷ []))) ↔ (
      (length (pos 2 ∷ pos 0 ∷ []) ≡ 2)
      × InRange (pos 2 ∷ pos 0 ∷ []) 3
      × Distinct (pos 2 ∷ pos 0 ∷ [])
      × (numbered 0 (pos 2 ∷ pos 0 ∷ []) ≡ numbered 0 (pos 2 ∷ pos 0 ∷ [])))
map_signature_arguments_iff_example =
    map_signature_arguments_iff (pos 2 ∷ pos 0 ∷ []) 2 3 (numbered 0 (pos 2 ∷ pos 0 ∷ []))

abbrev started : Interner
started = new_interner 5 1

abbrev first_key : TypeVariableKey
first_key = local 4096 (pos 3) (negsuc 0)

abbrev second_key : TypeVariableKey
second_key = local 4096 (pos 7) (negsuc 0)

abbrev first_call : Interner
unfolding intern
first_call = (intern started first_key).1

abbrev second_call : Interner
unfolding intern
second_call = (intern first_call second_key).1

abbrev identity_of : ℕ → TypeVariableIdentity
identity_of n = record { module_token = 5; scope = 1; ordinal = n }

same_identity_iff_example : (identity_of 1 ≡ identity_of 2) ↔ (first_key ≡ second_key)
unfolding intern
same_identity_iff_example =
    same_identity_iff started first_call first_call second_call first_key second_key (identity_of 1)
      (identity_of 2) (new_interner-IsInterner 5 1) refl (stop first_call) refl

abbrev member : CanonicalUnionConstraintVariables
member = record {
  variables = record { selected = true; is_union_member = true; union_group = pos 0 };
  canonical_group = 0;
}

abbrev outsider : CanonicalUnionConstraintVariables
outsider = record {
  variables = record { selected = false; is_union_member = false; union_group = negsuc 0 };
  canonical_group = 1;
}

union_constraints_sound_example :
    (how_many (is_member_of 0) (member ∷ member ∷ outsider ∷ []) ≤ 2)
    × Each
        (λ v. (not v.variables.is_union_member || v.variables.selected) ≡ true)
        (member ∷ member ∷ outsider ∷ [])
unfolding canonical_union_group_domain_constraint canonical_union_alternative_limit_constraints
    fill_groups limits_from selected_member_count
union_constraints_sound_example =
    union_constraints_sound (member ∷ member ∷ outsider ∷ []) 2 2 0 (true ∷ true ∷ []) (omega arith)
      (refl, (refl, (refl, tt))) refl refl (omega arith)

checked_layout_relation_count_exact_example : checked_layout_relation_count 10 64 true ≡ in_u64 55
checked_layout_relation_count_exact_example =
    checked_layout_relation_count_exact 10 64 true (omega arith)

abbrev provenance : Bool → ConstraintProvenance
provenance soft = record {
  func_ea = 4096;
  insn_ea = 4100;
  access_idx = negsuc 0;
  description = "field";
  is_soft = soft;
  weight = pos 1;
  tracking_literal = none;
  kind = other;
}

abbrev two_constraints : List (ℕ × ConstraintProvenance)
two_constraints = (7, provenance true) ∷ (8, provenance false) ∷ []

track_all_lem_example :
    (get_hard_literals (track_all two_constraints).0 ≡ numbers false two_constraints)
    × (get_soft_literals (track_all two_constraints).0 ≡ numbers true two_constraints)
    × ((literal : ℕ)
        → get_provenance (track_all two_constraints).0 literal
          ≡ Tracker.Aligned.numbered two_constraints literal)
track_all_lem_example = track_all_lem two_constraints (omega arith)

abbrev shifted_tracker : ConstraintTracker
shifted_tracker =
    (add_soft {E = ℕ} (add_to_optimizer {E = ℕ} new_tracker [] 7 (provenance false)).0 [] 8
      (provenance true) (pos 5)).0

add_to_optimizer-shifts_example :
    (get_hard_literals shifted_tracker ≡ get_hard_literals new_tracker ++ (1 ∷ []))
    × (get_soft_literals shifted_tracker ≡ get_soft_literals new_tracker)
add_to_optimizer-shifts_example =
    add_to_optimizer-shifts new_tracker 0 [] [] 7 8 (provenance false) (provenance true) (pos 5)
      new-IsAligned (omega arith) tt tt
