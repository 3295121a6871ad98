-- ===== src/Solving/Unions.antt =====
-- include/structor/z3/union_constraints.hpp: how many relations are built, and the constraints on
-- union groups. A solver expression is read by its value under an assignment.
pub mod Counts
pub mod Limits
pub mod Groups
use ida_structor.Prelude.{
  ℕ, zero, suc, ◌+◌, ◌-◌, ◌*◌, ◌/◌, ◌%◌, ◌^◌, min, Bool, true, false, not, ◌&&◌, ◌||◌, ◌==◌, ltb,
  leb, if◌then◌else◌, List, [], ◌∷◌, ◌++◌, map, Option, none, some, length, get_or, replicate, set,
}
use ida_structor.Prelude.Int.{ℤ, negsuc, ◌==ℤ◌}
use ida_structor.Types.Solver.{to_int32}

abbrev pub u64_max : ℕ
u64_max = 2 ^ 64 - 1

pub union_group_capacity : ℕ → ℕ → ℕ
union_group_capacity candidate_count max_fields =
    min candidate_count (min max_fields (2 ^ 31 - 1)) % 2 ^ 32

-- The product of the two factors, one of which was halved.
abbrev pub checked_product : ℕ → ℕ → Option ℕ
checked_product lhs rhs =
    if not (rhs == 0) && ltb (u64_max / rhs) lhs then none else some (lhs * rhs % 2 ^ 64)

pub checked_candidate_pair_relation_count : ℕ → Option ℕ
checked_candidate_pair_relation_count n =
    if ltb n 2
    then some 0
    else if n % 2 == 0
    then checked_product (n / 2) (n - 1)
    else checked_product n ((n - 1) / 2)

pub checked_union_cardinality_relation_count : ℕ → ℕ → Bool → Option ℕ
checked_union_cardinality_relation_count n max_fields allow_unions =
    if not allow_unions || n == 0 then some 0 else some n

abbrev pub checked_sum : Option ℕ → Option ℕ → Option ℕ
checked_sum (some p) (some u) = if ltb (u64_max - u) p then none else some ((p + u) % 2 ^ 64)
checked_sum (some p) none = none
checked_sum none u = none

pub checked_layout_relation_count : ℕ → ℕ → Bool → Option ℕ
unfolding checked_candidate_pair_relation_count checked_union_cardinality_relation_count
checked_layout_relation_count n max_fields allow_unions =
    checked_sum (checked_candidate_pair_relation_count n)
      (checked_union_cardinality_relation_count n max_fields allow_unions)

-- The values of one candidate's variables.
pub record UnionConstraintVariables : Type 0 where
  pub selected : Bool
  pub is_union_member : Bool
  pub union_group : ℤ

pub record CanonicalUnionConstraintVariables : Type 0 where
  pub variables : UnionConstraintVariables
  pub canonical_group : ℕ

-- A group label as the code compares with it: a cast to `int`.
abbrev pub has_label : UnionConstraintVariables → ℕ → Bool
has_label v group = v.union_group ==ℤ to_int32 group

unfoldable pub canonical_union_group_domain_constraint : UnionConstraintVariables → ℕ → Bool
canonical_union_group_domain_constraint v group =
    (not v.is_union_member && v.union_group ==ℤ negsuc 0)
    || (v.selected && v.is_union_member && has_label v group)

-- The candidates of each group, by index; `none` is the exception on a group that is not declared.
unfoldable pub fill_groups :
    ℕ → List CanonicalUnionConstraintVariables → List (List ℕ) → Option (List (List ℕ))
fill_groups i [] groups = some groups
fill_groups i (v ∷ vs) groups =
    let rest =
      fill_groups (suc i) vs
        (set groups v.canonical_group (get_or groups v.canonical_group [] ++ (i ∷ []))) in
    if leb (length groups) v.canonical_group then none else rest

-- What a default variable would be; no index of a group is out of range.
abbrev pub no_variables : CanonicalUnionConstraintVariables
no_variables = record {
  variables = record { selected = false; is_union_member = false; union_group = negsuc 0 };
  canonical_group = 0;
}

unfoldable pub selected_member_count : List CanonicalUnionConstraintVariables → ℕ → List ℕ → ℕ
selected_member_count vs group [] = 0
selected_member_count vs group (i ∷ is) =
    let v = (get_or vs i no_variables).variables in
    selected_member_count vs group is
    + (if v.selected && v.is_union_member && has_label v group then 1 else 0)

-- The constraint of each group, from `group` on.
unfoldable pub limits_from :
    List CanonicalUnionConstraintVariables → ℕ → ℕ → List (List ℕ) → List Bool
unfolding selected_member_count
limits_from vs maximum group [] = []
limits_from vs maximum group (is ∷ rest) =
    leb (selected_member_count vs group is) maximum ∷ limits_from vs maximum (suc group) rest

unfoldable pub canonical_union_alternative_limit_constraints :
    List CanonicalUnionConstraintVariables → ℕ → ℕ → Option (List Bool)
unfolding fill_groups limits_from
canonical_union_alternative_limit_constraints vs group_count maximum =
    elim (fill_groups 0 vs (replicate group_count [])) [
      | none ↦ none
      | some groups ↦ some (limits_from vs maximum 0 groups)
    ]
