-- ===== src/Solving/Unions/Groups.antt =====
-- The constraints bound the alternatives of each group.
use ida_structor.Prelude.{
  ℕ, ◌≤◌, ◌<◌, ◌≡◌, refl, sym, ap, ◌∙◌, Bool, true, not, ◌&&◌, ◌||◌, ◌==◌, ==_iff, leb, Bool-cases,
  inl, inr, List, [], ◌∷◌, some, get_or, arith,
}
use ida_structor.Prelude.Sorting.{Each}
use ida_structor.Solving.Unions.{
  UnionConstraintVariables, CanonicalUnionConstraintVariables,
  canonical_union_group_domain_constraint, canonical_union_alternative_limit_constraints,
}
use ida_structor.Solving.Unions.Limits.{counts_in, how_many, alternative_limits_iff}

-- A member of the group, selected or not.
abbrev pub is_member_of : ℕ → CanonicalUnionConstraintVariables → Bool
is_member_of g v = v.canonical_group == g && v.variables.is_union_member

members_counted :
    (g : ℕ) (vs : List CanonicalUnionConstraintVariables)
    → Each (λ v. canonical_union_group_domain_constraint v.variables v.canonical_group ≡ true) vs
    → how_many (is_member_of g) vs ≡ how_many (counts_in g) vs
unfolding canonical_union_group_domain_constraint
members_counted g [] d = refl
members_counted g (v ∷ vs) d =
    let r = members_counted g vs d.1 in
    elim (Bool-cases (v.canonical_group == g)) [
      | inl e ↦
          let same = (==_iff v.canonical_group g).0 e in
          let h = d.0 in
          let one : is_member_of g v ≡ counts_in g v = rw (e, ← same) (ground arith) in
          rw (r, one) refl
      | inr e ↦ rw (e, r) refl
    ]

member_selected :
    (v : UnionConstraintVariables) (g : ℕ)
    → canonical_union_group_domain_constraint v g ≡ true
    → (not v.is_union_member || v.selected) ≡ true
unfolding canonical_union_group_domain_constraint
member_selected v g h = ground arith

-- An assignment that meets the group constraint of every candidate and the constraint of every
-- group has at most `maximum` union members in each group, and every union member is selected.
pub union_constraints_sound :
    (vs : List CanonicalUnionConstraintVariables) (group_count maximum g : ℕ) (out : List Bool)
    → Each (λ v. v.canonical_group < group_count) vs
    → Each (λ v. canonical_union_group_domain_constraint v.variables v.canonical_group ≡ true) vs
    → canonical_union_alternative_limit_constraints vs group_count maximum ≡ some out
    → get_or out g true ≡ true
    → g < group_count
    → (how_many (is_member_of g) vs ≤ maximum)
      × Each (λ v. (not v.variables.is_union_member || v.variables.selected) ≡ true) vs
union_constraints_sound vs group_count maximum g out w d e t h =
    let (cs, f, l, c) = alternative_limits_iff vs group_count maximum w in
    let same : cs ≡ out = some_eq (sym f ∙ e) in
    let holds : leb (how_many (counts_in g) vs) maximum ≡ true =
      sym (c g h) ∙ ap (λ m. get_or m g true) same ∙ t in
    (ground (arith, members_counted g vs d), selected_members vs d)
  where
    some_eq : {a b : List Bool} → some a ≡ some b → a ≡ b
    some_eq h = cc

    selected_members :
        (vs : List CanonicalUnionConstraintVariables)
        → Each
            (λ v. canonical_union_group_domain_constraint v.variables v.canonical_group ≡ true)
            vs
        → Each (λ v. (not v.variables.is_union_member || v.variables.selected) ≡ true) vs
    selected_members [] d = tt
    selected_members (v ∷ vs) d =
        (member_selected v.variables v.canonical_group d.0, selected_members vs d.1)
