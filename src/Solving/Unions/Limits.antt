-- ===== src/Solving/Unions/Limits.antt =====
-- The constraint of each group limits its selected members.
use ida_structor.Prelude.{
  ℕ, zero, suc, ◌+◌, ◌<◌, ◌≡◌, refl, sym, ap, ◌∙◌, Bool, true, false, ◌&&◌, ◌==◌, ==_iff, leb,
  if◌then◌else◌, Bool-cases, inl, inr, List, [], ◌∷◌, ◌++◌, some, length, get_or, replicate, set,
  length-set, length-replicate, arith,
}
use ida_structor.Prelude.Sorting.{Each}
use ida_structor.Solving.Unions.{
  CanonicalUnionConstraintVariables, has_label, fill_groups, no_variables, selected_member_count,
  limits_from, canonical_union_alternative_limit_constraints,
}

-- A selected member of its group.
abbrev pub counts_in : ℕ → CanonicalUnionConstraintVariables → Bool
counts_in g v =
    v.canonical_group == g
    && (v.variables.selected && v.variables.is_union_member && has_label v.variables g)

abbrev pub how_many :
    (CanonicalUnionConstraintVariables → Bool) → List CanonicalUnionConstraintVariables → ℕ
how_many p [] = 0
how_many p (v ∷ vs) = how_many p vs + (if p v then 1 else 0)

get_or-set :
    (groups : List (List ℕ)) (k g : ℕ) (x : List ℕ)
    → k < length groups
    → get_or (set groups k x) g [] ≡ (if k == g then x else get_or groups g [])
get_or-set [] k g x h = absurd (omega arith)
get_or-set (y ∷ ys) zero zero x h = refl
get_or-set (y ∷ ys) zero (suc g) x h = ground arith
get_or-set (y ∷ ys) (suc k) zero x h = ground arith
get_or-set (y ∷ ys) (suc k) (suc g) x h = ground (arith, get_or-set ys k g x)

get_or-replicate : (n g : ℕ) → ◌≡◌ {A = List ℕ} (get_or (replicate n []) g []) []
get_or-replicate zero g = refl
get_or-replicate (suc n) zero = refl
get_or-replicate (suc n) (suc g) = get_or-replicate n g

module _ (all : List CanonicalUnionConstraintVariables) where
  count-append :
      (g i : ℕ) (is : List ℕ)
      → selected_member_count all g (is ++ (i ∷ []))
        ≡ selected_member_count all g is + selected_member_count all g (i ∷ [])
  unfolding selected_member_count
  count-append g i [] = omega arith
  count-append g i (j ∷ is) = omega (arith, count-append g i is)

  -- The tail of the variables from an index on.
  abbrev IsTail : ℕ → List CanonicalUnionConstraintVariables → Type 0
  IsTail i vs = (k : ℕ) → get_or vs k no_variables ≡ get_or all (i + k) no_variables

  abbrev Filled : ℕ → List CanonicalUnionConstraintVariables → List (List ℕ) → Type 0
  Filled i vs groups =
      (out : List (List ℕ)) × (fill_groups i vs groups ≡ some out)
      × (length out ≡ length groups)
      × ((g : ℕ)
          → selected_member_count all g (get_or out g [])
            ≡ selected_member_count all g (get_or groups g []) + how_many (counts_in g) vs)

  one_more :
      (i : ℕ) (v : CanonicalUnionConstraintVariables) (groups : List (List ℕ)) (g : ℕ)
      → get_or all i no_variables ≡ v
      → v.canonical_group < length groups
      → selected_member_count all g (
          get_or
            (set groups v.canonical_group (get_or groups v.canonical_group [] ++ (i ∷ [])))
            g
            [])
        ≡ selected_member_count all g (get_or groups g []) + (if counts_in g v then 1 else 0)
  unfolding selected_member_count
  one_more i v groups g e h =
      let s =
        get_or-set groups v.canonical_group g (get_or groups v.canonical_group [] ++ (i ∷ [])) h in
      elim (Bool-cases (v.canonical_group == g)) [
        | inl f ↦
            rw (s, f, (==_iff v.canonical_group g).0 f)
              (count-append g i (get_or groups g []) ∙ rw e (omega arith))
        | inr f ↦ rw (s, f) (omega arith)
      ]

  filled :
      (vs : List CanonicalUnionConstraintVariables) (i : ℕ) (groups : List (List ℕ))
      → IsTail i vs
      → Each (λ v. v.canonical_group < length groups) vs
      → Filled i vs groups
  unfolding fill_groups
  filled [] i groups t w = (groups, refl, refl, λ g. omega arith)
  filled (v ∷ vs) i groups t w =
      let next = set groups v.canonical_group (get_or groups v.canonical_group [] ++ (i ∷ [])) in
      let n : length next ≡ length groups =
        length-set groups v.canonical_group (get_or groups v.canonical_group [] ++ (i ∷ [])) in
      let here : get_or all i no_variables ≡ v =
        ap (λ m. get_or all m no_variables) (sym (add_zero i)) ∙ sym (t 0) in
      let (out, e, l, c) =
        filled vs (suc i) next (λ k. t (suc k) ∙ ap (λ m. get_or all m no_variables) (shift i k))
          (rw n w.1) in
      let fits : leb (length groups) v.canonical_group ≡ false = within w.0 in
      (out, rw fits e, l ∙ n, λ g. sum_up g out next (c g) (one_more i v groups g here w.0))
    where
      add_zero : (i : ℕ) → i + 0 ≡ i
      add_zero i = omega arith

      shift : (i k : ℕ) → i + suc k ≡ suc i + k
      shift i k = omega arith

      within : v.canonical_group < length groups → leb (length groups) v.canonical_group ≡ false
      within h = ground arith

      sum_up :
          (g : ℕ) (out next : List (List ℕ))
          → selected_member_count all g (get_or out g [])
            ≡ selected_member_count all g (get_or next g []) + how_many (counts_in g) vs
          → selected_member_count all g (get_or next g [])
            ≡ selected_member_count all g (get_or groups g []) + (if counts_in g v then 1 else 0)
          → selected_member_count all g (get_or out g [])
            ≡ selected_member_count all g (get_or groups g []) + how_many (counts_in g) (v ∷ vs)
      sum_up g out next a b = omega arith

  limits_at :
      (maximum n g : ℕ) (groups : List (List ℕ))
      → g < length groups
      → get_or (limits_from all maximum n groups) g true
        ≡ leb (selected_member_count all (n + g) (get_or groups g [])) maximum
  unfolding limits_from
  limits_at maximum n g [] h = absurd (omega arith)
  limits_at maximum n zero (is ∷ rest) h =
      ap (λ m. leb (selected_member_count all m is) maximum) (omega arith)
  limits_at maximum n (suc g) (is ∷ rest) h =
      limits_at maximum (suc n) g rest (omega arith)
      ∙ ap (λ m. leb (selected_member_count all m (get_or rest g [])) maximum) (omega arith)

  length-limits_from :
      (maximum n : ℕ) (groups : List (List ℕ))
      → length (limits_from all maximum n groups) ≡ length groups
  unfolding limits_from
  length-limits_from maximum n [] = refl
  length-limits_from maximum n (is ∷ rest) = ap suc (length-limits_from maximum (suc n) rest)

empty_count :
    (vs : List CanonicalUnionConstraintVariables) (n g : ℕ)
    → selected_member_count vs g (get_or (replicate n []) g []) ≡ 0
unfolding selected_member_count
empty_count vs n g = ap (selected_member_count vs g) (get_or-replicate n g)

-- Where each candidate's group is declared there is one constraint for each group, and it holds
-- exactly where at most `maximum` of the group's candidates are selected members with its label.
pub alternative_limits_iff :
    (vs : List CanonicalUnionConstraintVariables) (group_count maximum : ℕ)
    → Each (λ v. v.canonical_group < group_count) vs
    → (out : List Bool) × (canonical_union_alternative_limit_constraints vs group_count maximum
        ≡ some out)
      × (length out ≡ group_count)
      × ((g : ℕ) → g < group_count → get_or out g true ≡ leb (how_many (counts_in g) vs) maximum)
unfolding canonical_union_alternative_limit_constraints
alternative_limits_iff vs group_count maximum w =
    let nobody : List ℕ = [] in
    let n = length-replicate group_count nobody in
    let (groups, e, l, c) =
      filled vs vs 0 (replicate group_count []) (λ k. ap (λ m. get_or vs m no_variables) (same k))
        (rw n w) in
    (
      limits_from vs maximum 0 groups,
      rw (e, canonical_union_alternative_limit_constraints) refl,
      length-limits_from vs maximum 0 groups ∙ l ∙ n,
      λ g h.
          limits_at vs maximum 0 g groups (omega arith)
          ∙ ap (λ m. leb m maximum) (counted g groups (c g)),
    )
  where
    same : (k : ℕ) → k ≡ 0 + k
    same k = omega arith

    zero_add : (g : ℕ) → 0 + g ≡ g
    zero_add g = omega arith

    counted :
        (g : ℕ) (groups : List (List ℕ))
        → selected_member_count vs g (get_or groups g [])
          ≡ selected_member_count vs g (get_or (replicate group_count []) g [])
            + how_many (counts_in g) vs
        → selected_member_count vs (0 + g) (get_or groups g []) ≡ how_many (counts_in g) vs
    counted g groups h =
        ap (λ m. selected_member_count vs m (get_or groups g [])) (zero_add g)
        ∙ h
        ∙ omega (arith, empty_count vs group_count g)
