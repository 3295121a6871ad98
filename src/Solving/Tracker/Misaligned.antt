-- ===== src/Solving/Tracker/Misaligned.antt =====
-- A constraint that goes to an optimizer takes an id and has no literal.
use ida_structor.Prelude.{
  ℕ, zero, suc, ◌+◌, ◌%◌, ◌^◌, ◌≤◌, ◌<◌, ◌≡◌, refl, sym, ap, ap₂, subst, ◌∙◌, ◌==◌, if◌then◌else◌,
  List, [], ◌∷◌, ◌++◌, Option, none, some, length, get_elem?, arith,
}
use ida_structor.Prelude.Int.{ℤ}
use mathlib.Core.List.{append-nil}
use ida_structor.Prelude.Sorting.{Each}
use ida_structor.Solving.Tracker.{
  Assertion, ConstraintProvenance, ConstraintTracker, add_tracked, add_soft, add_to_optimizer,
  literals_at, or_skip, get_soft_literals, get_hard_literals,
}
use ida_structor.Solving.Tracker.Aligned.{IsAligned, get_elem?-last}

literals_at-last :
    (exprs ids : List ℕ) (a : ℕ)
    → Each (λ i. i < length exprs) ids
    → literals_at (exprs ++ (a ∷ [])) ids ≡ literals_at exprs ids
unfolding literals_at
literals_at-last exprs [] a w = refl
literals_at-last exprs (i ∷ ids) a w =
    let r = literals_at-last exprs ids a w.1 in
    let e : get_elem? (exprs ++ (a ∷ [])) i ≡ get_elem? exprs i =
      get_elem?-last exprs a i ∙ not_last i (length exprs) w.0 in
    rw (e, r) refl
  where
    not_last :
        (i n : ℕ) → i < n → (if i == n then some a else get_elem? exprs i) ≡ get_elem? exprs i
    not_last i n h = ground arith

literals_at-append :
    (exprs ids js : List ℕ)
    → literals_at exprs (ids ++ js) ≡ literals_at exprs ids ++ literals_at exprs js
unfolding literals_at
literals_at-append exprs [] js = refl
literals_at-append exprs (i ∷ ids) js =
    rw (literals_at-append exprs ids js) (ends (get_elem? exprs i))
  where
    ends :
        (o : Option ℕ)
        → or_skip o (literals_at exprs ids ++ literals_at exprs js)
          ≡ or_skip o (literals_at exprs ids) ++ literals_at exprs js
    ends none = refl
    ends (some e) = refl

shifted :
    (es : List ℕ) (n : ℕ) → length es ≡ n → literals_at (es ++ (suc n ∷ [])) (n ∷ []) ≡ suc n ∷ []
unfolding literals_at
shifted es n h = rw (get_elem?-last es (suc n) n, h) (at_end n)
  where
    at_end : (n : ℕ) → or_skip (if n == n then some (suc n) else get_elem? es n) [] ≡ suc n ∷ []
    at_end n = ground arith

dropped : (es : List ℕ) (n : ℕ) → length es ≡ n → literals_at (es ++ (suc n ∷ [])) (suc n ∷ []) ≡ []
unfolding literals_at
dropped es n h = rw (get_elem?-last es (suc n) (suc n), h, beyond es (suc n) (omega arith)) (past n)
  where
    past : (n : ℕ) → or_skip (if suc n == n then some (suc n) else none) [] ≡ []
    past n = ground arith

    beyond : (xs : List ℕ) (i : ℕ) → length xs ≤ i → get_elem? xs i ≡ none
    beyond [] i g = refl
    beyond (x ∷ xs) zero g = absurd (omega arith)
    beyond (x ∷ xs) (suc i) g = beyond xs i (omega arith)

-- On a tracker of n constraints that only went to solvers (literal i stands at place i and belongs
-- to constraint i, for each i below n, and the soft and the hard ids are below n), with n + 2 below
-- 2^32: where `add_to_optimizer` is called and then `add_soft`, the literal of that soft constraint
-- is returned last among the hard ones, and the soft literals are those of before both calls.
pub add_to_optimizer-shifts :
    {E : Type 0} (t : ConstraintTracker) (n : ℕ) (solver opt : List (Assertion E)) (b c : E)
    (p q : ConstraintProvenance) (weight : ℤ)
    → IsAligned t n
    → suc (suc n) < 2 ^ 32
    → Each (λ i. i < n) t.hard_constraint_ids
    → Each (λ i. i < n) t.soft_constraint_ids
    → (get_hard_literals (add_soft (add_to_optimizer t opt b p).0 solver c q weight).0
        ≡ get_hard_literals t ++ (suc n ∷ []))
      × (get_soft_literals (add_soft (add_to_optimizer t opt b p).0 solver c q weight).0
          ≡ get_soft_literals t)
unfolding get_hard_literals get_soft_literals add_soft add_to_optimizer add_tracked
add_to_optimizer-shifts t n solver opt b c p q weight w h hard soft =
    let next : (t.next_id + 1) % 2 ^ 32 ≡ suc n =
      ap (λ (m : ℕ). (m + 1) % 2 ^ 32) w.count ∙ omega arith in
    let es = t.tracking_exprs in
    let within = subst (λ m. Each (λ i. i < m) t.hard_constraint_ids) (sym w.size) hard in
    let within' = subst (λ m. Each (λ i. i < m) t.soft_constraint_ids) (sym w.size) soft in
    (
      rw (next, w.count)
          (literals_at-append (es ++ (suc n ∷ [])) t.hard_constraint_ids (n ∷ [])
            ∙ ap₂ (λ (x y : List ℕ). x ++ y)
                (literals_at-last es t.hard_constraint_ids (suc n) within) (shifted es n w.size)),
      rw next (
          literals_at-append (es ++ (suc n ∷ [])) t.soft_constraint_ids (suc n ∷ [])
          ∙ ap₂ (λ (x y : List ℕ). x ++ y)
              (literals_at-last es t.soft_constraint_ids (suc n) within') (dropped es n w.size)
          ∙ append-nil (literals_at es t.soft_constraint_ids)),
    )
