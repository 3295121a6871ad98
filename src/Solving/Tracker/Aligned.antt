-- ===== src/Solving/Tracker/Aligned.antt =====
-- While constraints are added to solvers only, an id is the place of its literal.
use ida_structor.Prelude.{
  ℕ, zero, suc, ◌+◌, ◌%◌, ◌^◌, ◌≤◌, ◌<◌, ◌≡◌, refl, sym, ap, ◌∙◌, Bool, true, false, not, ◌==◌,
  ==_iff, leb, if◌then◌else◌, Bool-cases, inl, inr, List, [], ◌∷◌, ◌++◌, Option, none, some, length,
  length-append, get_elem?, arith,
}
use mathlib.Core.List.{append-nil}
use ida_structor.Prelude.Sorting.{Each}
use ida_structor.Solving.Tracker.{
  Assertion, ConstraintProvenance, ConstraintTracker, new_tracker, add_tracked, literals_at,
  get_soft_literals, get_hard_literals, get_provenance,
}

-- The provenances of the constraints, the first added last in the list.
unfoldable pub track_all :
    {E : Type 0} → List (E × ConstraintProvenance) → ConstraintTracker × List (Assertion E)
unfolding add_tracked
track_all [] = (new_tracker, [])
track_all ((c, p) ∷ rest) =
    let r = add_tracked (track_all rest).0 (track_all rest).1 c p in (r.0, r.1)

-- The numbers of the constraints of a kind, in the order of the additions.
abbrev pub numbers : {E : Type 0} → Bool → List (E × ConstraintProvenance) → List ℕ
numbers soft [] = []
numbers soft ((c, p) ∷ rest) =
    numbers soft rest
    ++ (if (if soft then p.is_soft else not p.is_soft) then length rest ∷ [] else [])

-- The provenance of the constraint with a number.
abbrev pub numbered :
    {E : Type 0} → List (E × ConstraintProvenance) → ℕ → Option ConstraintProvenance
numbered [] n = none
numbered ((c, p) ∷ rest) n = if n == length rest then some p else numbered rest n

pub record IsAligned (t : ConstraintTracker) (n : ℕ) : Type 0 where
  pub count : t.next_id ≡ n
  pub size : length t.tracking_exprs ≡ n
  pub placed : (i : ℕ) → i < n → get_elem? t.tracking_exprs i ≡ some i
  pub known : (i : ℕ) → t.expr_to_id i ≡ (if leb (suc i) n then some i else none)

pub get_elem?-last :
    (xs : List ℕ) (a i : ℕ)
    → get_elem? (xs ++ (a ∷ [])) i ≡ (if i == length xs then some a else get_elem? xs i)
get_elem?-last [] a zero = refl
get_elem?-last [] a (suc i) = ground arith
get_elem?-last (x ∷ xs) a zero = ground arith
get_elem?-last (x ∷ xs) a (suc i) = ground (arith, get_elem?-last xs a i)

add_tracked-IsAligned :
    {E : Type 0} (t : ConstraintTracker) (n : ℕ) (solver : List (Assertion E)) (c : E)
    (p : ConstraintProvenance)
    → suc n < 2 ^ 32
    → IsAligned t n
    → IsAligned (add_tracked t solver c p).0 (suc n)
unfolding add_tracked
add_tracked-IsAligned t n solver c p h w = record {
  count = ap (λ (m : ℕ). (m + 1) % 2 ^ 32) w.count ∙ omega arith;
  size = length-append t.tracking_exprs (t.next_id ∷ []) ∙ omega (arith, w.size);
  placed = λ i g. get_elem?-last t.tracking_exprs t.next_id i ∙ at_ i g;
  known = λ i. rw (w.known i, w.count) (new_id i);
}
  where
    at_ :
        (i : ℕ)
        → i < suc n
        → (if i == length t.tracking_exprs then some t.next_id else get_elem? t.tracking_exprs i)
          ≡ some i
    at_ i g = elim (Bool-cases (i == length t.tracking_exprs)) [
      | inl e ↦
          rw e (ap some (w.count ∙ sym w.size ∙ sym ((==_iff i (length t.tracking_exprs)).0 e)))
      | inr e ↦ rw e (w.placed i (ground (arith, w.size)))
    ]

    new_id :
        (i : ℕ)
        → (if i == n then some n else if leb (suc i) n then some i else none)
          ≡ (if leb (suc i) (suc n) then some i else none)
    new_id i = ground arith

pub new-IsAligned : IsAligned new_tracker 0
new-IsAligned = record {
  count = refl;
  size = refl;
  placed = λ i g. absurd (omega arith);
  known = λ i. ground arith;
}

module _ {E : Type 0} where
  track_all-IsAligned :
      (calls : List (E × ConstraintProvenance))
      → length calls < 2 ^ 32
      → IsAligned (track_all calls).0 (length calls)
  unfolding track_all
  track_all-IsAligned [] h = new-IsAligned
  track_all-IsAligned ((c, p) ∷ rest) h =
      let r = track_all rest in
      add_tracked-IsAligned r.0 (length rest) r.1 c p h (track_all-IsAligned rest (omega arith))

  track_all-provenance :
      (calls : List (E × ConstraintProvenance)) (i : ℕ)
      → length calls < 2 ^ 32
      → (track_all calls).0.provenance_map i ≡ numbered calls i
  unfolding track_all add_tracked
  track_all-provenance [] i h = refl
  track_all-provenance ((c, p) ∷ rest) i h =
      let w = track_all-IsAligned rest (omega arith) in
      rw (w.count, track_all-provenance rest i (omega arith)) refl

  track_all-hard :
      (calls : List (E × ConstraintProvenance))
      → length calls < 2 ^ 32
      → (track_all calls).0.hard_constraint_ids ≡ numbers false calls
  unfolding track_all add_tracked
  track_all-hard [] h = refl
  track_all-hard ((c, p) ∷ rest) h =
      let w = track_all-IsAligned rest (omega arith) in
      let r = track_all-hard rest (omega arith) in
      elim (Bool-cases p.is_soft) [
        | inl e ↦ rw e (r ∙ sym (append-nil (numbers false rest)))
        | inr e ↦ rw (e, w.count, r) refl
      ]

  track_all-soft :
      (calls : List (E × ConstraintProvenance))
      → length calls < 2 ^ 32
      → (track_all calls).0.soft_constraint_ids ≡ numbers true calls
  unfolding track_all add_tracked
  track_all-soft [] h = refl
  track_all-soft ((c, p) ∷ rest) h =
      let w = track_all-IsAligned rest (omega arith) in
      let r = track_all-soft rest (omega arith) in
      elim (Bool-cases p.is_soft) [
        | inl e ↦ rw (e, w.count, r) refl
        | inr e ↦ rw e (r ∙ sym (append-nil (numbers true rest)))
      ]

  numbered_beyond :
      (calls : List (E × ConstraintProvenance)) (i : ℕ) → length calls ≤ i → numbered calls i ≡ none
  numbered_beyond [] i h = refl
  numbered_beyond ((c, p) ∷ rest) i h = ground (arith, numbered_beyond rest i)

  numbers_low :
      (soft : Bool) (calls : List (E × ConstraintProvenance)) (n : ℕ)
      → length calls ≤ n
      → Each (λ i. i < n) (numbers soft calls)
  numbers_low soft [] n h = tt
  numbers_low soft ((c, p) ∷ rest) n h =
      low_last (numbers soft rest) (if soft then p.is_soft else not p.is_soft)
        (numbers_low soft rest n (omega arith))
    where
      low_last :
          (l : List ℕ) (b : Bool)
          → Each (λ i. i < n) l
          → Each (λ i. i < n) (l ++ (if b then length rest ∷ [] else []))
      low_last [] true w = (omega arith, tt)
      low_last [] false w = tt
      low_last (x ∷ l) b w = (w.0, low_last l b w.1)

literals_at_places :
    (t : ConstraintTracker) (n : ℕ) (ids : List ℕ)
    → IsAligned t n
    → Each (λ i. i < n) ids
    → literals_at t.tracking_exprs ids ≡ ids
unfolding literals_at
literals_at_places t n [] w h = refl
literals_at_places t n (i ∷ ids) w h =
    rw (w.placed i h.0) (ap (λ l. i ∷ l) (literals_at_places t n ids w h.1))

-- After fewer than 2^32 tracked constraints the hard and the soft literals are those of the hard
-- and the soft constraints, in the order of the additions, and a literal leads to the provenance
-- of the constraint that it was made for, or to none.
pub track_all_lem :
    {E : Type 0} (calls : List (E × ConstraintProvenance))
    → length calls < 2 ^ 32
    → (get_hard_literals (track_all calls).0 ≡ numbers false calls)
      × (get_soft_literals (track_all calls).0 ≡ numbers true calls)
      × ((literal : ℕ) → get_provenance (track_all calls).0 literal ≡ numbered calls literal)
unfolding get_hard_literals get_soft_literals get_provenance
track_all_lem calls h =
    let w = track_all-IsAligned calls h in
    let t = (track_all calls).0 in
    (
      ap (literals_at t.tracking_exprs) (track_all-hard calls h)
          ∙ literals_at_places t (length calls) (numbers false calls) w
              (numbers_low false calls (length calls) (omega arith)),
      ap (literals_at t.tracking_exprs) (track_all-soft calls h)
          ∙ literals_at_places t (length calls) (numbers true calls) w
              (numbers_low true calls (length calls) (omega arith)),
      λ literal. elim (Bool-cases (leb (suc literal) (length calls))) [
        | inl e ↦ rw (w.known literal, e) (track_all-provenance calls literal h)
        | inr e ↦ rw (w.known literal, e) (sym (numbered_beyond calls literal (ground arith)))
      ],
    )
