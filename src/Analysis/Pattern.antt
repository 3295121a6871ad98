-- ===== src/Analysis/Pattern.antt =====
-- `AccessPattern::add_access` of include/structor/synth_types.hpp.
use ida_structor.Prelude.{
  ◌≡◌, refl, sym, ap, ◌∙◌, Bool-cases, List, [], ◌∷◌, ◌++◌, Option, none, some, ◌⊎◌, inl, inr,
  arith,
}
use mathlib.Core.List.{append-nil, append_assoc}
use ida_structor.Prelude.Int.{ℤ, pos, ltb_ℤ, ◌≤ℤ◌, min_ℤ, max_ℤ}
use ida_structor.Prelude.Sorting.{Each, In, In-append}
use ida_structor.Storage.Offset.{sval_max, checked_interval_end}
use ida_structor.Analysis.Evidence.{FieldAccess}

-- The fields that `add_access` keeps.
pub record AccessPattern (T : Type 0) : Type 0 where
  pub accesses : List (FieldAccess T)
  pub min_offset : ℤ
  pub max_offset : ℤ

abbrev pub or_last : Option ℤ → ℤ
or_last none = sval_max
or_last (some e) = e

lower : (a b : ℤ) → (min_ℤ a b ≤ℤ a) × (min_ℤ a b ≤ℤ b) × ((min_ℤ a b ≡ a) ⊎ (min_ℤ a b ≡ b))
lower a b = elim (Bool-cases (ltb_ℤ b a)) [
  | inl e ↦ (ground arith, ground arith, inr (ground arith))
  | inr e ↦ (ground arith, ground arith, inl (ground arith))
]

upper : (a b : ℤ) → (a ≤ℤ max_ℤ a b) × (b ≤ℤ max_ℤ a b) × ((max_ℤ a b ≡ a) ⊎ (max_ℤ a b ≡ b))
upper a b = elim (Bool-cases (ltb_ℤ a b)) [
  | inl e ↦ (ground arith, ground arith, inr (ground arith))
  | inr e ↦ (ground arith, ground arith, inl (ground arith))
]

module _ {T : Type 0} where
  abbrev pub empty_pattern : AccessPattern T
  empty_pattern = record { accesses = []; min_offset = pos 0; max_offset = pos 0 }

  unfoldable pub end_or_last : FieldAccess T → ℤ
  unfolding checked_interval_end
  end_or_last x = or_last (checked_interval_end x.offset x.size)

  abbrev pub extend : AccessPattern T → FieldAccess T → List (FieldAccess T) → AccessPattern T
  unfolding end_or_last
  extend p x [] = record { accesses = x ∷ []; min_offset = x.offset; max_offset = end_or_last x }
  extend p x (y ∷ l) = record {
    accesses = (y ∷ l) ++ (x ∷ []);
    min_offset = min_ℤ p.min_offset x.offset;
    max_offset = max_ℤ p.max_offset (end_or_last x);
  }

  unfoldable pub add_access : AccessPattern T → FieldAccess T → AccessPattern T
  add_access p x = extend p x p.accesses

  -- The accesses of a function, in the order in which they are found.
  unfoldable pub add_accesses : AccessPattern T → List (FieldAccess T) → AccessPattern T
  unfolding add_access
  add_accesses p [] = p
  add_accesses p (x ∷ xs) = add_accesses (add_access p x) xs

  abbrev pub Lies : ℤ → ℤ → FieldAccess T → Type 0
  Lies low high x = (low ≤ℤ x.offset) × (end_or_last x ≤ℤ high)

  Lies-wider :
      (a b c d : ℤ) (l : List (FieldAccess T))
      → c ≤ℤ a
      → b ≤ℤ d
      → Each (Lies a b) l
      → Each (Lies c d) l
  Lies-wider a b c d [] h g w = tt
  Lies-wider a b c d (x ∷ l) h g w = ((omega arith, omega arith), Lies-wider a b c d l h g w.1)

  Each-last :
      (P : FieldAccess T → Type 0) (l : List (FieldAccess T)) (x : FieldAccess T)
      → Each P l
      → P x
      → Each P (l ++ (x ∷ []))
  Each-last P [] x w h = (h, tt)
  Each-last P (y ∷ l) x w h = (w.0, Each-last P l x w.1 h)

  -- Some access has the bound.
  abbrev pub Attained : (FieldAccess T → ℤ) → ℤ → List (FieldAccess T) → Type 0
  Attained f b l = (x : FieldAccess T) × In x l × (f x ≡ b)

  -- Every access lies between the bounds, and the bounds are those of accesses.
  abbrev pub Spans : ℤ → ℤ → List (FieldAccess T) → Type 0
  Spans low high l =
      Each (Lies low high) l × Attained (λ x. x.offset) low l × Attained (λ x. end_or_last x) high l

  abbrev pub IsSpanning : AccessPattern T → Type 0
  IsSpanning p = (p.accesses ≡ []) ⊎ Spans p.min_offset p.max_offset p.accesses

  Attained-last :
      (f : FieldAccess T → ℤ) (a c : ℤ) (l : List (FieldAccess T)) (x : FieldAccess T)
      → Attained f a l
      → (c ≡ a) ⊎ (c ≡ f x)
      → Attained f c (l ++ (x ∷ []))
  Attained-last f a c l x (y, m, e) (inl h) = (y, (In-append y l (x ∷ [])).1 (inl m), e ∙ sym h)
  Attained-last f a c l x (y, m, e) (inr h) =
      (x, (In-append x l (x ∷ [])).1 (inr (inl refl)), sym h)

  Spans-last :
      (a b c d : ℤ) (l : List (FieldAccess T)) (x : FieldAccess T)
      → Spans a b l
      → (c ≤ℤ a) × (c ≤ℤ x.offset) × ((c ≡ a) ⊎ (c ≡ x.offset))
      → (b ≤ℤ d) × (end_or_last x ≤ℤ d) × ((d ≡ b) ⊎ (d ≡ end_or_last x))
      → Spans c d (l ++ (x ∷ []))
  Spans-last a b c d l x s low high = (
    Each-last (Lies c d) l x (Lies-wider a b c d l low.0 high.0 s.0) (low.1, high.1),
    Attained-last (λ y. y.offset) a c l x s.1 low.2,
    Attained-last (λ y. end_or_last y) b d l x s.2 high.2,
  )

  extend-Spans :
      (p : AccessPattern T) (x : FieldAccess T) (l : List (FieldAccess T))
      → (l ≡ []) ⊎ Spans p.min_offset p.max_offset l
      → Spans (extend p x l).min_offset (extend p x l).max_offset (extend p x l).accesses
        × ((extend p x l).accesses ≡ l ++ (x ∷ []))
  unfolding end_or_last
  extend-Spans p x [] h = (((omega arith, tt), (x, inl refl, refl), (x, inl refl, refl)), refl)
  extend-Spans p x (y ∷ l) (inl e) = absurd (ground arith)
  extend-Spans p x (y ∷ l) (inr s) = (
    Spans-last p.min_offset p.max_offset (min_ℤ p.min_offset x.offset)
        (max_ℤ p.max_offset (end_or_last x)) (y ∷ l) x s (lower p.min_offset x.offset)
        (upper p.max_offset (end_or_last x)),
    refl,
  )

  add_access-IsSpanning :
      (p : AccessPattern T) (x : FieldAccess T)
      → IsSpanning p
      → IsSpanning (add_access p x) × ((add_access p x).accesses ≡ p.accesses ++ (x ∷ []))
  unfolding add_access
  add_access-IsSpanning p x h = let r = extend-Spans p x p.accesses h in (inr r.0, r.1)

  from_any :
      (p : AccessPattern T) (xs : List (FieldAccess T))
      → IsSpanning p
      → IsSpanning (add_accesses p xs) × ((add_accesses p xs).accesses ≡ p.accesses ++ xs)
  unfolding add_accesses
  from_any p [] h = (h, sym (append-nil p.accesses))
  from_any p (x ∷ xs) h =
      let r = add_access-IsSpanning p x h in
      let t = from_any (add_access p x) xs r.0 in
      (t.0, t.1 ∙ ap (λ l. l ++ xs) r.1 ∙ append_assoc p.accesses (x ∷ []) xs)

  -- A pattern keeps the accesses that were added, in order; if there are any, each lies between
  -- the bounds, an end that overflows counting as the last address, and each bound is attained.
  pub add_accesses-IsSpanning :
      (xs : List (FieldAccess T))
      → IsSpanning (add_accesses empty_pattern xs) × ((add_accesses empty_pattern xs).accesses ≡ xs)
  add_accesses-IsSpanning xs = from_any empty_pattern xs (inl refl)
