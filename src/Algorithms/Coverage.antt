-- ===== src/Algorithms/Coverage.antt =====
-- `compute_coverage_map`.
use ida_structor.Prelude.{
  ℕ, zero, suc, ◌+◌, ◌-◌, ◌^◌, ◌<◌, ◌≡◌, ◌↔◌, ◌⊎◌, refl, sym, ap₂, subst, ◌∙◌, Bool, true, false,
  not, ◌&&◌, ◌==◌, ltb, if◌then◌else◌, Bool-cases, inl, inr, List, [], ◌∷◌, map, Option, none, some,
  length, length-map, get_or, arith,
}
use ida_structor.Prelude.Int.{ℤ, pos, leb_ℤ, ◌+ℤ◌}
use ida_structor.Prelude.Sorting.{In}
use ida_structor.Algorithms.Overlaps.{Range, end_overflows, is_skipped}
use ida_structor.Algorithms.Overlaps.Quadratic.{no_range}

-- The end of a range; `none` where it is no `int64_t`.
abbrev pub checked_end : Range → Option ℤ
checked_end r =
    if ltb (2 ^ 63 - 1) r.size
    then none
    else if end_overflows r
    then none
    else some (r.offset +ℤ pos r.size)

abbrev pub reaches : Option ℤ → ℤ → Bool
reaches none e = false
reaches (some c) e = leb_ℤ e c

-- The indices of the candidates that cover an access with the given end, from `i` on.
unfoldable pub covering : ℕ → Range → ℤ → List Range → List ℕ
covering i access access_end [] = []
covering i access access_end (c ∷ cs) =
    let rest = covering (suc i) access access_end cs in
    if not (c.size == 0) && (leb_ℤ c.offset access.offset && reaches (checked_end c) access_end)
    then i ∷ rest
    else rest

abbrev pub row_for : Range → Option ℤ → List Range → List ℕ
row_for access none cs = []
row_for access (some e) cs = if access.size == 0 then [] else covering 0 access e cs

-- `none` is the exception on too many candidates.
unfoldable pub compute_coverage_map : List Range → List Range → Option (List (List ℕ))
unfolding covering
compute_coverage_map accesses cs =
    if ltb (2 ^ 31 - 1) (length cs)
    then none
    else some (map (λ a. row_for a (checked_end a) cs) accesses)

-- Both have a size and an end of 64 bits, and the candidate holds the access.
abbrev pub covers : Range → Range → Bool
covers c a =
    not (is_skipped c)
    && not (is_skipped a)
    && (leb_ℤ c.offset a.offset && leb_ℤ (a.offset +ℤ pos a.size) (c.offset +ℤ pos c.size))

end_of_kept :
    (r : Range)
    → is_skipped r ≡ false
    → (checked_end r ≡ some (r.offset +ℤ pos r.size)) × ((r.size == 0) ≡ false)
end_of_kept r h = (ground arith, ground arith)

end_of_skipped : (r : Range) → is_skipped r ≡ true → ((r.size == 0) ≡ true) ⊎ (checked_end r ≡ none)
end_of_skipped r h = elim (Bool-cases (r.size == 0)) [ inl e ↦ inl e | inr e ↦ inr (ground arith) ]

abbrev test : Range → ℤ → Range → Bool
test a e c = not (c.size == 0) && (leb_ℤ c.offset a.offset && reaches (checked_end c) e)

false_end : (x y : Bool) → (x && (y && false)) ≡ false
false_end true true = refl
false_end true false = refl
false_end false y = refl

test_lem : (a c : Range) → is_skipped a ≡ false → test a (a.offset +ℤ pos a.size) c ≡ covers c a
test_lem a c h = elim (Bool-cases (is_skipped c)) [
  | inl e ↦ elim (end_of_skipped c e) [
    | inl f ↦ rw f refl
    | inr f ↦ rw (f, e) (false_end (not (c.size == 0)) (leb_ℤ c.offset a.offset))
  ]
  | inr e ↦
      let k = end_of_kept c e in
      ap₂ (λ x y. not x && (leb_ℤ c.offset a.offset && reaches y (a.offset +ℤ pos a.size))) k.1 k.0
      ∙ sym (
          ap₂
            (λ x y.
              not x
              && not y
              && (leb_ℤ c.offset a.offset
                  && leb_ℤ (a.offset +ℤ pos a.size) (c.offset +ℤ pos c.size)))
            e h)
]

covering-In :
    (a : Range) (n j : ℕ) (cs : List Range)
    → is_skipped a ≡ false
    → In j (covering n a (a.offset +ℤ pos a.size) cs)
      ↔ ((k : ℕ) × (covers (get_or cs k no_range) a ≡ true) × (j ≡ n + k))
unfolding covering
covering-In a n j [] h = (λ m. absurd m, λ m. let (k, c, e) = m in absurd (ground arith))
covering-In a n j (c ∷ cs) h =
    let r = covering-In a (suc n) j cs h in
    let t = test_lem a c h in
    elim (Bool-cases (covers c a)) [
      | inl e ↦ rw (t ∙ e) (
        λ m. elim m [ inl u ↦ (0, e, u ∙ omega arith) | inr u ↦ later (r.0 u) ],
        λ m. found r.1 m,
      )
      | inr e ↦ rw (t ∙ e) (λ m. later (r.0 m), λ m. r.1 (not_first e m))
    ]
  where
    later :
        ((k : ℕ) × (covers (get_or cs k no_range) a ≡ true) × (j ≡ suc n + k))
        → (k : ℕ) × (covers (get_or (c ∷ cs) k no_range) a ≡ true) × (j ≡ n + k)
    later (k, x, e) = (suc k, x, omega arith)

    found :
        ((k : ℕ) × (covers (get_or cs k no_range) a ≡ true) × (j ≡ suc n + k)
          → In j (covering (suc n) a (a.offset +ℤ pos a.size) cs))
        → (k : ℕ) × (covers (get_or (c ∷ cs) k no_range) a ≡ true) × (j ≡ n + k)
        → (j ≡ n) ⊎ In j (covering (suc n) a (a.offset +ℤ pos a.size) cs)
    found f (zero, x, e) = inl (omega arith)
    found f (suc k, x, e) = inr (f (k, x, omega arith))

    not_first :
        covers c a ≡ false
        → (k : ℕ) × (covers (get_or (c ∷ cs) k no_range) a ≡ true) × (j ≡ n + k)
        → (k : ℕ) × (covers (get_or cs k no_range) a ≡ true) × (j ≡ suc n + k)
    not_first q (zero, x, e) = absurd (ground arith)
    not_first q (suc k, x, e) = (k, x, omega arith)

skipped_uncovered : (a c : Range) → is_skipped a ≡ true → covers c a ≡ false
skipped_uncovered a c h = rw h (
    no (is_skipped c)
      (leb_ℤ c.offset a.offset && leb_ℤ (a.offset +ℤ pos a.size) (c.offset +ℤ pos c.size)))
  where
    no : (x y : Bool) → (not x && false && y) ≡ false
    no true y = refl
    no false y = refl

row-In :
    (a : Range) (cs : List Range) (j : ℕ)
    → In j (row_for a (checked_end a) cs) ↔ (covers (get_or cs j no_range) a ≡ true)
row-In a cs j = elim (Bool-cases (is_skipped a)) [
  | inl e ↦
      let s = skipped_uncovered a (get_or cs j no_range) e in
      rw s (elim (end_of_skipped a e) [
        | inl f ↦ nobody (checked_end a) f
        | inr f ↦ rw f (λ m. absurd m, λ m. cc)
      ])
  | inr e ↦ let k = end_of_kept a e in rw k.0 (somebody (a.size == 0) k.1 (covering-In a 0 j cs e))
]
  where
    somebody :
        (b : Bool)
        → b ≡ false
        → In j (covering 0 a (a.offset +ℤ pos a.size) cs)
          ↔ ((k : ℕ) × (covers (get_or cs k no_range) a ≡ true) × (j ≡ 0 + k))
        → In j (if b then [] else covering 0 a (a.offset +ℤ pos a.size) cs)
          ↔ (covers (get_or cs j no_range) a ≡ true)
    somebody true h r = absurd (ground arith)
    somebody false h r = (
      λ m.
          let (i, c, q) = r.0 m in
          subst (λ x. covers (get_or cs x no_range) a ≡ true) (omega arith) c,
      λ m. r.1 (j, m, omega arith),
    )

    nobody : (o : Option ℤ) → (a.size == 0) ≡ true → In j (row_for a o cs) ↔ (false ≡ true)
    nobody none f = (λ m. absurd m, λ m. cc)
    nobody (some x) f = rw f (λ m. absurd m, λ m. cc)

get_or-map :
    (f : Range → List ℕ) (l : List Range) (i : ℕ)
    → f no_range ≡ []
    → get_or (map f l) i [] ≡ f (get_or l i no_range)
get_or-map f [] i h = sym h
get_or-map f (x ∷ xs) zero h = refl
get_or-map f (x ∷ xs) (suc i) h = get_or-map f xs i h

-- Up to 2^31 - 1 candidates there is a row for each access, and it has a candidate's index exactly
-- when the two have a size and an end of 64 bits and the candidate holds the access.
pub compute_coverage_map_iff :
    (accesses cs : List Range)
    → length cs < 2 ^ 31
    → (out : List (List ℕ)) × (compute_coverage_map accesses cs ≡ some out)
      × (length out ≡ length accesses)
      × ((i j : ℕ)
          → In j (get_or out i [])
            ↔ (covers (get_or cs j no_range) (get_or accesses i no_range) ≡ true))
unfolding compute_coverage_map ◌+ℤ◌
compute_coverage_map_iff accesses cs h =
    let fits : ltb (2 ^ 31 - 1) (length cs) ≡ false = ground arith in
    let row = λ (a : Range). row_for a (checked_end a) cs in
    (
      map row accesses,
      rw fits refl,
      length-map accesses row,
      λ i j. rw (get_or-map row accesses i refl) (row-In (get_or accesses i no_range) cs j),
    )
