-- ===== src/Algorithms/Overlaps/Pairs.antt =====
-- The pairs that the sweep and the quadratic branch report.
use ida_structor.Prelude.{
  ℕ, zero, suc, ◌<◌, ◌≡◌, ◌≢◌, ◌↔◌, ◌⊎◌, refl, sym, ap, subst, ◌∙◌, true, false, ltb, List, [], ◌∷◌,
  map, length, get_or, arith, Bool-cases, inl, inr,
}
use ida_structor.Prelude.Int.{ℤ, ==ℤ_iff}
use ida_structor.Prelude.Sorting.{In, sort_by, In-sort_by, In-unique_by, sort_by-map}
use ida_structor.Algorithms.Overlaps.{
  Interval, no_interval, overlaps, event_less, events_from, id_at, ordered, sweep, pair_less,
  pair_eq, find_overlapping_pairs,
}
use ida_structor.Algorithms.Overlaps.Keys.{event_of, is_solid, key_less, keys_from, events_from-map}
use ida_structor.Algorithms.Overlaps.Order.{
  sorted_keys, sorted_keys-Ascends, sorted_keys-is_pending,
}
use ida_structor.Algorithms.Overlaps.Sweep.{IsMidway, Reported, sweep-In}

start-IsMidway : (vs : List Interval) → IsMidway vs [] (sorted_keys vs)
start-IsMidway vs = record {
  ascends = sorted_keys-Ascends vs;
  open_ones = λ i. let a = sorted_keys-is_pending vs true i in ground arith;
  apart = refl;
  solid = λ b i h. sym (sorted_keys-is_pending vs b i) ∙ h;
  ends = λ i h. sorted_keys-is_pending vs false i ∙ sym (sorted_keys-is_pending vs true i) ∙ h;
  past = λ b i s h. let a = sorted_keys-is_pending vs b i in absurd (ground arith);
}

events-sorted :
    (vs : List Interval)
    → sort_by event_less (events_from 0 vs) ≡ map (event_of vs) (sorted_keys vs)
unfolding key_less
events-sorted vs =
    ap (sort_by event_less)
      (events_from-map vs vs 0 (λ k. ap (λ m. get_or vs m no_interval) (omega arith)))
    ∙ sort_by-map (event_of vs) (key_less vs) event_less (λ a b. refl) (keys_from 0 vs)

module _ (vs : List Interval) where
  abbrev at_ : ℕ → Interval
  at_ i = get_or vs i no_interval

  solid_overlap :
      (i j : ℕ) → overlaps (at_ i) (at_ j) ≡ true → (is_solid vs i ≡ true) × (is_solid vs j ≡ true)
  solid_overlap i j h = (ground arith, ground arith)

  overlaps_sym : (i j : ℕ) → overlaps (at_ i) (at_ j) ≡ true → overlaps (at_ j) (at_ i) ≡ true
  overlaps_sym i j h = ground arith

  -- Not over when the other starts: the two overlap.
  overlap_of_order :
      (i j : ℕ)
      → is_solid vs i ≡ true
      → is_solid vs j ≡ true
      → key_less vs (true, i) (true, j) ≡ true
      → key_less vs (false, i) (true, j) ≡ false
      → overlaps (at_ i) (at_ j) ≡ true
  unfolding key_less
  overlap_of_order i j s t a b = ground arith

  order_of_overlap :
      (i j : ℕ) → overlaps (at_ i) (at_ j) ≡ true → key_less vs (false, i) (true, j) ≡ false
  unfolding key_less
  order_of_overlap i j h = ground arith

  distinct_starts : (i j : ℕ) → key_less vs (true, i) (true, j) ≡ true → i ≢ j
  unfolding key_less
  distinct_starts i j h e = ground arith

  either_first :
      (i j : ℕ)
      → i ≢ j
      → (key_less vs (true, i) (true, j) ≡ true) ⊎ (key_less vs (true, j) (true, i) ≡ true)
  unfolding key_less
  either_first i j h = elim (Bool-cases (key_less vs (true, i) (true, j))) [
    | inl e ↦ inl e
    | inr e ↦ inr (ground arith)
  ]

ordered_sym : (a b : ℤ) → ordered a b ≡ ordered b a
ordered_sym a b = ground arith

-- The pairs of two places that overlap.
abbrev pub Overlapping : List Interval → ℤ × ℤ → Type 0
Overlapping vs p =
    (i j : ℕ) × (i < j)
    × (overlaps (get_or vs i no_interval) (get_or vs j no_interval) ≡ true)
    × (p ≡ ordered (id_at vs i) (id_at vs j))

module _ (vs : List Interval) (p : ℤ × ℤ) where
  place_in_order :
      (i j : ℕ)
      → i ≢ j
      → overlaps (get_or vs i no_interval) (get_or vs j no_interval) ≡ true
      → p ≡ ordered (id_at vs i) (id_at vs j)
      → Overlapping vs p
  place_in_order i j d o e = elim (Bool-cases (ltb i j)) [
    | inl l ↦ (i, j, ground arith, o, e)
    | inr l ↦ (j, i, ground arith, overlaps_sym vs i j o, e ∙ ordered_sym (id_at vs i) (id_at vs j))
  ]

  Reported-iff-Overlapping : Reported vs (sorted_keys vs) p ↔ Overlapping vs p
  Reported-iff-Overlapping = (
    λ h.
        let (j, i, a, s, l, m, e) = h in
        place_in_order i j (distinct_starts vs i j l)
          (overlap_of_order vs i j s (sym (sorted_keys-is_pending vs true j) ∙ a) l m) e,
    λ h.
        let (i, j, d, o, e) = h in
        let (s, t) = solid_overlap vs i j o in
        elim (either_first vs i j (omega arith)) [
          | inl l ↦ (j, i, sorted_keys-is_pending vs true j ∙ t, s, l, order_of_overlap vs i j o, e)
          | inr l ↦ (
            i,
            j,
            sorted_keys-is_pending vs true i ∙ s,
            t,
            l,
            order_of_overlap vs j i (overlaps_sym vs i j o),
            e ∙ ordered_sym (id_at vs i) (id_at vs j),
          )
        ],
  )

pair_eq_exact : (p q : ℤ × ℤ) → (pair_eq p q ≡ true) ↔ (p ≡ q)
pair_eq_exact (a, b) (c, d) =
    (λ h. ground (arith, ==ℤ_iff a c, ==ℤ_iff b d), λ h. ground (arith, ==ℤ_iff a c, ==ℤ_iff b d))

few_do_not_overlap :
    (vs : List Interval) (i j : ℕ)
    → ltb (length vs) 2 ≡ true
    → i < j
    → overlaps (get_or vs i no_interval) (get_or vs j no_interval) ≡ false
few_do_not_overlap [] i j h l = refl
few_do_not_overlap (v ∷ []) i (suc j) h l = ground arith
few_do_not_overlap (v ∷ []) i zero h l = absurd (omega arith)
few_do_not_overlap (v ∷ w ∷ vs) i j h l = absurd (ground arith)

-- The sweep reports a pair of identifiers, the smaller one first, exactly when two intervals at
-- different places of the list have them and overlap.
pub find_overlapping_pairs_iff :
    (vs : List Interval) (p : ℤ × ℤ) → In p (find_overlapping_pairs vs) ↔ Overlapping vs p
unfolding find_overlapping_pairs
find_overlapping_pairs_iff vs p = elim (Bool-cases (ltb (length vs) 2)) [
  | inl e ↦ rw e (
    λ h. absurd h,
    λ h. let (i, j, d, o, q) = h in let n = few_do_not_overlap vs i j e d in absurd (ground arith),
  )
  | inr e ↦
      let r =
        subst (λ es. In p (sweep vs [] es) ↔ Reported vs (sorted_keys vs) p)
          (sym (events-sorted vs)) (sweep-In vs (sorted_keys vs) [] p (start-IsMidway vs)) in
      let s = In-sort_by pair_less p (sweep vs [] (sort_by event_less (events_from 0 vs))) in
      let u =
        In-unique_by pair_eq pair_eq_exact p
          (sort_by pair_less (sweep vs [] (sort_by event_less (events_from 0 vs)))) in
      let t = Reported-iff-Overlapping vs p in
      rw e (λ h. t.0 (r.0 (s.0 (u.0 h))), λ h. u.1 (s.1 (r.1 (t.1 h))))
]
