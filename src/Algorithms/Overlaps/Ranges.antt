-- ===== src/Algorithms/Overlaps/Ranges.antt =====
-- `detect_overlaps`: the quadratic branch and the sweep answer alike.
use ida_structor.Prelude.{
  ℕ, zero, suc, ◌+◌, ◌^◌, ◌-◌, ◌<◌, ◌≡◌, ◌↔◌, ◌⊎◌, refl, sym, ap, ap₂, ◌∙◌, true, false, ltb, leb,
  List, [], ◌∷◌, map, some, length, get_or, arith, Bool-cases, inl, inr,
}
use ida_structor.Prelude.Int.{ℤ, pos}
use ida_structor.Prelude.Sorting.{In}
use ida_structor.Algorithms.Overlaps.{
  Interval, no_interval, overlaps, id_at, ordered, find_overlapping_pairs, Range, all_pairs,
  to_interval, intervals_from, as_pair, detect_overlaps,
}
use ida_structor.Algorithms.Overlaps.Pairs.{find_overlapping_pairs_iff}
use ida_structor.Algorithms.Overlaps.Quadratic.{
  collides, no_range, Colliding, overlaps-to_interval, quadratic_iff,
}

-- The interval at a place is that of the candidate there; past the end there is none.
interval_at :
    (n i : ℕ) (rs : List Range)
    → (get_or (intervals_from n rs) i no_interval ≡ to_interval (n + i) (get_or rs i no_range))
      ⊎ ((get_or (intervals_from n rs) i no_interval ≡ no_interval)
          × (get_or rs i no_range ≡ no_range))
interval_at n i [] = inr (refl, refl)
interval_at n zero (r ∷ rs) = inl (ap (λ m. to_interval m r) (omega arith))
interval_at n (suc i) (r ∷ rs) = elim (interval_at (suc n) i rs) [
  | inl e ↦ inl (e ∙ ap (λ m. to_interval m (get_or rs i no_range)) (omega arith))
  | inr e ↦ inr e
]

no_overlap : (v : Interval) → (overlaps no_interval v ≡ false) × (overlaps v no_interval ≡ false)
no_overlap v = (ground arith, ground arith)

no_collision : (r : Range) → (collides no_range r ≡ false) × (collides r no_range ≡ false)
no_collision r = (ground arith, ground arith)

-- Intervals that overlap collide, and have their places as identifiers.
overlap_at :
    (rs : List Range) (i j : ℕ)
    → ((overlaps
            (get_or (intervals_from 0 rs) i no_interval)
            (get_or (intervals_from 0 rs) j no_interval)
          ≡ true)
        ↔ (collides (get_or rs i no_range) (get_or rs j no_range) ≡ true))
overlap_at rs i j = elim (interval_at 0 i rs) [
  | inl e ↦ elim (interval_at 0 j rs) [
    | inl f ↦
        rw
          (e, f, overlaps-to_interval (0 + i) (0 + j) (get_or rs i no_range) (get_or rs j no_range))
          (λ h. h, λ h. h)
    | inr f ↦
        rw
          (
            f.0,
            f.1,
            (no_overlap (get_or (intervals_from 0 rs) i no_interval)).1,
            (no_collision (get_or rs i no_range)).1,
          )
          (λ h. h, λ h. h)
  ]
  | inr e ↦
      rw
        (
          e.0,
          e.1,
          (no_overlap (get_or (intervals_from 0 rs) j no_interval)).0,
          (no_collision (get_or rs j no_range)).0,
        )
        (λ h. h, λ h. h)
]

ids_at :
    (rs : List Range) (i j : ℕ)
    → i < j
    → collides (get_or rs i no_range) (get_or rs j no_range) ≡ true
    → ordered (id_at (intervals_from 0 rs) i) (id_at (intervals_from 0 rs) j) ≡ as_pair (i, j)
ids_at rs i j l c = elim (interval_at 0 i rs) [
  | inl e ↦ elim (interval_at 0 j rs) [
    | inl f ↦
        ap₂ ordered (ap (λ v. v.id) e ∙ same_id (0 + i) (get_or rs i no_range))
          (ap (λ v. v.id) f ∙ same_id (0 + j) (get_or rs j no_range))
        ∙ in_order
    | inr f ↦
        let g = (no_collision (get_or rs i no_range)).1 in
        let f' = ap (λ r. collides (get_or rs i no_range) r) f.1 in cc
  ]
  | inr e ↦
      let g = (no_collision (get_or rs j no_range)).0 in
      let e' = ap (λ r. collides r (get_or rs j no_range)) e.1 in cc
]
  where
    same_id : (n : ℕ) (r : Range) → (to_interval n r).id ≡ pos n
    same_id n r = ground arith

    in_order : ordered (pos (0 + i)) (pos (0 + j)) ≡ as_pair (i, j)
    in_order = ground arith

sweep_iff :
    (rs : List Range) (p : ℤ × ℤ)
    → In p (find_overlapping_pairs (intervals_from 0 rs)) ↔ Colliding rs p
sweep_iff rs p =
    let r = find_overlapping_pairs_iff (intervals_from 0 rs) p in
    (
      λ m.
          let (i, j, l, o, e) = r.0 m in
          let c = (overlap_at rs i j).0 o in (i, j, l, c, e ∙ ids_at rs i j l c),
      λ m.
          let (i, j, l, c, e) = m in
          r.1 (i, j, l, (overlap_at rs i j).1 c, e ∙ sym (ids_at rs i j l c)),
    )

few_do_not_collide :
    (rs : List Range) (i j : ℕ)
    → ltb (length rs) 2 ≡ true
    → i < j
    → collides (get_or rs i no_range) (get_or rs j no_range) ≡ false
few_do_not_collide [] i j h l = refl
few_do_not_collide (v ∷ []) i (suc j) h l = (no_collision (get_or (v ∷ []) i no_range)).1
few_do_not_collide (v ∷ []) i zero h l = absurd (omega arith)
few_do_not_collide (v ∷ w ∷ vs) i j h l = absurd (ground arith)

-- Up to 2^31 - 1 candidates there is an answer, and whichever branch the threshold selects it has
-- a pair exactly when it is two places in order whose candidates have a size, end within an
-- int64_t and share a byte.
pub detect_overlaps_iff :
    (rs : List Range) (threshold : ℕ)
    → length rs < 2 ^ 31
    → (out : List (ℤ × ℤ)) × (detect_overlaps rs threshold ≡ some out)
      × ((p : ℤ × ℤ) → In p out ↔ Colliding rs p)
unfolding detect_overlaps
detect_overlaps_iff rs threshold h = elim (Bool-cases (ltb (length rs) 2)) [
  | inl e ↦ (
    [],
    rw e,
    λ p. (
      λ m. absurd m,
      λ m. let (i, j, l, c, g) = m in let n = few_do_not_collide rs i j e l in cc,
    ),
  )
  | inr e ↦
      let fits : ltb (2 ^ 31 - 1) (length rs) ≡ false = ground arith in
      elim (Bool-cases (leb (length rs) threshold)) [
        | inl f ↦ (map as_pair (all_pairs 0 rs), rw (e, fits, f), quadratic_iff rs)
        | inr f ↦ (find_overlapping_pairs (intervals_from 0 rs), rw (e, fits, f), sweep_iff rs)
      ]
]
