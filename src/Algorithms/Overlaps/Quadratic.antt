-- ===== src/Algorithms/Overlaps/Quadratic.antt =====
-- The quadratic branch of `detect_overlaps` lists the pairs of candidates that collide.
use ida_structor.Prelude.{
  ℕ, zero, suc, ◌+◌, ◌<◌, ◌≡◌, ◌↔◌, ◌⊎◌, refl, ap, ap₂, ◌∙◌, Bool, true, false, not, ◌&&◌, List, [],
  ◌∷◌, map, get_or, arith, Bool-cases, inl, inr,
}
use ida_structor.Prelude.Int.{ℤ, pos, ltb_ℤ, ◌+ℤ◌}
use ida_structor.Prelude.Sorting.{In, In-append}
use ida_structor.Algorithms.Overlaps.{
  is_empty, overlaps, Range, is_skipped, pairs_with, all_pairs, to_interval, as_pair,
}

-- Two candidates are compared and share a byte.
abbrev pub collides : Range → Range → Bool
collides a b =
    not (is_skipped a)
    && not (is_skipped b)
    && (ltb_ℤ a.offset (b.offset +ℤ pos b.size) && ltb_ℤ b.offset (a.offset +ℤ pos a.size))

abbrev pub no_range : Range
no_range = record { offset = pos 0; size = 0 }

-- The pairs of places, in order, of which the candidates collide.
abbrev pub Colliding : List Range → ℤ × ℤ → Type 0
Colliding rs p =
    (i j : ℕ) × (i < j)
    × (collides (get_or rs i no_range) (get_or rs j no_range) ≡ true)
    × (p ≡ as_pair (i, j))

empty-to_interval : (i : ℕ) (a : Range) → is_empty (to_interval i a) ≡ is_skipped a
unfolding ◌+ℤ◌
empty-to_interval i a = ground arith

kept_end :
    (i : ℕ) (a : Range) → is_skipped a ≡ false → (to_interval i a).end ≡ a.offset +ℤ pos a.size
kept_end i a h = ground arith

same_start : (i : ℕ) (a : Range) → (to_interval i a).start ≡ a.offset
same_start i a = ground arith

pub overlaps-to_interval :
    (i j : ℕ) (a b : Range) → overlaps (to_interval i a) (to_interval j b) ≡ collides a b
overlaps-to_interval i j a b =
    let u = empty-to_interval i a in
    let v = empty-to_interval j b in
    elim (Bool-cases (is_skipped a)) [
      | inl e ↦ rw (u, e) refl
      | inr e ↦ elim (Bool-cases (is_skipped b)) [
        | inl f ↦ rw (u, v, e, f) refl
        | inr f ↦
            rw (u, v, e, f)
              (ap₂ (λ x y. ltb_ℤ (to_interval i a).start x && ltb_ℤ (to_interval j b).start y)
                  (kept_end j b f) (kept_end i a e)
                ∙ ap₂ (λ x y. ltb_ℤ x (b.offset +ℤ pos b.size) && ltb_ℤ y (a.offset +ℤ pos a.size))
                    (same_start i a) (same_start j b))
      ]
    ]

pairs_with-In :
    (i : ℕ) (a : Range) (n : ℕ) (rest : List Range) (q : ℕ × ℕ)
    → is_skipped a ≡ false
    → In q (pairs_with i a n rest)
      ↔ ((k : ℕ) × (collides a (get_or rest k no_range) ≡ true) × (q ≡ (i, n + k)))
unfolding pairs_with
pairs_with-In i a n [] q h = (λ m. absurd m, λ m. let (k, c, e) = m in absurd (ground arith))
pairs_with-In i a n (b ∷ rest) q h =
    let r = pairs_with-In i a (suc n) rest q h in
    elim (Bool-cases (collides a b)) [
      | inl e ↦
          let s : is_skipped b ≡ false = ground arith in
          let t : (ltb_ℤ a.offset (b.offset +ℤ pos b.size)
                && ltb_ℤ b.offset (a.offset +ℤ pos a.size))
              ≡ true =
            ground arith in
          rw (s, t)
            (
              λ m. elim m [
                | inl u ↦ (0, e, u ∙ ap (λ x. (i, x)) (omega arith))
                | inr u ↦ later (r.0 u)
              ],
              λ m. found e r.1 m,
            )
      | inr e ↦ rw (skipped e) (λ m. later (r.0 m), λ m. r.1 (not_first e m))
    ]
  where
    later :
        ((k : ℕ) × (collides a (get_or rest k no_range) ≡ true) × (q ≡ (i, suc n + k)))
        → (k : ℕ) × (collides a (get_or (b ∷ rest) k no_range) ≡ true) × (q ≡ (i, n + k))
    later (k, c, e) = (suc k, c, e ∙ ap (λ x. (i, x)) (omega arith))

    found :
        collides a b ≡ true
        → ((k : ℕ) × (collides a (get_or rest k no_range) ≡ true) × (q ≡ (i, suc n + k))
            → In q (pairs_with i a (suc n) rest))
        → (k : ℕ) × (collides a (get_or (b ∷ rest) k no_range) ≡ true) × (q ≡ (i, n + k))
        → (q ≡ (i, n)) ⊎ In q (pairs_with i a (suc n) rest)
    found e f (zero, c, g) = inl (g ∙ ap (λ x. (i, x)) (omega arith))
    found e f (suc k, c, g) = inr (f (k, c, g ∙ ap (λ x. (i, x)) (omega arith)))

    not_first :
        collides a b ≡ false
        → (k : ℕ) × (collides a (get_or (b ∷ rest) k no_range) ≡ true) × (q ≡ (i, n + k))
        → (k : ℕ) × (collides a (get_or rest k no_range) ≡ true) × (q ≡ (i, suc n + k))
    not_first e (zero, c, g) = absurd (ground arith)
    not_first e (suc k, c, g) = (k, c, g ∙ ap (λ x. (i, x)) (omega arith))

    skipped : collides a b ≡ false → pairs_with i a n (b ∷ rest) ≡ pairs_with i a (suc n) rest
    skipped e = ground arith

skipped_alone : (a b : Range) → is_skipped a ≡ true → collides a b ≡ false
skipped_alone a b h = ground arith

all_pairs-In :
    (n : ℕ) (rs : List Range) (q : ℕ × ℕ)
    → In q (all_pairs n rs) ↔ (
        (i j : ℕ) × (i < j)
        × (collides (get_or rs i no_range) (get_or rs j no_range) ≡ true)
        × (q ≡ (n + i, n + j)))
unfolding all_pairs
all_pairs-In n [] q = (λ m. absurd m, λ m. let (i, j, l, c, e) = m in absurd (ground arith))
all_pairs-In n (a ∷ rest) q =
    let r = all_pairs-In (suc n) rest q in
    elim (Bool-cases (is_skipped a)) [
      | inl e ↦ rw e (λ m. later (r.0 m), λ m. r.1 (not_first e m))
      | inr e ↦
          let p = pairs_with-In n a (suc n) rest q e in
          let s = In-append q (pairs_with n a (suc n) rest) (all_pairs (suc n) rest) in
          rw e (
            λ m. elim (s.0 m) [ inl u ↦ first (p.0 u) | inr u ↦ later (r.0 u) ],
            λ m. s.1 (found p.1 r.1 m),
          )
    ]
  where
    later :
        ((i j : ℕ) × (i < j)
          × (collides (get_or rest i no_range) (get_or rest j no_range) ≡ true)
          × (q ≡ (suc n + i, suc n + j)))
        → (i j : ℕ) × (i < j)
          × (collides (get_or (a ∷ rest) i no_range) (get_or (a ∷ rest) j no_range) ≡ true)
          × (q ≡ (n + i, n + j))
    later (i, j, l, c, e) =
        (suc i, suc j, omega arith, c, e ∙ ap₂ (λ x y. (x, y)) (omega arith) (omega arith))

    first :
        ((k : ℕ) × (collides a (get_or rest k no_range) ≡ true) × (q ≡ (n, suc n + k)))
        → (i j : ℕ) × (i < j)
          × (collides (get_or (a ∷ rest) i no_range) (get_or (a ∷ rest) j no_range) ≡ true)
          × (q ≡ (n + i, n + j))
    first (k, c, e) =
        (0, suc k, omega arith, c, e ∙ ap₂ (λ x y. (x, y)) (omega arith) (omega arith))

    not_first :
        is_skipped a ≡ true
        → (i j : ℕ) × (i < j)
          × (collides (get_or (a ∷ rest) i no_range) (get_or (a ∷ rest) j no_range) ≡ true)
          × (q ≡ (n + i, n + j))
        → (i j : ℕ) × (i < j)
          × (collides (get_or rest i no_range) (get_or rest j no_range) ≡ true)
          × (q ≡ (suc n + i, suc n + j))
    not_first e (i, zero, l, c, g) = absurd (omega arith)
    not_first e (zero, suc j, l, c, g) = let s = skipped_alone a (get_or rest j no_range) e in cc
    not_first e (suc i, suc j, l, c, g) =
        (i, j, omega arith, c, g ∙ ap₂ (λ x y. (x, y)) (omega arith) (omega arith))

    found :
        ((k : ℕ) × (collides a (get_or rest k no_range) ≡ true) × (q ≡ (n, suc n + k))
          → In q (pairs_with n a (suc n) rest))
        → ((i j : ℕ) × (i < j)
              × (collides (get_or rest i no_range) (get_or rest j no_range) ≡ true)
              × (q ≡ (suc n + i, suc n + j))
            → In q (all_pairs (suc n) rest))
        → (i j : ℕ) × (i < j)
          × (collides (get_or (a ∷ rest) i no_range) (get_or (a ∷ rest) j no_range) ≡ true)
          × (q ≡ (n + i, n + j))
        → In q (pairs_with n a (suc n) rest) ⊎ In q (all_pairs (suc n) rest)
    found f g (i, zero, l, c, e) = absurd (omega arith)
    found f g (zero, suc j, l, c, e) =
        inl (f (j, c, e ∙ ap₂ (λ x y. (x, y)) (omega arith) (omega arith)))
    found f g (suc i, suc j, l, c, e) =
        inr (g (i, j, omega arith, c, e ∙ ap₂ (λ x y. (x, y)) (omega arith) (omega arith)))

In-map :
    (p : ℤ × ℤ) (l : List (ℕ × ℕ))
    → In p (map as_pair l) ↔ ((q : ℕ × ℕ) × (In q l) × (p ≡ as_pair q))
In-map p [] = (λ m. absurd m, λ m. absurd m.1)
In-map p (x ∷ l) =
    let r = In-map p l in
    (
      λ m. elim m [ inl u ↦ (x, inl refl, u) | inr u ↦ let (q, a, b) = r.0 u in (q, inr a, b) ],
      λ m.
          let (q, a, b) = m in
          elim a [ inl u ↦ inl (b ∙ ap as_pair u) | inr u ↦ inr (r.1 (q, u, b)) ],
    )

pub quadratic_iff :
    (rs : List Range) (p : ℤ × ℤ) → In p (map as_pair (all_pairs 0 rs)) ↔ Colliding rs p
quadratic_iff rs p =
    let r = In-map p (all_pairs 0 rs) in
    (
      λ m.
          let (q, a, b) = r.0 m in
          let (i, j, l, c, e) = (all_pairs-In 0 rs q).0 a in
          (i, j, l, c, b ∙ ap as_pair (e ∙ ap₂ (λ x y. (x, y)) (omega arith) (omega arith))),
      λ m.
          let (i, j, l, c, e) = m in
          r.1 (
            (i, j),
            (all_pairs-In 0 rs (i, j)).1
                (i, j, l, c, ap₂ (λ x y. (x, y)) (omega arith) (omega arith)),
            e,
          ),
    )
