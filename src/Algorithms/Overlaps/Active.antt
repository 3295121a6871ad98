-- ===== src/Algorithms/Overlaps/Active.antt =====
-- The list of active intervals as a set.
use ida_structor.Prelude.{
  ℕ, ◌≡◌, ◌↔◌, refl, ap, ◌∙◌, Bool, true, false, not, ◌&&◌, ◌||◌, ◌==◌, ==_iff, List, [], ◌∷◌, ◌++◌,
  arith, Bool-cases, inl, inr,
}
use ida_structor.Prelude.Int.{ℤ}
use ida_structor.Prelude.Sorting.{In}
use ida_structor.Algorithms.Overlaps.{
  Interval, id_at, ordered, reports, last_or, without_last, swap_out,
}

abbrev pub elem : ℕ → List ℕ → Bool
elem i [] = false
elem i (x ∷ xs) = i == x || elem i xs

abbrev pub distinct : List ℕ → Bool
distinct [] = true
distinct (x ∷ xs) = not (elem x xs) && distinct xs

pub elem-append : (i j : ℕ) (xs : List ℕ) → elem i (xs ++ (j ∷ [])) ≡ (elem i xs || i == j)
elem-append i j [] = ground arith
elem-append i j (x ∷ xs) = ground (arith, elem-append i j xs)

pub distinct-append :
    (j : ℕ) (xs : List ℕ)
    → elem j xs ≡ false
    → distinct xs ≡ true
    → distinct (xs ++ (j ∷ [])) ≡ true
distinct-append j [] e h = refl
distinct-append j (x ∷ xs) e h = ground (arith, distinct-append j xs, elem-append x j xs)

elem-without_last :
    (i y : ℕ) (ys : List ℕ)
    → elem i (y ∷ ys) ≡ (i == last_or y ys || elem i (without_last (y ∷ ys)))
elem-without_last i y [] = ground arith
elem-without_last i y (z ∷ zs) = ground (arith, elem-without_last i z zs)

distinct-without_last :
    (y : ℕ) (ys : List ℕ)
    → distinct (y ∷ ys) ≡ true
    → (elem (last_or y ys) (without_last (y ∷ ys)) ≡ false)
      × (distinct (without_last (y ∷ ys)) ≡ true)
distinct-without_last y [] h = (refl, refl)
distinct-without_last y (z ∷ zs) h =
    let r = distinct-without_last z zs (ground arith) in
    ground (arith, elem-without_last y z zs, elem-without_last (last_or z zs) z zs)

-- Swapping an element out removes it and nothing else.
pub swap_out-elem :
    (i j : ℕ) (xs : List ℕ)
    → distinct xs ≡ true
    → elem i (swap_out j xs) ≡ (elem i xs && not (i == j))
unfolding swap_out
swap_out-elem i j [] h = refl
swap_out-elem i j (x ∷ []) h = ground arith
swap_out-elem i j (x ∷ y ∷ ys) h = elim (Bool-cases (x == j)) [
  | inl e ↦ rw e (ground (arith, elem-without_last i y ys, distinct-without_last y ys))
  | inr e ↦ rw e (ground (arith, swap_out-elem i j (y ∷ ys)))
]

pub swap_out-distinct : (j : ℕ) (xs : List ℕ) → distinct xs ≡ true → distinct (swap_out j xs) ≡ true
unfolding swap_out
swap_out-distinct j [] h = refl
swap_out-distinct j (x ∷ []) h = ground arith
swap_out-distinct j (x ∷ y ∷ ys) h = elim (Bool-cases (x == j)) [
  | inl e ↦ rw e (ground (arith, elem-without_last (last_or y ys) y ys, distinct-without_last y ys))
  | inr e ↦ rw e (ground (arith, swap_out-distinct j (y ∷ ys), swap_out-elem x j (y ∷ ys)))
]

pub reports-In :
    (vs : List Interval) (j : ℕ) (active : List ℕ) (p : ℤ × ℤ)
    → In p (reports vs j active)
      ↔ ((i : ℕ) × (elem i active ≡ true) × (p ≡ ordered (id_at vs i) (id_at vs j)))
reports-In vs j [] p = (λ h. absurd h, λ h. absurd (ground arith))
reports-In vs j (x ∷ xs) p =
    let r = reports-In vs j xs p in
    (
      λ h. elim h [
        | inl s ↦ (x, ground arith, s)
        | inr s ↦ let (i, a, b) = r.0 s in (i, ground arith, b)
      ],
      λ h.
          let (i, a, b) = h in
          elim (Bool-cases (i == x)) [
            | inl s ↦ inl (b ∙ ap (λ k. ordered (id_at vs k) (id_at vs j)) ((==_iff i x).0 s))
            | inr s ↦ inr (r.1 (i, ground arith, b))
          ],
    )
