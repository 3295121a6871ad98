-- ===== src/Algorithms/Gcd/Binary.antt =====
-- The binary algorithm ends, and finds the number whose divisors are the common ones.
use ida_structor.Prelude.{
  ℕ, zero, suc, ◌+◌, ◌*◌, ◌%◌, ◌^◌, ◌≤◌, ◌<◌, ◌≡◌, ◌↔◌, ◌⊎◌, inl, inr, refl, sym, ap, subst, ◌∙◌,
  ◌==◌, Bool-cases, ==_iff, List, [], ◌∷◌, some, arith,
}
use ida_structor.Prelude.Sorting.{Each}
use ida_structor.Algorithms.Gcd.{Shifted, binary_gcd, after_common, gcd_from, gcd_array}
use ida_structor.Algorithms.Gcd.Divides.{Divides, IsGcd, divisor_of_odd, Divides-le, IsGcd-shift}
use ida_structor.Algorithms.Gcd.Halving.{strip_twos_lem, subtract_rounds_lem, common_twos_lem}

-- The loops behind the common halving, on numbers that are not both even.
reduced_lem :
    (c : Shifted)
    → 0 < c.u
    → 0 < c.v
    → (c.u % 2 ≡ 1) ⊎ (c.v % 2 ≡ 1)
    → (g : ℕ) × (after_common (some c) ≡ some ((g * 2 ^ c.shift) % 2 ^ 32)) × IsGcd g c.u c.v
reduced_lem c a b o =
    let (w, s, odd, t, same) = strip_twos_lem (suc c.u) c.u a (omega arith) in
    let (g, q, i) = subtract_rounds_lem (suc (w + c.v)) w c.v odd b (omega arith) in
    (g, rw (s, q) refl, unstripped w g same odd i)
  where
    unstripped :
        (w g : ℕ)
        → ((d : ℕ) → d % 2 ≡ 1 → Divides d c.u ↔ Divides d w)
        → w % 2 ≡ 1
        → IsGcd g w c.v
        → IsGcd g c.u c.v
    unstripped w g same odd i d = (
      λ m. let t = (i d).0 m in ((same d (divisor_of_odd d w odd t.0)).1 t.0, t.1),
      λ m. (i d).1 (
        (same d (elim o [
          | inl x ↦ divisor_of_odd d c.u x m.0
          | inr x ↦ divisor_of_odd d c.v x m.1
        ])).0
            m.0,
        m.1,
      ),
    )

-- Shifted back, the result is a word again.
shifted_lem :
    (u v a b g k shift : ℕ)
    → 0 < u
    → u < 2 ^ 32
    → u ≡ a * 2 ^ k
    → v ≡ b * 2 ^ k
    → shift ≡ 0 + k
    → IsGcd g a b
    → ((g * 2 ^ shift) % 2 ^ 32 < 2 ^ 32) × IsGcd ((g * 2 ^ shift) % 2 ^ 32) u v
shifted_lem u v a b g k shift h hu x y p i = (omega arith, subst (λ m. IsGcd m u v) (sym same) j)
  where
    j : IsGcd (g * 2 ^ k) u v
    j =
        subst (λ m. IsGcd (g * 2 ^ k) m v) (sym x)
          (subst (λ m. IsGcd (g * 2 ^ k) (a * 2 ^ k) m) (sym y) (IsGcd-shift g a b k i))

    below : g * 2 ^ k ≤ u
    below = Divides-le (g * 2 ^ k) u h ((j (g * 2 ^ k)).0 (1, omega arith)).0

    exponent : shift ≡ k
    exponent = omega arith

    same : (g * 2 ^ shift) % 2 ^ 32 ≡ g * 2 ^ k
    same = ap (λ m. (g * 2 ^ m) % 2 ^ 32) exponent ∙ omega (arith, below)

-- Whatever the words, the algorithm ends, with a word whose divisors are the common ones.
pub binary_gcd_lem :
    (u v : ℕ)
    → u < 2 ^ 32
    → v < 2 ^ 32
    → (g : ℕ) × (binary_gcd u v ≡ some g) × (g < 2 ^ 32) × IsGcd g u v
unfolding binary_gcd
binary_gcd_lem u v hu hv = elim (Bool-cases (u == 0)) [
  | inl e ↦ (v, rw e, hv, only v u (ground arith))
  | inr e ↦ elim (Bool-cases (v == 0)) [
    | inl f ↦ (
      u,
      rw (e, f),
      hu,
      λ d.
          let i = only u v (ground arith) d in
          (λ m. let t = i.0 m in (t.1, t.0), λ m. i.1 (m.1, m.0)),
    )
    | inr f ↦
        let hz : 0 < u = ground arith in
        let (c, k, r, a, b, o, p, x, y) =
          common_twos_lem (suc u) u v 0 hz (ground arith) (omega arith) in
        let (g, q, i) = reduced_lem c a b o in
        let t = shifted_lem u v c.u c.v g k c.shift hz hu x y p i in
        ((g * 2 ^ c.shift) % 2 ^ 32, rw (e, f, r) q, t.0, t.1)
  ]
]
  where
    only : (n z : ℕ) → z ≡ 0 → IsGcd n z n
    only n z e d = (λ m. ((0, e ∙ omega arith), m), λ m. m.1)

abbrev pub IsWord : ℕ → Type 0
IsWord v = v < 2 ^ 32

Each-one : (vs : List ℕ) → Each (Divides 1) vs
Each-one [] = tt
Each-one (v ∷ vs) = ((v, omega arith), Each-one vs)

unit : (d : ℕ) → d ≤ 1 → Divides d 1 → d ≡ 1
unit zero h (k, e) = absurd (omega arith)
unit (suc zero) h m = refl
unit (suc (suc d)) h m = absurd (omega arith)

gcd_from_lem :
    (r : ℕ) (vs : List ℕ)
    → r < 2 ^ 32
    → Each IsWord vs
    → (g : ℕ) × (gcd_from r vs ≡ some g)
      × ((d : ℕ) → Divides d g ↔ (Divides d r × Each (Divides d) vs))
unfolding gcd_from
gcd_from_lem r [] h ws = (r, refl, λ d. (λ m. (m, tt), λ m. m.0))
gcd_from_lem r (v ∷ vs) h ws =
    let (g, e, b, i) = binary_gcd_lem r v h ws.0 in
    elim (Bool-cases (g == 1)) [
      | inl f ↦ (
        1,
        rw (e, f, gcd_from) refl,
        λ d. (
          λ m. all_ones d m g (ground arith) i,
          λ m. subst (Divides d) ((==_iff g 1).0 f) ((i d).1 (m.0, m.1.0)),
        ),
      )
      | inr f ↦
          let (g', e', i') = gcd_from_lem g vs b ws.1 in
          (
            g',
            rw (e, f, gcd_from) e',
            λ d. (
              λ m. let t = (i' d).0 m in let s = (i d).0 t.0 in (s.0, (s.1, t.1)),
              λ m. (i' d).1 ((i d).1 (m.0, m.1.0), m.1.1),
            ),
          )
    ]
  where
    all_ones :
        (d : ℕ)
        → Divides d 1
        → (g : ℕ) → g ≡ 1
        → IsGcd g r v
        → Divides d r × Each (Divides d) (v ∷ vs)
    all_ones d m g e i =
        let one : d ≡ 1 = unit d (Divides-le d 1 (omega arith) m) m in
        subst (λ x. Divides x r × Each (Divides x) (v ∷ vs)) (sym one)
          ((r, omega arith), ((v, omega arith), Each-one vs))

-- For words, the array's algorithm ends with a number whose divisors are those that all the
-- values have; for no values that is 0.
pub gcd_array_lem :
    (vs : List ℕ)
    → Each IsWord vs
    → (g : ℕ) × (gcd_array vs ≡ some g) × ((d : ℕ) → Divides d g ↔ Each (Divides d) vs)
unfolding gcd_array
gcd_array_lem [] ws = (0, refl, λ d. (λ m. tt, λ m. (0, omega arith)))
gcd_array_lem (v ∷ []) ws = (v, refl, λ d. (λ m. (m, tt), λ m. m.0))
gcd_array_lem (v ∷ w ∷ vs) ws = gcd_from_lem v (w ∷ vs) ws.0 ws.1
