-- ===== src/Algorithms/Gcd/Halving.antt =====
-- The loops of `binary_gcd`: the halving, the common halving and the subtraction.
use ida_structor.Prelude.{
  ℕ, zero, suc, ◌+◌, ◌-◌, ◌*◌, ◌/◌, ◌%◌, ◌^◌, ◌≤◌, ◌<◌, ◌≡◌, ◌↔◌, ◌⊎◌, inl, inr, refl, sym, subst,
  ◌∙◌, ◌&&◌, ◌==◌, min, max, Bool-cases, ltb, some, arith,
}
use ida_structor.Algorithms.Gcd.{Shifted, common_twos, strip_twos, subtract_rounds}
use ida_structor.Algorithms.Gcd.Divides.{
  Divides, IsGcd, Divides-add, Divides-sub, divisor_of_odd, Divides-double, Divides-half,
}

-- Enough fuel leaves an odd number with the same odd divisors.
pub strip_twos_lem :
    (f v : ℕ)
    → 0 < v
    → v < f
    → (w : ℕ) × (strip_twos f v ≡ some w)
      × (w % 2 ≡ 1)
      × (w ≤ v)
      × ((d : ℕ) → d % 2 ≡ 1 → Divides d v ↔ Divides d w)
unfolding strip_twos
strip_twos_lem zero v h l = absurd (omega arith)
strip_twos_lem (suc f) v h l = elim (Bool-cases (v % 2 == 0)) [
  | inl e ↦
      let z : v % 2 ≡ 0 = ground arith in
      let t : v ≡ 2 * (v / 2) = omega arith in
      let (w, r, o, b, s) = strip_twos_lem f (v / 2) (omega arith) (omega arith) in
      (
        w,
        rw e r,
        o,
        omega arith,
        λ d p. (
          λ m. (s d p).0 (Divides-half d v p z m),
          λ m. subst (Divides d) (sym t) (Divides-double d (v / 2) ((s d p).1 m)),
        ),
      )
  | inr e ↦ (v, rw e, ground arith, omega arith, λ d p. (λ m. m, λ m. m))
]

IsGcd-subtract : (g u w : ℕ) → IsGcd g (min u w) (max u w - min u w) → IsGcd g u w
IsGcd-subtract g u w h d = elim (order u w) [
  | inl e ↦ (
    λ m.
        let t = (h d).0 m in
        (
          subst (Divides d) e.0 t.0,
          subst (Divides d) e.2 (Divides-add d (min u w) (max u w - min u w) t.0 t.1),
        ),
    λ m.
        (h d).1 (
          subst (Divides d) (sym e.0) m.0,
          subst (Divides d) (sym e.1) (Divides-sub d w u m.1 m.0),
        ),
  )
  | inr e ↦ (
    λ m.
        let t = (h d).0 m in
        (
          subst (Divides d) e.2 (Divides-add d (min u w) (max u w - min u w) t.0 t.1),
          subst (Divides d) e.0 t.0,
        ),
    λ m.
        (h d).1 (
          subst (Divides d) (sym e.0) m.1,
          subst (Divides d) (sym e.1) (Divides-sub d u w m.0 m.1),
        ),
  )
]
  where
    order :
        (u w : ℕ)
        → ((min u w ≡ u) × (max u w - min u w ≡ w - u) × (min u w + (max u w - min u w) ≡ w))
          ⊎ ((min u w ≡ w) × (max u w - min u w ≡ u - w) × (min u w + (max u w - min u w) ≡ u))
    order u w = elim (Bool-cases (ltb u w)) [
      | inl e ↦ inl (ground arith)
      | inr e ↦ inr (ground arith)
    ]

pub subtract_rounds_lem :
    (f u v : ℕ)
    → u % 2 ≡ 1
    → 0 < v
    → u + v < f
    → (g : ℕ) × (subtract_rounds f u v ≡ some g) × IsGcd g u v
unfolding subtract_rounds
subtract_rounds_lem zero u v o h l = absurd (omega arith)
subtract_rounds_lem (suc f) u v o h l =
    let (w, r, p, b, s) = strip_twos_lem (suc v) v h (omega arith) in
    elim (Bool-cases (max u w - min u w == 0)) [
      | inl e ↦ (
        min u w,
        rw (r, e, subtract_rounds) refl,
        IsGcd-stripped w s (IsGcd-subtract (min u w) u w (IsGcd-done w (ground arith))),
      )
      | inr e ↦
          let (g, t, i) =
            subtract_rounds_lem f (min u w) (max u w - min u w) (ground arith) (ground arith)
              (ground arith) in
          (g, rw (r, e, subtract_rounds) t, IsGcd-stripped w s (IsGcd-subtract g u w i))
    ]
  where
    IsGcd-stripped :
        {g : ℕ} (w : ℕ)
        → ((d : ℕ) → d % 2 ≡ 1 → Divides d v ↔ Divides d w)
        → IsGcd g u w
        → IsGcd g u v
    IsGcd-stripped w s i d = (
      λ m. let t = (i d).0 m in (t.0, (s d (divisor_of_odd d u o t.0)).1 t.1),
      λ m. (i d).1 (m.0, (s d (divisor_of_odd d u o m.0)).0 m.1),
    )

    IsGcd-done : (w : ℕ) → max u w - min u w ≡ 0 → IsGcd (min u w) (min u w) (max u w - min u w)
    IsGcd-done w e d = (λ m. (m, (0, e ∙ omega arith)), λ m. m.0)

pub common_twos_lem :
    (f u v s : ℕ)
    → 0 < u
    → 0 < v
    → u < f
    → (c : Shifted) × (k : ℕ) × (common_twos f u v s ≡ some c)
      × (0 < c.u)
      × (0 < c.v)
      × ((c.u % 2 ≡ 1) ⊎ (c.v % 2 ≡ 1))
      × (c.shift ≡ s + k)
      × (u ≡ c.u * 2 ^ k)
      × (v ≡ c.v * 2 ^ k)
unfolding common_twos
common_twos_lem zero u v s h g l = absurd (omega arith)
common_twos_lem (suc f) u v s h g l = elim (Bool-cases (u % 2 == 0 && v % 2 == 0)) [
  | inl e ↦
      let (c, k, r, a, b, o, p, x, y) =
        common_twos_lem f (u / 2) (v / 2) (s + 1) (ground arith) (ground arith) (omega arith) in
      (
        c,
        suc k,
        rw e r,
        a,
        b,
        o,
        omega arith,
        twice u c.u k (ground arith) x,
        twice v c.v k (ground arith) y,
      )
  | inr e ↦ (
    record { u = u; v = v; shift = s },
    0,
    rw e,
    h,
    g,
    ground arith,
    omega arith,
    omega arith,
    omega arith,
  )
]
  where
    twice : (n m k : ℕ) → n % 2 ≡ 0 → n / 2 ≡ m * 2 ^ k → n ≡ m * 2 ^ suc k
    twice n m k e h = grind arith
