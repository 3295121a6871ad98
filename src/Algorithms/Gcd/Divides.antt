-- ===== src/Algorithms/Gcd/Divides.antt =====
-- Divisors and parity.
use ida_structor.Prelude.{
  ℕ, zero, suc, ◌+◌, ◌-◌, ◌*◌, ◌/◌, ◌%◌, ◌^◌, ◌≤◌, ◌<◌, ◌≡◌, ◌↔◌, ◌⊎◌, inl, inr, sym, ap, ap₂, ◌∙◌,
  arith,
}

abbrev pub Divides : ℕ → ℕ → Type 0
Divides d n = (k : ℕ) × (n ≡ k * d)

-- `g` has exactly the common divisors of `u` and `v`.
abbrev pub IsGcd : ℕ → ℕ → ℕ → Type 0
IsGcd g u v = (d : ℕ) → Divides d g ↔ (Divides d u × Divides d v)

pub Divides-add : (d m n : ℕ) → Divides d m → Divides d n → Divides d (m + n)
Divides-add d m n (a, e) (b, f) = (a + b, grind arith)

sub_times : (a b d : ℕ) → (a - b) * d ≡ a * d - b * d
sub_times a zero d = grind arith
sub_times zero (suc b) d = grind arith
sub_times (suc a) (suc b) d = let r = sub_times a b d in grind arith

pub Divides-sub : (d m n : ℕ) → Divides d m → Divides d n → Divides d (m - n)
Divides-sub d m n (a, e) (b, f) = (a - b, ap₂ (λ (x y : ℕ). x - y) e f ∙ sym (sub_times a b d))

pub parity_odd : (k d : ℕ) → d % 2 ≡ 1 → (k * d) % 2 ≡ k % 2
parity_odd zero d h = omega arith
parity_odd (suc k) d h = let r = parity_odd k d h in grind arith

pub parity_even : (k d : ℕ) → d % 2 ≡ 0 → (k * d) % 2 ≡ 0
parity_even zero d h = omega arith
parity_even (suc k) d h = let r = parity_even k d h in grind arith

pub divisor_of_odd : (d n : ℕ) → n % 2 ≡ 1 → Divides d n → d % 2 ≡ 1
divisor_of_odd d n h (k, e) = ground (arith, parity_even k d)

pub Divides-double : (d n : ℕ) → Divides d n → Divides d (2 * n)
Divides-double d n (k, e) = (2 * k, grind arith)

pub Divides-half : (d n : ℕ) → d % 2 ≡ 1 → n % 2 ≡ 0 → Divides d n → Divides d (n / 2)
Divides-half d n o h (k, e) =
    let p = parity_odd k d o in
    let t : k ≡ 2 * (k / 2) = omega arith in
    let m : k * d ≡ 2 * (k / 2) * d = ap (λ (x : ℕ). x * d) t in (k / 2, grind arith)

pub Divides-le : (d n : ℕ) → 0 < n → Divides d n → d ≤ n
Divides-le d n h (zero, e) = absurd (omega arith)
Divides-le d n h (suc k, e) = grind arith

IsGcd-double : (g u v : ℕ) → IsGcd g u v → IsGcd (2 * g) (2 * u) (2 * v)
IsGcd-double g u v h d = elim (parity d) [
  | inl e ↦ (
    λ s. let t = (h (d / 2)).0 (halve g e s) in (twice u e t.0, twice v e t.1),
    λ s. twice g e ((h (d / 2)).1 (halve u e s.0, halve v e s.1)),
  )
  | inr o ↦ (
    λ s. let t = (h d).0 (back g o s) in (Divides-double d u t.0, Divides-double d v t.1),
    λ s. Divides-double d g ((h d).1 (back u o s.0, back v o s.1)),
  )
]
  where
    parity : (d : ℕ) → (d % 2 ≡ 0) ⊎ (d % 2 ≡ 1)
    parity d = ground arith

    halve : (n : ℕ) → d % 2 ≡ 0 → Divides d (2 * n) → Divides (d / 2) n
    halve n e (k, q) =
        let t : d ≡ 2 * (d / 2) = omega arith in
        let m : k * d ≡ k * (2 * (d / 2)) = ap (λ (x : ℕ). k * x) t in (k, grind arith)

    twice : (n : ℕ) → d % 2 ≡ 0 → Divides (d / 2) n → Divides d (2 * n)
    twice n e (k, q) =
        let t : d ≡ 2 * (d / 2) = omega arith in
        let m : k * d ≡ k * (2 * (d / 2)) = ap (λ (x : ℕ). k * x) t in (k, grind arith)

    back : (n : ℕ) → d % 2 ≡ 1 → Divides d (2 * n) → Divides d n
    back n o q = let (k, e) = Divides-half d (2 * n) o (omega arith) q in (k, omega arith)

-- A power of two can be taken out.
pub IsGcd-shift : (g u v k : ℕ) → IsGcd g u v → IsGcd (g * 2 ^ k) (u * 2 ^ k) (v * 2 ^ k)
IsGcd-shift g u v zero h = rw (none g, none u, none v) h
  where
    none : (n : ℕ) → n * 2 ^ 0 ≡ n
    none n = omega arith
IsGcd-shift g u v (suc k) h =
    rw (once g, once u, once v)
      (IsGcd-double (g * 2 ^ k) (u * 2 ^ k) (v * 2 ^ k) (IsGcd-shift g u v k h))
  where
    once : (n : ℕ) → n * 2 ^ suc k ≡ 2 * (n * 2 ^ k)
    once n = grind arith
