-- ===== src/Prelude/Bits.antt =====
-- `|` on numbers: with disjoint bits it is a sum.
use Prim.Native.Nat.{bit_or, digits, bit_or-bitwise}
use ida_structor.Prelude.{ℕ, zero, suc, ◌+◌, ◌*◌, ◌/◌, ◌%◌, ◌≤◌, ◌<◌, max, ◌≡◌, refl, arith, ◌∙◌}

abbrev or_digits : ℕ → ℕ → ℕ → ℕ
or_digits n a b = digits (λ b. b) max n a b

or_digits_fuel : (n m a b : ℕ) → a ≤ n → a ≤ m → or_digits n a b ≡ or_digits m a b
or_digits_fuel zero zero a b p q = refl
or_digits_fuel zero (suc m) zero b p q = refl
or_digits_fuel zero (suc m) (suc a) b p q = absurd (omega arith)
or_digits_fuel (suc n) zero zero b p q = refl
or_digits_fuel (suc n) zero (suc a) b p q = absurd (omega arith)
or_digits_fuel (suc n) (suc m) zero b p q = refl
or_digits_fuel (suc n) (suc m) (suc a) b p q =
    omega (arith, or_digits_fuel n m (suc a / 2) (b / 2) (omega arith) (omega arith))

pub zero-bit_or : (b : ℕ) → bit_or 0 b ≡ b
zero-bit_or b = bit_or-bitwise 0 b

-- The law for the lowest digit.
bit_or_step : (a b : ℕ) → bit_or a b ≡ bit_or (a / 2) (b / 2) * 2 + max (a % 2) (b % 2)
bit_or_step zero b = omega (arith, zero-bit_or b, zero-bit_or (b / 2))
bit_or_step (suc a) b = omega (
  arith,
  bit_or-bitwise (suc a) b,
  bit_or-bitwise (suc a / 2) (b / 2),
  or_digits_fuel a (suc a / 2) (suc a / 2) (b / 2) (omega arith) (omega arith),
)

bit_or-zero_fuel : (n a : ℕ) → a ≤ n → bit_or a 0 ≡ a
bit_or-zero_fuel n zero h = refl
bit_or-zero_fuel zero (suc a) h = absurd (omega arith)
bit_or-zero_fuel (suc n) (suc a) h =
    omega (arith, bit_or_step (suc a) 0, bit_or-zero_fuel n (suc a / 2) (omega arith))

pub bit_or-zero : (a : ℕ) → bit_or a 0 ≡ a
bit_or-zero a = bit_or-zero_fuel a a (omega arith)

-- 2 ^ k, as a doubling.
abbrev pub pow2 : ℕ → ℕ
pow2 zero = 1
pow2 (suc k) = 2 * pow2 k

half_double : (x m : ℕ) → (x * (2 * m)) / 2 ≡ x * m
half_double x m = omega arith

even_double : (x m : ℕ) → (x * (2 * m)) % 2 ≡ 0
even_double x m = omega arith

-- A number below 2 ^ k fills the low bits of a multiple of it.
pub bit_or-low : (k x y : ℕ) → y < pow2 k → bit_or (x * pow2 k) y ≡ x * pow2 k + y
bit_or-low zero x y h = let z : y ≡ 0 = omega arith in rw (z, bit_or-zero (x * 1)) (omega arith)
bit_or-low (suc k) x y h =
    let e : bit_or (x * (2 * pow2 k)) y ≡ bit_or (x * pow2 k) (y / 2) * 2 + y % 2 =
      bit_or_step (x * (2 * pow2 k)) y
      ∙ rw (half_double x (pow2 k), even_double x (pow2 k)) (omega arith) in
    omega (arith, e, bit_or-low k x (y / 2) (omega arith))

pub bit_or-shift : (k x y : ℕ) → bit_or (x * pow2 k) (y * pow2 k) ≡ bit_or x y * pow2 k
bit_or-shift zero x y =
    let e : x * 1 ≡ x = omega arith in let f : y * 1 ≡ y = omega arith in rw (e, f) (omega arith)
bit_or-shift (suc k) x y =
    let e : bit_or (x * (2 * pow2 k)) (y * (2 * pow2 k)) ≡ bit_or (x * pow2 k) (y * pow2 k) * 2 =
      bit_or_step (x * (2 * pow2 k)) (y * (2 * pow2 k))
      ∙ rw
          (
            half_double x (pow2 k),
            half_double y (pow2 k),
            even_double x (pow2 k),
            even_double y (pow2 k),
          )
          (omega arith) in
    omega (arith, e, bit_or-shift k x y)

-- Numbers of k bits give a number of k bits.
pub bit_or-lt : (k x y : ℕ) → x < pow2 k → y < pow2 k → bit_or x y < pow2 k
bit_or-lt zero x y h l =
    let e : x ≡ 0 = omega arith in let f : y ≡ 0 = omega arith in rw (e, f) (omega arith)
bit_or-lt (suc k) x y h l =
    omega (arith, bit_or_step x y, bit_or-lt k (x / 2) (y / 2) (omega arith) (omega arith))

pub bit_or-even : (x : ℕ) → bit_or 1 (x * 2) ≡ x * 2 + 1
bit_or-even x = omega (arith, bit_or_step 1 (x * 2), zero-bit_or (x * 2 / 2))
