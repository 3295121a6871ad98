-- ===== src/Algorithms/Gcd.antt =====
-- `binary_gcd` and `gcd_array`. A loop has fuel, and `none` stands for a loop that has not ended.
pub mod Divides
pub mod Halving
pub mod Binary
use ida_structor.Prelude.{
  ℕ, zero, suc, ◌+◌, ◌-◌, ◌*◌, ◌/◌, ◌%◌, ◌^◌, min, max, Bool, ◌&&◌, ◌==◌, if◌then◌else◌, List, [],
  ◌∷◌, Option, none, some,
}

pub record Shifted : Type 0 where
  pub u : ℕ
  pub v : ℕ
  pub shift : ℕ

-- `(u | v) & 1` is zero where both are even.
unfoldable pub common_twos : ℕ → ℕ → ℕ → ℕ → Option Shifted
common_twos zero u v shift = none
common_twos (suc f) u v shift =
    let rest = common_twos f (u / 2) (v / 2) (shift + 1) in
    if u % 2 == 0 && v % 2 == 0 then rest else some (record { u = u; v = v; shift = shift })

unfoldable pub strip_twos : ℕ → ℕ → Option ℕ
strip_twos zero v = none
strip_twos (suc f) v = let rest = strip_twos f (v / 2) in if v % 2 == 0 then rest else some v

-- The rounds of the `do` loop.
unfoldable pub subtract_rounds : ℕ → ℕ → ℕ → Option ℕ
subtract_rounds zero u v = none
subtract_rounds (suc f) u v = elim (strip_twos (suc v) v) [
  | none ↦ none
  | some w ↦
      let rest = subtract_rounds f (min u w) (max u w - min u w) in
      if max u w - min u w == 0 then some (min u w) else rest
]

abbrev pub shift_back : ℕ → Option ℕ → Option ℕ
shift_back shift none = none
shift_back shift (some g) = some ((g * 2 ^ shift) % 2 ^ 32)

abbrev pub after_strip : Shifted → Option ℕ → Option ℕ
after_strip s none = none
after_strip s (some u) = shift_back s.shift (subtract_rounds (suc (u + s.v)) u s.v)

abbrev pub after_common : Option Shifted → Option ℕ
after_common none = none
after_common (some s) = after_strip s (strip_twos (suc s.u) s.u)

unfoldable pub binary_gcd : ℕ → ℕ → Option ℕ
binary_gcd u v =
    if u == 0 then some v else if v == 0 then some u else after_common (common_twos (suc u) u v 0)

-- The loop over the values behind the first.
unfoldable pub gcd_from : ℕ → List ℕ → Option ℕ
gcd_from result [] = some result
gcd_from result (v ∷ vs) = elim (binary_gcd result v) [
  | none ↦ none
  | some g ↦ let rest = gcd_from g vs in if g == 1 then some 1 else rest
]

unfoldable pub gcd_array : List ℕ → Option ℕ
gcd_array [] = some 0
gcd_array (v ∷ []) = some v
gcd_array (v ∷ w ∷ vs) = gcd_from v (w ∷ vs)
