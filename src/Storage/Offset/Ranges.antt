-- ===== src/Storage/Offset/Ranges.antt =====
-- The tests on byte ranges, against the bytes that the ranges hold.
use ida_structor.Prelude.{
  ℕ, ◌-◌, ◌^◌, ◌<◌, ◌≡◌, ◌∙◌, ◌↔◌, Bool, true, false, ◌&&◌, ◌||◌, some, arith, ◌==◌, if◌then◌else◌,
  Bool-cases, inl, inr, &&_iff,
}
use ida_structor.Prelude.Int.{ℤ, pos, ◌+ℤ◌, +ℤ_parts, ◌≤ℤ◌, ◌<ℤ◌, ltb_ℤ, leb_ℤ}
use ida_structor.Storage.Offset.{
  sval_max, sval_min, checked_interval_end, checked_intervals_overlap, checked_interval_contains,
}
use ida_structor.Storage.Offset.Exact.{IsSval, checked_interval_end_exact}

-- A byte range whose end is an offset too.
pub record IsRange (o : ℤ) (n : ℕ) : Type 0 where
  pub start : IsSval o
  pub size : n < 2 ^ 32
  pub fits : o +ℤ pos n ≤ℤ sval_max

-- The byte at `x` lies in the range.
abbrev pub Covers : ℤ → ℕ → ℤ → Type 0
Covers o n x = (o ≤ℤ x) × (x <ℤ o +ℤ pos n)

checked_interval_end-IsRange :
    (o : ℤ) (n : ℕ) → IsRange o n → checked_interval_end o n ≡ some (o +ℤ pos n)
checked_interval_end-IsRange o n h =
    let e : (leb_ℤ sval_min (o +ℤ pos n) && leb_ℤ (o +ℤ pos n) sval_max) ≡ true =
      bounds (o +ℤ pos n) (omega (arith, +ℤ_parts o (pos n), h.start.0)) h.fits in
    checked_interval_end_exact o n h.start h.size ∙ rw e
  where
    bounds : (z : ℤ) → sval_min ≤ℤ z → z ≤ℤ sval_max → (leb_ℤ sval_min z && leb_ℤ z sval_max) ≡ true
    bounds z a b = ground arith

lt_ℤ_iff : (a b : ℤ) → (ltb_ℤ a b ≡ true) ↔ (a <ℤ b)
lt_ℤ_iff a b = (λ h. ground arith, λ h. ground arith)

le_ℤ_iff : (a b : ℤ) → (leb_ℤ a b ≡ true) ↔ (a ≤ℤ b)
le_ℤ_iff a b = (λ h. ground arith, λ h. ground arith)

overlap_test :
    (m n : ℕ) (p q : Bool)
    → ((if m == 0 || n == 0 then false else (p && q)) ≡ true)
      ↔ ((0 < m) × (0 < n) × (p ≡ true) × (q ≡ true))
overlap_test m n p q = (λ h. ground arith, λ h. ground arith)

-- The first byte of the range that begins later is shared.
shared_byte :
    (l : ℤ) (m : ℕ) (r : ℤ) (n : ℕ)
    → 0 < m
    → 0 < n
    → l <ℤ r +ℤ pos n
    → r <ℤ l +ℤ pos m
    → (x : ℤ) × Covers l m x × Covers r n x
shared_byte l m r n hm hn p q = elim (Bool-cases (leb_ℤ l r)) [
  | inl e ↦
      let le = (le_ℤ_iff l r).0 e in
      (r, (omega arith, omega arith), (omega arith, omega (arith, +ℤ_parts r (pos n))))
  | inr e ↦
      let le : r ≤ℤ l = not_le l r e in
      (l, (omega arith, omega (arith, +ℤ_parts l (pos m))), (omega arith, omega arith))
]
  where
    not_le : (a b : ℤ) → leb_ℤ a b ≡ false → b ≤ℤ a
    not_le a b h = ground arith

-- Of two ranges whose ends are offsets, `checked_intervals_overlap` accepts exactly those that share a
-- byte.
pub checked_intervals_overlap_iff :
    (l : ℤ) (m : ℕ) (r : ℤ) (n : ℕ)
    → IsRange l m
    → IsRange r n
    → (checked_intervals_overlap l m r n ≡ true) ↔ ((x : ℤ) × Covers l m x × Covers r n x)
unfolding checked_intervals_overlap
checked_intervals_overlap_iff l m r n h k =
    rw (checked_interval_end-IsRange l m h, checked_interval_end-IsRange r n k)
      (
        λ e.
            let t = (overlap_test m n (ltb_ℤ l (r +ℤ pos n)) (ltb_ℤ r (l +ℤ pos m))).0 e in
            shared_byte l m r n t.0 t.1 ((lt_ℤ_iff l (r +ℤ pos n)).0 t.2)
              ((lt_ℤ_iff r (l +ℤ pos m)).0 t.3),
        λ (x, c, d). (overlap_test m n (ltb_ℤ l (r +ℤ pos n)) (ltb_ℤ r (l +ℤ pos m))).1 (
          omega (arith, +ℤ_parts l (pos m)),
          omega (arith, +ℤ_parts r (pos n)),
          (lt_ℤ_iff l (r +ℤ pos n)).1 (omega arith),
          (lt_ℤ_iff r (l +ℤ pos m)).1 (omega arith),
        ),
      )

-- Of two ranges whose ends are offsets, the inner one not empty, `checked_interval_contains` accepts
-- exactly those where the outer one holds every byte of the inner one.
pub checked_interval_contains_iff :
    (o : ℤ) (m : ℕ) (i : ℤ) (n : ℕ)
    → IsRange o m
    → IsRange i n
    → 0 < n
    → (checked_interval_contains o m i n ≡ true) ↔ ((x : ℤ) → Covers i n x → Covers o m x)
unfolding checked_interval_contains
checked_interval_contains_iff o m i n h k p =
    rw (checked_interval_end-IsRange o m h, checked_interval_end-IsRange i n k)
      (
        λ e x c.
            let t = (&&_iff (leb_ℤ o i) (leb_ℤ (i +ℤ pos n) (o +ℤ pos m))).0 e in
            let a = (le_ℤ_iff o i).0 t.0 in
            let b = (le_ℤ_iff (i +ℤ pos n) (o +ℤ pos m)).0 t.1 in (omega arith, omega arith),
        λ all.
            let first = all i (omega arith, omega (arith, +ℤ_parts i (pos n))) in
            let last = all (i +ℤ pos (n - 1)) (
              omega (arith, +ℤ_parts i (pos (n - 1))),
              omega (arith, +ℤ_parts i (pos n), +ℤ_parts i (pos (n - 1))),
            ) in
            (&&_iff (leb_ℤ o i) (leb_ℤ (i +ℤ pos n) (o +ℤ pos m))).1 (
              (le_ℤ_iff o i).1 first.0,
              (le_ℤ_iff (i +ℤ pos n) (o +ℤ pos m)).1
                  (omega (arith, last.1, +ℤ_parts i (pos n), +ℤ_parts i (pos (n - 1)))),
            ),
      )
