-- ===== src/Host/Journal/Rollback.antt =====
-- Which entries `rollback_order` names, and in which order.
use ida_structor.Prelude.{
  ℕ, zero, suc, ◌≡◌, refl, Bool, true, false, ◌&&◌, ◌==◌, ==_iff, ltb, arith, List, [], ◌∷◌, length,
  ap, ◌∙◌, Bool-cases, inl, inr, if◌then◌else◌,
}
use ida_structor.Host.Journal.{Entry, Journal, mutated_at, rollback_below, rollback_order, size}

abbrev pub elem : ℕ → List ℕ → Bool
elem i [] = false
elem i (x ∷ xs) = elim (i == x) [ true ↦ true | false ↦ elem i xs ]

-- The indices strictly descend from below `n`.
abbrev pub descends : ℕ → List ℕ → Bool
descends n [] = true
descends n (x ∷ xs) = ltb x n && descends x xs

descends_more : (n : ℕ) (xs : List ℕ) → descends n xs ≡ true → descends (suc n) xs ≡ true
descends_more n [] h = refl
descends_more n (x ∷ xs) h = ground arith

below-descends : (es : List Entry) (n : ℕ) → descends n (rollback_below es n) ≡ true
unfolding rollback_below
below-descends es zero = refl
below-descends es (suc n) =
    let h = below-descends es n in let k = descends_more n (rollback_below es n) h in ground arith

elem_step :
    (i n : ℕ) (m k : Bool) (rest : List ℕ)
    → (i ≡ n → k ≡ m)
    → elem i rest ≡ (ltb i n && k)
    → elem i (if m then n ∷ rest else rest) ≡ (ltb i (suc n) && k)
elem_step i n true k rest f h = elim (Bool-cases (i == n)) [
  | inl e ↦ let t = f (((==_iff i n).0) e) in ground arith
  | inr e ↦ ground arith
]
elem_step i n false k rest f h = elim (Bool-cases (i == n)) [
  | inl e ↦ let t = f (((==_iff i n).0) e) in ground arith
  | inr e ↦ ground arith
]

below-elem :
    (es : List Entry) (n i : ℕ) → elem i (rollback_below es n) ≡ (ltb i n && mutated_at es i)
unfolding rollback_below
below-elem es zero i = ground arith
below-elem es (suc n) i =
    elem_step i n (mutated_at es n) (mutated_at es i) (rollback_below es n)
      (λ e. ap (mutated_at es) e) (below-elem es n i)

mutated_at_none : (es : List Entry) (i : ℕ) → ltb i (length es) ≡ false → mutated_at es i ≡ false
mutated_at_none [] i h = refl
mutated_at_none (e ∷ es) zero h = ground arith
mutated_at_none (e ∷ es) (suc i) h = mutated_at_none es i (ground arith)

-- The rollback visits an entry exactly where it was mutated, each once, from the last index down.
pub rollback_order_lem :
    (j : Journal) (i : ℕ)
    → (descends (size j) (rollback_order j) ≡ true)
      × (elem i (rollback_order j) ≡ mutated_at j.entries i)
unfolding rollback_order
rollback_order_lem j i = (
  below-descends j.entries (length j.entries),
  below-elem j.entries (length j.entries) i ∙ elim (Bool-cases (ltb i (length j.entries))) [
    | inl e ↦ rw e refl
    | inr e ↦ rw (e, mutated_at_none j.entries i e) refl
  ],
)
