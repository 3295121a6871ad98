-- ===== src/Algorithms/Overlaps/Order.antt =====
-- The sorted keys: each interval that is not empty has its two, in strict order.
use ida_structor.Prelude.{
  ℕ, zero, suc, ◌+◌, ◌≤◌, ◌≡◌, refl, ap, ◌∙◌, Bool, true, false, not, List, [], ◌∷◌, get_or, arith,
  Bool-cases, inl, inr,
}
use ida_structor.Prelude.Sorting.{Each, insert_by, sort_by}
use ida_structor.Algorithms.Overlaps.{Interval, no_interval, is_empty}
use ida_structor.Algorithms.Overlaps.Keys.{
  Key, is_solid, key_less, key_eq, is_pending, keys_from, key_less_trans, key_less_total,
}

-- Strictly ascending.
abbrev pub Ascends : List Interval → List Key → Type 0
Ascends vs [] = Unit
Ascends vs (k ∷ ks) = Each (λ l. key_less vs k l ≡ true) ks × Ascends vs ks

abbrev Distinct : List Key → Type 0
Distinct [] = Unit
Distinct (k ∷ ks) = (is_pending k ks ≡ false) × Distinct ks

is_pending-later :
    (b : Bool) (j n : ℕ) (ws : List Interval) → is_pending (b, j) (keys_from n ws) ≡ true → n ≤ j
is_pending-later b j n [] h = absurd (ground arith)
is_pending-later b j n (w ∷ ws) h = elim (Bool-cases (is_pending (b, j) (keys_from (suc n) ws))) [
  | inl e ↦ let r = is_pending-later b j (suc n) ws e in omega arith
  | inr e ↦ ground arith
]

not_earlier :
    (b : Bool) (j n : ℕ) (ws : List Interval)
    → suc j ≤ n
    → is_pending (b, j) (keys_from n ws) ≡ false
not_earlier b j n ws h = elim (Bool-cases (is_pending (b, j) (keys_from n ws))) [
  | inl e ↦ let r = is_pending-later b j n ws e in absurd (omega arith)
  | inr e ↦ e
]

keys_from-Distinct : (n : ℕ) (ws : List Interval) → Distinct (keys_from n ws)
keys_from-Distinct n [] = tt
keys_from-Distinct n (w ∷ ws) =
    let r = keys_from-Distinct (suc n) ws in
    let s = not_earlier true n (suc n) ws (omega arith) in
    let t = not_earlier false n (suc n) ws (omega arith) in
    elim (Bool-cases (is_empty w)) [ inl e ↦ rw e r | inr e ↦ rw e (s, (t, r)) ]

keys_from-is_pending :
    (b : Bool) (i n : ℕ) (ws : List Interval)
    → is_pending (b, n + i) (keys_from n ws) ≡ not (is_empty (get_or ws i no_interval))
keys_from-is_pending b i n [] = refl
keys_from-is_pending b zero n (w ∷ ws) =
    let later = not_earlier b (n + 0) (suc n) ws (omega arith) in
    elim (Bool-cases (is_empty w)) [ inl e ↦ rw (e, later) | inr e ↦ rw e (both b) ]
  where
    both : (b : Bool) → is_pending (b, n + 0) ((true, n) ∷ (false, n) ∷ keys_from (suc n) ws) ≡ true
    both true = ground arith
    both false = ground arith
keys_from-is_pending b (suc i) n (w ∷ ws) =
    let r =
      ap (λ m. is_pending (b, m) (keys_from (suc n) ws)) (shift n i)
      ∙ keys_from-is_pending b i (suc n) ws in
    elim (Bool-cases (is_empty w)) [ inl e ↦ rw (e, r) | inr e ↦ rw e (other b r) ]
  where
    shift : (n i : ℕ) → n + suc i ≡ suc n + i
    shift n i = omega arith

    other :
        (b : Bool)
        → is_pending (b, n + suc i) (keys_from (suc n) ws)
          ≡ not (is_empty (get_or ws i no_interval))
        → is_pending (b, n + suc i) ((true, n) ∷ (false, n) ∷ keys_from (suc n) ws)
          ≡ not (is_empty (get_or ws i no_interval))
    other true r = ground arith
    other false r = ground arith

module _ (vs : List Interval) where
  is_pending-insert :
      (k l : Key) (ls : List Key)
      → is_pending k (insert_by (key_less vs) l ls) ≡ is_pending k (l ∷ ls)
  unfolding insert_by
  is_pending-insert k l [] = refl
  is_pending-insert k l (m ∷ ms) = elim (Bool-cases (key_less vs m l)) [
    | inl e ↦ rw (e, is_pending-insert k l ms) (ground arith)
    | inr e ↦ rw e refl
  ]

  is_pending-sort :
      (k : Key) (ls : List Key) → is_pending k (sort_by (key_less vs) ls) ≡ is_pending k ls
  unfolding sort_by
  is_pending-sort k [] = refl
  is_pending-sort k (l ∷ ls) =
      is_pending-insert k l (sort_by (key_less vs) ls) ∙ rw (is_pending-sort k ls)

  insert-Each :
      (P : Key → Type 0) (l : Key) (ls : List Key)
      → P l
      → Each P ls
      → Each P (insert_by (key_less vs) l ls)
  unfolding insert_by
  insert-Each P l [] h g = (h, tt)
  insert-Each P l (m ∷ ms) h g = elim (Bool-cases (key_less vs m l)) [
    | inl e ↦ rw e (g.0, insert-Each P l ms h g.1)
    | inr e ↦ rw e (h, g)
  ]

  below_all :
      (k l : Key) (ls : List Key)
      → key_less vs k l ≡ true
      → Each (λ m. key_less vs l m ≡ true) ls
      → Each (λ m. key_less vs k m ≡ true) ls
  below_all k l [] h g = tt
  below_all k l (m ∷ ms) h g = (key_less_trans vs k l m h g.0, below_all k l ms h g.1)

  insert-Ascends :
      (l : Key) (ls : List Key)
      → is_pending l ls ≡ false
      → Ascends vs ls
      → Ascends vs (insert_by (key_less vs) l ls)
  unfolding insert_by
  insert-Ascends l [] p h = (tt, tt)
  insert-Ascends l (m ∷ ms) p h = elim (Bool-cases (key_less vs m l)) [
    | inl e ↦ rw e (
      insert-Each (λ x. key_less vs m x ≡ true) l ms e h.0,
      insert-Ascends l ms (ground arith) h.1,
    )
    | inr e ↦
        let d : key_eq m l ≡ false = apart in
        let b = key_less_total vs m l e d in rw e ((b, below_all l m ms b h.0), h)
  ]
    where
      apart : key_eq m l ≡ false
      apart = ground arith

  sort-Ascends : (ls : List Key) → Distinct ls → Ascends vs (sort_by (key_less vs) ls)
  unfolding sort_by
  sort-Ascends [] d = tt
  sort-Ascends (l ∷ ls) d =
      insert-Ascends l (sort_by (key_less vs) ls) (is_pending-sort l ls ∙ d.0) (sort-Ascends ls d.1)

abbrev pub sorted_keys : List Interval → List Key
sorted_keys vs = sort_by (key_less vs) (keys_from 0 vs)

pub sorted_keys-Ascends : (vs : List Interval) → Ascends vs (sorted_keys vs)
sorted_keys-Ascends vs = sort-Ascends vs (keys_from 0 vs) (keys_from-Distinct 0 vs)

pub sorted_keys-is_pending :
    (vs : List Interval) (b : Bool) (i : ℕ) → is_pending (b, i) (sorted_keys vs) ≡ is_solid vs i
sorted_keys-is_pending vs b i =
    is_pending-sort vs (b, i) (keys_from 0 vs)
    ∙ ap (λ m. is_pending (b, m) (keys_from 0 vs)) (omega arith)
    ∙ keys_from-is_pending b i 0 vs
