-- ===== src/Storage/Packing/Largest.antt =====
-- `canonical_packing_cap` selects the largest cap that every requirement is met under.
use native.Mathlib.Nat.{le_refl, le_antisymm}
use ida_structor.Prelude.{
  ℕ, zero, suc, ◌≤◌, ◌≡◌, refl, Bool, true, false, ◌&&◌, ◌||◌, Option, none, some, List, [], ◌∷◌,
  leb, ◌==◌, if◌then◌else◌, arith, ◌≢◌, ◌↔◌, sym, ap, subst, ◌∙◌, &&_iff, Bool-cases, inl, inr,
}
use ida_structor.Storage.Packing.{
  PackingAlignmentRequirement, is_valid_packing_value, all_met, usable_options, insert_down,
  sort_down, unique_after, unique, first_met, canonical_packing_cap,
}

abbrev pub elem : ℕ → List ℕ → Bool
elem q [] = false
elem q (a ∷ l) = q == a || elem q l

-- The list falls, and starts at `n` or below.
abbrev Falls : ℕ → List ℕ → Type 0
Falls n [] = Unit
Falls n (a ∷ l) = (a ≤ n) × Falls a l

-- The list falls from its own first element.
abbrev IsFalling : List ℕ → Type 0
IsFalling [] = Unit
IsFalling (a ∷ l) = Falls a l

elem-insert_down : (q a : ℕ) (l : List ℕ) → elem q (insert_down a l) ≡ elem q (a ∷ l)
unfolding insert_down
elem-insert_down q a [] = refl
elem-insert_down q a (b ∷ l) = ground (arith, elem-insert_down q a l)

elem-sort_down : (q : ℕ) (l : List ℕ) → elem q (sort_down l) ≡ elem q l
unfolding sort_down
elem-sort_down q [] = refl
elem-sort_down q (a ∷ l) = rw (elem-insert_down q a (sort_down l), elem-sort_down q l)

elem-unique_after :
    (q a : ℕ) (l : List ℕ) → (q == a || elem q (unique_after a l)) ≡ (q == a || elem q l)
unfolding unique_after
elem-unique_after q a [] = refl
elem-unique_after q a (b ∷ l) = ground (arith, elem-unique_after q b l)

elem-unique : (q : ℕ) (l : List ℕ) → elem q (unique l) ≡ elem q l
unfolding unique
elem-unique q [] = refl
elem-unique q (a ∷ l) = elem-unique_after q a l

abbrev pub is_usable : ℕ → ℕ → Bool
is_usable cap v = is_valid_packing_value v && leb v cap

elem-usable_options :
    (q cap : ℕ) (l : List ℕ) → elem q (usable_options l cap) ≡ (elem q l && is_usable cap q)
unfolding usable_options
elem-usable_options q cap [] = refl
elem-usable_options q cap (v ∷ l) = elim (Bool-cases (q == v)) [
  | inl e ↦
      let h : v ≡ q = ground arith in
      rw h (elim (Bool-cases (is_usable cap q)) [
        | inl u ↦ rw u (ground arith)
        | inr u ↦ rw (u, elem-usable_options q cap l, u) (ground arith)
      ])
  | inr e ↦ ground (arith, elem-usable_options q cap l)
]

insert_down-Falls : (n a : ℕ) (l : List ℕ) → a ≤ n → Falls n l → Falls n (insert_down a l)
unfolding insert_down
insert_down-Falls n a [] h f = (h, tt)
insert_down-Falls n a (b ∷ l) h f = ground (arith, insert_down-Falls b a l)

insert_down-IsFalling : (a : ℕ) (l : List ℕ) → IsFalling l → IsFalling (insert_down a l)
unfolding insert_down
insert_down-IsFalling a [] f = tt
insert_down-IsFalling a (b ∷ l) f = ground (arith, insert_down-Falls b a l)

sort_down-IsFalling : (l : List ℕ) → IsFalling (sort_down l)
unfolding sort_down
sort_down-IsFalling [] = tt
sort_down-IsFalling (a ∷ l) = insert_down-IsFalling a (sort_down l) (sort_down-IsFalling l)

unique_after-Falls : (a : ℕ) (l : List ℕ) → Falls a l → Falls a (unique_after a l)
unfolding unique_after
unique_after-Falls a [] f = tt
unique_after-Falls a (b ∷ l) f = ground (arith, unique_after-Falls b l f.1)

unique-IsFalling : (l : List ℕ) → IsFalling l → IsFalling (unique l)
unfolding unique
unique-IsFalling [] f = tt
unique-IsFalling (a ∷ l) f = unique_after-Falls a l f

Falls-tail : (n : ℕ) (l : List ℕ) → Falls n l → IsFalling l
Falls-tail n [] f = tt
Falls-tail n (a ∷ l) f = f.1

Falls-elem : (n q : ℕ) (l : List ℕ) → Falls n l → elem q l ≡ true → q ≤ n
Falls-elem n q [] f e = cc
Falls-elem n q (a ∷ l) f e = ground (arith, Falls-elem a q l f.1)

-- What `first_met` takes from a falling list.
abbrev Takes : List PackingAlignmentRequirement → List ℕ → Option ℕ → Type 0
Takes rs l (some p) =
    (elem p l ≡ true)
    × (all_met p rs ≡ true)
    × ((q : ℕ) → elem q l ≡ true → all_met q rs ≡ true → q ≤ p)
Takes rs l none = (q : ℕ) → elem q l ≡ true → all_met q rs ≡ false

Takes-cons :
    (rs : List PackingAlignmentRequirement) (a : ℕ) (l : List ℕ) (r : Option ℕ)
    → all_met a rs ≡ false
    → Takes rs l r
    → Takes rs (a ∷ l) r
Takes-cons rs a l (some p) h t = (
  ground (arith, t.0),
  t.1,
  λ q e f. elim (Bool-cases (q == a)) [
    | inl x ↦ absurd (differs q a x f h)
    | inr x ↦ t.2 q (ground arith) f
  ],
)
  where
    differs : (q a : ℕ) → (q == a) ≡ true → all_met q rs ≡ true → all_met a rs ≡ false → ⊥
    differs q a x f h = let e : q ≡ a = ground arith in cc
Takes-cons rs a l none h t = λ q e. elim (Bool-cases (q == a)) [
  | inl x ↦ let y : q ≡ a = ground arith in rw y h
  | inr x ↦ t q (ground arith)
]

first_met-Takes :
    (rs : List PackingAlignmentRequirement) (l : List ℕ) → IsFalling l → Takes rs l (first_met rs l)
unfolding first_met
first_met-Takes rs [] f = λ q e. cc
first_met-Takes rs (a ∷ l) f = elim (Bool-cases (all_met a rs)) [
  | inl e ↦ rw e (ground arith, e, λ q m h. Falls-elem a q (a ∷ l) (le_refl a, f) m)
  | inr e ↦ rw e (Takes-cons rs a l (first_met rs l) e (first_met-Takes rs l (Falls-tail a l f)))
]

elem-candidates :
    (q cap : ℕ) (options : List ℕ)
    → elem q (unique (sort_down (usable_options options cap))) ≡ (elem q options && is_usable cap q)
elem-candidates q cap options = rw (
  elem-unique q (sort_down (usable_options options cap)),
  elem-sort_down q (usable_options options cap),
  elem-usable_options q cap options,
)

candidates-Takes :
    (rs : List PackingAlignmentRequirement) (options : List ℕ) (cap : ℕ)
    → let l = unique (sort_down (usable_options options cap)) in Takes rs l (first_met rs l)
candidates-Takes rs options cap =
    first_met-Takes rs _ (unique-IsFalling _ (sort_down-IsFalling (usable_options options cap)))

-- A selected cap is one of the options, a power of two no larger than the maximum, and under it every
-- requirement is met.
pub canonical_packing_cap_met :
    (rs : List PackingAlignmentRequirement) (options : List ℕ) (cap p : ℕ)
    → canonical_packing_cap rs options cap ≡ some p
    → (elem p options ≡ true) × (is_usable cap p ≡ true) × (all_met p rs ≡ true)
unfolding canonical_packing_cap
canonical_packing_cap_met rs options zero p h = cc
canonical_packing_cap_met rs options (suc cap) p h =
    let t = subst (Takes rs _) (positive_cap _ h) (candidates-Takes rs options (suc cap)) in
    let m = (&&_iff _ _).0 (sym (elem-candidates p (suc cap) options) ∙ t.0) in (m.0, m.1, t.1)
  where
    positive_cap : (r : Option ℕ) → (if suc cap == 0 then none else r) ≡ some p → r ≡ some p
    positive_cap r e = ground arith

is_usable-pos : (cap q : ℕ) → is_usable cap q ≡ true → cap ≢ 0
unfolding is_valid_packing_value
is_usable-pos zero q h = absurd (ground arith)
is_usable-pos (suc cap) q h = omega arith

largest :
    (rs : List PackingAlignmentRequirement) (l : List ℕ) (r : Option ℕ) (q : ℕ)
    → Takes rs l r
    → elem q l ≡ true
    → all_met q rs ≡ true
    → (p : ℕ) × (r ≡ some p) × (q ≤ p)
largest rs l (some p) q t e h = (p, refl, t.2 q e h)
largest rs l none q t e h = absurd (cc (t q e))

-- Where some usable option meets every requirement, a cap no smaller is selected.
canonical_packing_cap_largest :
    (rs : List PackingAlignmentRequirement) (options : List ℕ) (cap q : ℕ)
    → elem q options ≡ true
    → is_usable cap q ≡ true
    → all_met q rs ≡ true
    → (p : ℕ) × (canonical_packing_cap rs options cap ≡ some p) × (q ≤ p)
unfolding canonical_packing_cap
canonical_packing_cap_largest rs options cap q e u h =
    let z : (cap == 0) ≡ false = ground (arith, is_usable-pos cap q u) in
    rw z (
      largest rs _ (first_met rs (unique (sort_down (usable_options options cap)))) q
        (candidates-Takes rs options cap) (elem-candidates q cap options ∙ (&&_iff _ _).1 (e, u)) h)

-- A cap is selected exactly where it is the largest of those options that are a power of two up to
-- the maximum and under which every requirement is met.
pub canonical_packing_cap_iff :
    (rs : List PackingAlignmentRequirement) (options : List ℕ) (cap p : ℕ)
    → (canonical_packing_cap rs options cap ≡ some p) ↔ (
        (elem p options ≡ true)
        × (is_usable cap p ≡ true)
        × (all_met p rs ≡ true)
        × ((q : ℕ) → elem q options ≡ true → is_usable cap q ≡ true → all_met q rs ≡ true → q ≤ p))
canonical_packing_cap_iff rs options cap p = (
  λ h.
      let (e, u, m) = canonical_packing_cap_met rs options cap p h in
      (
        e,
        u,
        m,
        λ q a b c.
            let (r, f, g) = canonical_packing_cap_largest rs options cap q a b c in
            same r (sym f ∙ h) g,
      ),
  λ (e, u, m, top).
      let (r, f, g) = canonical_packing_cap_largest rs options cap p e u m in
      let (a, b, c) = canonical_packing_cap_met rs options cap r f in
      f ∙ ap some (le_antisymm (top r a b c) g),
)
  where
    same : {q : ℕ} (r : ℕ) → some r ≡ some p → q ≤ r → q ≤ p
    same r h g = ground arith
