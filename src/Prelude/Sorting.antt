-- ===== src/Prelude/Sorting.antt =====
-- `std::sort` as an insertion sort, `std::unique`, and which elements a list has.
use mathlib.Core.Path.{◌≡◌, refl, ap, ◌∙◌, sym}
use mathlib.Core.Logic.{◌↔◌, ◌⊎◌, inl, inr}
use mathlib.Core.Bool.{Bool, true}
use mathlib.Core.List.{List, [], ◌∷◌, ◌++◌, map}
use ida_structor.Prelude.Tests.{if◌then◌else◌, Bool-cases}

abbrev pub In : {A : Type 0} → A → List A → Type 0
In a [] = ⊥
In a (x ∷ xs) = (a ≡ x) ⊎ In a xs

-- Every element of the list has the property.
abbrev pub Each : {A : Type 0} → (A → Type 0) → List A → Type 0
Each P [] = Unit
Each P (x ∷ xs) = P x × Each P xs

module _ {A : Type 0} (less : A → A → Bool) where
  unfoldable pub insert_by : A → List A → List A
  insert_by a [] = a ∷ []
  insert_by a (b ∷ bs) = let rest = insert_by a bs in if less b a then b ∷ rest else a ∷ b ∷ bs

  unfoldable pub sort_by : List A → List A
  unfolding insert_by
  sort_by [] = []
  sort_by (a ∷ l) = insert_by a (sort_by l)

  In-insert_by : (p a : A) (l : List A) → In p (insert_by a l) ↔ In p (a ∷ l)
  unfolding insert_by
  In-insert_by p a [] = (λ h. h, λ h. h)
  In-insert_by p a (b ∷ bs) = elim (Bool-cases (less b a)) [
    | inl e ↦
        let r = In-insert_by p a bs in
        rw e (
          λ h. elim h [
            | inl s ↦ inr (inl s)
            | inr s ↦ elim (r.0 s) [ inl t ↦ inl t | inr t ↦ inr (inr t) ]
          ],
          λ h. elim h [
            | inl s ↦ inr (r.1 (inl s))
            | inr (inl s) ↦ inl s
            | inr (inr s) ↦ inr (r.1 (inr s))
          ],
        )
    | inr e ↦ rw e (λ h. h, λ h. h)
  ]

  pub In-sort_by : (p : A) (l : List A) → In p (sort_by l) ↔ In p l
  unfolding sort_by
  In-sort_by p [] = (λ h. h, λ h. h)
  In-sort_by p (a ∷ l) =
      let r = In-insert_by p a (sort_by l) in
      let s = In-sort_by p l in
      (
        λ h. elim (r.0 h) [ inl t ↦ inl t | inr t ↦ inr (s.0 t) ],
        λ h. r.1 (elim h [ inl t ↦ inl t | inr t ↦ inr (s.1 t) ]),
      )

-- What follows an equal element is dropped.
module _ {A : Type 0} (same : A → A → Bool) where
  unfoldable pub unique_behind : A → List A → List A
  unique_behind a [] = []
  unique_behind a (b ∷ bs) = let rest = unique_behind b bs in if same a b then rest else b ∷ rest

  unfoldable pub unique_by : List A → List A
  unfolding unique_behind
  unique_by [] = []
  unique_by (a ∷ l) = a ∷ unique_behind a l

module _ {A : Type 0} (same : A → A → Bool) (exact : (a b : A) → (same a b ≡ true) ↔ (a ≡ b)) where
  In-unique_behind : (p a : A) (l : List A) → In p (a ∷ unique_behind same a l) ↔ In p (a ∷ l)
  unfolding unique_behind
  In-unique_behind p a [] = (λ h. h, λ h. h)
  In-unique_behind p a (b ∷ bs) =
      let r = In-unique_behind p b bs in
      elim (Bool-cases (same a b)) [
        | inl e ↦
            let s = (exact a b).0 e in
            rw e (
              λ h. elim h [ inl t ↦ inl t | inr t ↦ inr (r.0 (inr t)) ],
              λ h. elim h [
                | inl t ↦ inl t
                | inr t ↦ elim (r.1 t) [ inl u ↦ inl (u ∙ sym s) | inr u ↦ inr u ]
              ],
            )
        | inr e ↦ rw e (
          λ h. elim h [ inl t ↦ inl t | inr t ↦ inr (r.0 t) ],
          λ h. elim h [ inl t ↦ inl t | inr t ↦ inr (r.1 t) ],
        )
      ]

  pub In-unique_by : (p : A) (l : List A) → In p (unique_by same l) ↔ In p l
  unfolding unique_by
  In-unique_by p [] = (λ h. h, λ h. h)
  In-unique_by p (a ∷ l) = In-unique_behind p a l

pub In-append : {A : Type 0} (p : A) (xs ys : List A) → In p (xs ++ ys) ↔ (In p xs ⊎ In p ys)
In-append p [] ys = (λ h. inr h, λ h. elim h [ inl s ↦ absurd s | inr s ↦ s ])
In-append p (x ∷ xs) ys =
    let r = In-append p xs ys in
    (
      λ h. elim h [
        | inl s ↦ inl (inl s)
        | inr s ↦ elim (r.0 s) [ inl t ↦ inl (inr t) | inr t ↦ inr t ]
      ],
      λ h. elim h [
        | inl (inl s) ↦ inl s
        | inl (inr s) ↦ inr (r.1 (inl s))
        | inr s ↦ inr (r.1 (inr s))
      ],
    )

-- Sorting by a test on images.
module _ {A B : Type 0} (f : A → B) (less : A → A → Bool) (less' : B → B → Bool)
    (agree : (a b : A) → less' (f a) (f b) ≡ less a b) where
  insert_by-map :
      (a : A) (l : List A) → insert_by less' (f a) (map f l) ≡ map f (insert_by less a l)
  unfolding insert_by
  insert_by-map a [] = refl
  insert_by-map a (b ∷ bs) = elim (Bool-cases (less b a)) [
    | inl e ↦ rw (agree b a, e, insert_by-map a bs)
    | inr e ↦ rw (agree b a, e)
  ]

  pub sort_by-map : (l : List A) → sort_by less' (map f l) ≡ map f (sort_by less l)
  unfolding sort_by
  sort_by-map [] = refl
  sort_by-map (a ∷ l) =
      ap (insert_by less' (f a)) (sort_by-map l) ∙ insert_by-map a (sort_by less l)
