-- ===== src/Solving/Signature.antt =====
-- `map_signature_arguments` (include/structor/z3/signature_argument_map.hpp).
use ida_structor.Prelude.{
  ℕ, suc, ◌<◌, ◌≡◌, ◌≢◌, ◌↔◌, refl, Bool, true, false, not, ◌&&◌, ◌||◌, ◌==◌, leb, if◌then◌else◌,
  List, [], ◌∷◌, Option, none, some, length, arith,
}
use ida_structor.Prelude.Int.{ℤ, pos, negsuc}

pub record Binding : Type 0 where
  pub parameter_index : ℕ
  pub local_index : ℤ

abbrev pub int_eq : ℤ → ℤ → Bool
int_eq (pos a) (pos b) = a == b
int_eq (negsuc a) (negsuc b) = a == b
int_eq _ _ = false

-- `seen.contains`.
abbrev pub contains : List ℤ → ℤ → Bool
contains [] a = false
contains (x ∷ xs) a = int_eq a x || contains xs a

-- `local < 0 || local >= local_count`.
abbrev pub out_of_range : ℤ → ℕ → Bool
out_of_range (negsuc n) count = true
out_of_range (pos n) count = leb count n

abbrev cons_binding : ℕ → ℤ → Option (List Binding) → Option (List Binding)
cons_binding i l none = none
cons_binding i l (some bs) = some (record { parameter_index = i; local_index = l } ∷ bs)

-- The loop from `parameter` on with the locals seen.
unfoldable pub bind_from : ℕ → List ℤ → ℕ → List ℤ → Option (List Binding)
bind_from parameter seen count [] = some []
bind_from parameter seen count (l ∷ rest) =
    let others = bind_from (suc parameter) (l ∷ seen) count rest in
    if out_of_range l count || contains seen l then none else cons_binding parameter l others

unfoldable pub map_signature_arguments : List ℤ → ℕ → ℕ → Option (List Binding)
unfolding bind_from
map_signature_arguments indexes parameters locals =
    if not (length indexes == parameters) then none else bind_from 0 [] locals indexes

-- The bindings that number the locals in order.
abbrev pub numbered : ℕ → List ℤ → List Binding
numbered i [] = []
numbered i (l ∷ rest) = record { parameter_index = i; local_index = l } ∷ numbered (suc i) rest

-- Every local is in range, and none stands twice or in `seen`.
abbrev pub valid : List ℤ → ℕ → List ℤ → Bool
valid seen count [] = true
valid seen count (l ∷ rest) =
    not (out_of_range l count) && not (contains seen l) && valid (l ∷ seen) count rest

bind_from-valid :
    (i : ℕ) (seen : List ℤ) (count : ℕ) (ls : List ℤ)
    → bind_from i seen count ls ≡ (if valid seen count ls then some (numbered i ls) else none)
unfolding bind_from
bind_from-valid i seen count [] = refl
bind_from-valid i seen count (l ∷ rest) =
    rw (bind_from-valid (suc i) (l ∷ seen) count rest) (ground arith)

pub int_eq_iff : (a b : ℤ) → (int_eq a b ≡ true) ↔ (a ≡ b)
int_eq_iff (pos a) (pos b) = ground arith
int_eq_iff (pos a) (negsuc b) = ground arith
int_eq_iff (negsuc a) (pos b) = ground arith
int_eq_iff (negsuc a) (negsuc b) = ground arith

-- Every index is that of a local.
abbrev pub InRange : List ℤ → ℕ → Type 0
InRange [] count = Unit
InRange (pos n ∷ rest) count = (n < count) × InRange rest count
InRange (negsuc n ∷ rest) count = ⊥

-- The index stands nowhere in the list; none stands twice.
abbrev pub Apart : ℤ → List ℤ → Type 0
Apart l [] = Unit
Apart l (x ∷ rest) = (x ≢ l) × Apart l rest

abbrev pub Distinct : List ℤ → Type 0
Distinct [] = Unit
Distinct (l ∷ rest) = Apart l rest × Distinct rest

abbrev Unseen : List ℤ → List ℤ → Type 0
Unseen seen [] = Unit
Unseen seen (l ∷ rest) = (contains seen l ≡ false) × Unseen seen rest

Unseen-cons :
    (l : ℤ) (seen rest : List ℤ) → Unseen (l ∷ seen) rest ↔ (Apart l rest × Unseen seen rest)
Unseen-cons l seen [] = (λ h. (tt, tt), λ h. tt)
Unseen-cons l seen (x ∷ rest) =
    let r = Unseen-cons l seen rest in
    let e = int_eq_iff x l in
    (
      λ h. let (a, b) = r.0 h.1 in ((ground arith, a), (ground arith, b)),
      λ h. (ground arith, r.1 (h.0.1, h.1.1)),
    )

in_range :
    (l : ℤ) (rest : List ℤ) (count : ℕ)
    → ((out_of_range l count ≡ false) × InRange rest count) ↔ InRange (l ∷ rest) count
in_range (pos n) rest count = (λ h. (ground arith, h.1), λ h. (ground arith, h.1))
in_range (negsuc n) rest count = (λ h. ground arith, λ h. absurd h)

valid_iff :
    (seen : List ℤ) (count : ℕ) (ls : List ℤ)
    → (valid seen count ls ≡ true) ↔ (InRange ls count × Distinct ls × Unseen seen ls)
valid_iff seen count [] = (λ h. (tt, tt, tt), λ h. refl)
valid_iff seen count (l ∷ rest) =
    let r = valid_iff (l ∷ seen) count rest in
    let u = Unseen-cons l seen rest in
    let g = in_range l rest count in
    (
      λ h.
          let (a, b, c) = r.0 (ground arith) in
          let (d, e) = u.0 c in (g.0 (ground arith, a), (d, b), (ground arith, e)),
      λ h. let (o, a) = g.1 h.0 in let v = r.1 (a, h.1.1, u.1 (h.1.0, h.2.1)) in ground arith,
    )

-- The arguments are bound exactly where there is one index for each parameter, each is that of a
-- local and no local is taken twice; the bindings are then the indices in order, numbered from 0.
pub map_signature_arguments_iff :
    (ls : List ℤ) (parameters locals : ℕ) (bs : List Binding)
    → (map_signature_arguments ls parameters locals ≡ some bs)
      ↔ ((length ls ≡ parameters) × InRange ls locals × Distinct ls × (bs ≡ numbered 0 ls))
unfolding map_signature_arguments
map_signature_arguments_iff ls parameters locals bs =
    let v = valid_iff [] locals ls in
    let e = bind_from-valid 0 [] locals ls in
    (
      λ h.
          let t : valid [] locals ls ≡ true = ground arith in
          let (a, b, c) = v.0 t in (ground arith, a, b, ground arith),
      λ h. let t = v.1 (h.1, h.2, unseen_all ls) in ground arith,
    )
  where
    unseen_all : (xs : List ℤ) → Unseen [] xs
    unseen_all [] = tt
    unseen_all (x ∷ xs) = (refl, unseen_all xs)
