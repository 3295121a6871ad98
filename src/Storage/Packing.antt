-- ===== src/Storage/Packing.antt =====
-- Structure packing (include/structor/synth_types.hpp, include/structor/persistence_invariants.hpp).
-- `std::sort` is the insertion sort: of numbers, every sort gives the same list.
pub mod Largest
mod Tests
use ida_structor.Prelude.{
  ℕ, zero, suc, ◌+◌, ◌%◌, Bool, true, false, not, ◌&&◌, Option, none, some, List, [], ◌∷◌, leb,
  ◌==◌, if◌then◌else◌, min, max,
}
use ida_structor.Prelude.Int.{ℤ, pos, negsuc}
use ida_structor.Storage.Offset.{lacks_second_bit}

pub record PackingAlignmentRequirement : Type 0 where
  pub offset : ℤ
  pub natural_alignment : ℕ

pub is_valid_packing_value : ℕ → Bool
is_valid_packing_value value = not (value == 0) && lacks_second_bit value

-- `offset % d == 0`, where the remainder of a negative offset is not positive.
abbrev pub is_multiple : ℤ → ℕ → Bool
is_multiple (pos n) d = n % d == 0
is_multiple (negsuc n) d = suc n % d == 0

-- The test of one requirement under a packing cap.
pub is_met : ℕ → PackingAlignmentRequirement → Bool
is_met packing r = is_multiple r.offset (min (max 1 r.natural_alignment) packing)

pub all_met : ℕ → List PackingAlignmentRequirement → Bool
unfolding is_met
all_met packing [] = true
all_met packing (r ∷ rs) = is_met packing r && all_met packing rs

-- The loop that keeps the valid options up to the cap.
pub usable_options : List ℕ → ℕ → List ℕ
unfolding is_valid_packing_value
usable_options [] cap = []
usable_options (v ∷ vs) cap =
    let rest = usable_options vs cap in
    if is_valid_packing_value v && leb v cap then v ∷ rest else rest

pub insert_down : ℕ → List ℕ → List ℕ
insert_down a [] = a ∷ []
insert_down a (b ∷ bs) = if leb b a then a ∷ b ∷ bs else b ∷ insert_down a bs

pub sort_down : List ℕ → List ℕ
unfolding insert_down
sort_down [] = []
sort_down (a ∷ l) = insert_down a (sort_down l)

-- `std::unique` behind `a`: what follows an equal element is dropped.
pub unique_after : ℕ → List ℕ → List ℕ
unique_after a [] = []
unique_after a (b ∷ bs) = let rest = unique_after b bs in if a == b then rest else b ∷ rest

pub unique : List ℕ → List ℕ
unfolding unique_after
unique [] = []
unique (a ∷ l) = a ∷ unique_after a l

pub first_met : List PackingAlignmentRequirement → List ℕ → Option ℕ
unfolding all_met
first_met rs [] = none
first_met rs (p ∷ ps) = if all_met p rs then some p else first_met rs ps

pub canonical_packing_cap : List PackingAlignmentRequirement → List ℕ → ℕ → Option ℕ
unfolding usable_options sort_down unique first_met
canonical_packing_cap rs options cap =
    if cap == 0 then none else first_met rs (unique (sort_down (usable_options options cap)))

-- The loop of `effective_alignment_for_packing`, from the `result` so far.
pub widest : ℕ → ℕ → List PackingAlignmentRequirement → ℕ
widest packing result [] = result
widest packing result (r ∷ rs) =
    widest packing (max result (min (max 1 r.natural_alignment) packing)) rs

pub effective_alignment_for_packing : List PackingAlignmentRequirement → ℕ → ℕ
unfolding widest
effective_alignment_for_packing rs packing = widest (max 1 packing) 1 rs

pub ida_udt_pack_code : Option ℕ → Option ℕ
ida_udt_pack_code none = some 0
ida_udt_pack_code (some p) =
    if p == 1
    then some 1
    else if p == 2
    then some 2
    else if p == 4
    then some 3
    else if p == 8
    then some 4
    else if p == 16
    then some 5
    else none
