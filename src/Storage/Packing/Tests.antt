-- ===== src/Storage/Packing/Tests.antt =====
-- The theorems on the packing cap at concrete inputs.
use ida_structor.Prelude.{ℕ, ◌≤◌, ◌≡◌, refl, true, List, [], ◌∷◌, Option, some, ◌↔◌}
use ida_structor.Prelude.Int.{pos}
use ida_structor.Storage.Packing.{
  PackingAlignmentRequirement, all_met, is_met, canonical_packing_cap, is_valid_packing_value,
  usable_options, sort_down, insert_down, unique, unique_after, first_met,
}
use ida_structor.Storage.Packing.Largest.{elem, is_usable, canonical_packing_cap_iff}

abbrev fields : List PackingAlignmentRequirement
fields =
    record { offset = pos 2; natural_alignment = 4 }
    ∷ record { offset = pos 8; natural_alignment = 8 }
    ∷ []

abbrev options : List ℕ
options = 1 ∷ 2 ∷ 4 ∷ 8 ∷ []

canonical_packing_cap_iff_example : (canonical_packing_cap fields options 8 ≡ some 2) ↔ (
    (elem 2 options ≡ true)
    × (is_usable 8 2 ≡ true)
    × (all_met 2 fields ≡ true)
    × ((q : ℕ) → elem q options ≡ true → is_usable 8 q ≡ true → all_met q fields ≡ true → q ≤ 2))
canonical_packing_cap_iff_example = canonical_packing_cap_iff fields options 8 2

abbrev packed_fields : Option ℕ
packed_fields = canonical_packing_cap fields options 8

packed_fields_test : packed_fields ≡ some 2
unfolding canonical_packing_cap usable_options is_valid_packing_value sort_down insert_down unique
    unique_after first_met all_met is_met
packed_fields_test = refl
