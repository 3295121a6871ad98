-- ===== src/Algorithms/Tests.antt =====
-- The theorems on the algorithms at concrete inputs.
use ida_structor.Prelude.{ℕ, ◌≡◌, ◌↔◌, List, [], ◌∷◌, some, arith}
use ida_structor.Prelude.Int.{ℤ, pos}
use ida_structor.Prelude.Sorting.{In, Each}
use ida_structor.Algorithms.Overlaps.{Range, detect_overlaps}
use ida_structor.Algorithms.Overlaps.Quadratic.{Colliding}
use ida_structor.Algorithms.Overlaps.Ranges.{detect_overlaps_iff}
use ida_structor.Algorithms.Gcd.{gcd_array}
use ida_structor.Algorithms.Gcd.Divides.{Divides}
use ida_structor.Algorithms.Gcd.Binary.{gcd_array_lem}
use ida_structor.Algorithms.Chunks.{partition_for_parallel, Tiles, partition_for_parallel-Tiles}

abbrev three_ranges : List Range
three_ranges =
    record { offset = pos 0; size = 8 }
    ∷ record { offset = pos 4; size = 8 }
    ∷ record { offset = pos 12; size = 4 }
    ∷ []

detect_overlaps_iff_example :
    (out : List (ℤ × ℤ)) × (detect_overlaps three_ranges 2 ≡ some out)
    × ((p : ℤ × ℤ) → In p out ↔ Colliding three_ranges p)
detect_overlaps_iff_example = detect_overlaps_iff three_ranges 2 (omega arith)

gcd_array_lem_example :
    (g : ℕ) × (gcd_array (12 ∷ 18 ∷ 30 ∷ []) ≡ some g)
    × ((d : ℕ) → Divides d g ↔ Each (Divides d) (12 ∷ 18 ∷ 30 ∷ []))
gcd_array_lem_example = gcd_array_lem (12 ∷ 18 ∷ 30 ∷ []) (omega arith)

partition_for_parallel-Tiles_example :
    (l : List (ℕ × ℕ)) × (partition_for_parallel 16 100 3 ≡ some l) × Tiles 0 100 l
partition_for_parallel-Tiles_example =
    partition_for_parallel-Tiles 16 100 3 (omega arith) (omega arith) (omega arith) (omega arith)
