-- ===== src/Containers/Tests.antt =====
-- The theorem on sequences of unions at concrete entries.
use ida_structor.Prelude.{ℕ, zero, suc, ◌<◌, ◌≡◌, ◌↔◌, refl, Bool, true, List, [], ◌∷◌, some, arith}
use ida_structor.Prelude.Int.{pos}
use ida_structor.Containers.UnionFind.{Entry, same_set}
use ida_structor.Containers.UnionFind.Forest.{parent_at}
use ida_structor.Containers.UnionFind.Closure.{Linked, IsFresh, unite_all, same_set_iff}

abbrev four_entries : List Entry
four_entries =
    record { parent = 0; rank = 0; id = pos 10 }
    ∷ record { parent = 1; rank = 0; id = pos 20 }
    ∷ record { parent = 2; rank = 0; id = pos 30 }
    ∷ record { parent = 3; rank = 0; id = pos 40 }
    ∷ []

abbrev two_pairs : List (ℕ × ℕ)
two_pairs = (2, 3) ∷ (0, 2) ∷ []

own_parent : (i : ℕ) → i < 4 → parent_at four_entries i ≡ i
own_parent zero h = refl
own_parent (suc zero) h = refl
own_parent (suc (suc zero)) h = refl
own_parent (suc (suc (suc zero))) h = refl
own_parent (suc (suc (suc (suc i)))) h = absurd (omega arith)

four_entries-IsFresh : IsFresh four_entries
four_entries-IsFresh = (omega arith, own_parent)

same_set_iff_example :
    (fs gs : List Entry) × (b : Bool) × (unite_all 3 four_entries two_pairs ≡ some fs)
    × (same_set 3 fs 0 3 ≡ some (gs, b))
    × ((b ≡ true) ↔ Linked two_pairs 0 3)
same_set_iff_example =
    same_set_iff 3 four_entries two_pairs 0 3 four_entries-IsFresh (omega arith) (omega arith)
      (omega arith) (omega arith)
