-- ===== src/Containers/UnionFind.antt =====
-- `FlatUnionFind`. A loop has fuel, and `none` stands for a loop that has not ended. The memory
-- behind the entries is a list, and indices are stored as 32-bit numbers.
pub mod Forest
pub mod Partition
pub mod Sequence
pub mod Closure
use ida_structor.Prelude.{
  ℕ, zero, suc, ◌+◌, ◌%◌, ◌^◌, Bool, true, false, ◌==◌, ltb, if◌then◌else◌, List, [], ◌∷◌, ◌++◌,
  Option, none, some, length, get_or, set,
}
use ida_structor.Prelude.Int.{ℤ, negsuc, ◌==ℤ◌}

pub record Entry : Type 0 where
  pub parent : ℕ
  pub rank : ℕ
  pub id : ℤ

pub record FlatUnionFind : Type 0 where
  pub entries : List Entry
  pub id_to_index : ℤ → Option ℕ

abbrev pub new_union_find : FlatUnionFind
new_union_find = record { entries = []; id_to_index = λ i. none }

abbrev pub no_entry : Entry
no_entry = record { parent = 0; rank = 0; id = negsuc 0 }

abbrev pub entry_at : List Entry → ℕ → Entry
entry_at es i = get_or es i no_entry

unfoldable pub set_parent : List Entry → ℕ → ℕ → List Entry
set_parent es i p = set es i (record (entry_at es i) { parent = p % 2 ^ 32 })

unfoldable pub raise_rank : List Entry → ℕ → List Entry
raise_rank es i = set es i (record (entry_at es i) { rank = ((entry_at es i).rank + 1) % 2 ^ 16 })

abbrev pub known_or_new : FlatUnionFind → ℤ → Option ℕ → FlatUnionFind × ℕ
known_or_new s id (some i) = (s, i)
known_or_new s id none = (
  record {
    entries = s.entries ++ (record { parent = length s.entries % 2 ^ 32; rank = 0; id = id } ∷ []);
    id_to_index = λ i. if i ==ℤ id then some (length s.entries) else s.id_to_index i;
  },
  length s.entries,
)

unfoldable pub make_set : FlatUnionFind → ℤ → FlatUnionFind × ℕ
make_set s id = known_or_new s id (s.id_to_index id)

-- Path halving: the entries that it leaves, and the root.
unfoldable pub find : ℕ → List Entry → ℕ → Option (List Entry × ℕ)
unfolding set_parent
find zero es i = none
find (suc f) es i =
    let up = (entry_at es (entry_at es i).parent).parent in
    let rest = find f (set_parent es i up) up in
    if (entry_at es i).parent == i then some (es, i) else rest

unfoldable pub link : List Entry → ℕ → ℕ → List Entry × ℕ
unfolding set_parent raise_rank
link es x y =
    if (entry_at (set_parent es y x) x).rank == (entry_at (set_parent es y x) y).rank
    then (raise_rank (set_parent es y x) x, x)
    else (set_parent es y x, x)

-- The union by rank of two roots.
unfoldable pub unite_roots : List Entry → ℕ → ℕ → List Entry × ℕ
unfolding link
unite_roots es x y =
    if x == y
    then (es, x)
    else if ltb (entry_at es x).rank (entry_at es y).rank
    then link es y x
    else link es x y

unfoldable pub unite : ℕ → List Entry → ℕ → ℕ → Option (List Entry × ℕ)
unite f es x y = elim (find f es x) [
  | none ↦ none
  | some (fs, a) ↦ elim (find f fs y) [ none ↦ none | some (gs, b) ↦ some (unite_roots gs a b) ]
]

unfoldable pub same_set : ℕ → List Entry → ℕ → ℕ → Option (List Entry × Bool)
same_set f es x y = elim (find f es x) [
  | none ↦ none
  | some (fs, a) ↦ elim (find f fs y) [ none ↦ none | some (gs, b) ↦ some (gs, a == b) ]
]

-- The rounds of `get_set`, over the indices that are left.
unfoldable pub collect : ℕ → ℕ → ℕ → ℕ → List Entry → Option (List Entry × List ℤ)
collect f root zero i es = some (es, [])
collect f root (suc n) i es = elim (find f es i) [
  | none ↦ none
  | some (fs, r) ↦ elim (collect f root n (suc i) fs) [
    | none ↦ none
    | some (gs, ids) ↦ some (gs, if r == root then (entry_at fs i).id ∷ ids else ids)
  ]
]

unfoldable pub get_set : ℕ → List Entry → ℕ → Option (List Entry × List ℤ)
unfolding collect
get_set f es x = elim (find f es x) [
  | none ↦ none
  | some (fs, root) ↦ collect f root (length fs) 0 fs
]
