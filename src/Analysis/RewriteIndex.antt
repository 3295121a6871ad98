-- ===== src/Analysis/RewriteIndex.antt =====
-- `GlobalRewriteIndex` (include/structor/global_rewrite_index.hpp).
pub mod Heads
pub mod Roots
use ida_structor.Prelude.{
  ℕ, zero, suc, ◌+◌, Bool, true, false, ◌==◌, if◌then◌else◌, List, [], ◌∷◌, ◌++◌, Option, none,
  some, length, set,
}
use ida_structor.Prelude.Maps.{Map, empty_map, assign, erase}

pub record Index : Type 0 where
  pub canonical : Map ℕ
  pub heads : Map ℕ
  pub aliases : Map ℕ
  pub slot_heads : List (Option ℕ)
  pub next : ℕ

abbrev pub empty_index : Index
empty_index = record {
  canonical = empty_map;
  heads = empty_map;
  aliases = empty_map;
  slot_heads = [];
  next = 0;
}

abbrev unless_slot : ℕ → Option ℕ → Option ℕ
unless_slot slot none = none
unless_slot slot (some i) = if i == slot then none else some i

-- `erase_slot`.
abbrev pub erase_slot : Map ℕ → ℕ → Map ℕ
erase_slot m slot k = unless_slot slot (m k)

abbrev count_of : Option ℕ → ℕ
count_of none = 0
count_of (some n) = n

-- One round of `rebuild_head_index`, on the map and the counts.
unfoldable pub rebuild_step : Map ℕ × Map ℕ → ℕ → ℕ → Map ℕ × Map ℕ
rebuild_step (index, counts) slot head =
    let count = count_of (counts head) + 1 in
    (if count == 1 then assign index head slot else erase index head, assign counts head count)

-- The loop from `slot` on.
unfoldable pub rebuild_from : Map ℕ × Map ℕ → ℕ → List (Option ℕ) → Map ℕ
unfolding rebuild_step
rebuild_from (index, counts) slot [] = index
rebuild_from (index, counts) slot (none ∷ rest) = rebuild_from (index, counts) (suc slot) rest
rebuild_from (index, counts) slot (some head ∷ rest) =
    rebuild_from (rebuild_step (index, counts) slot head) (suc slot) rest

unfoldable pub rebuild_head_index : List (Option ℕ) → Map ℕ
unfolding rebuild_from
rebuild_head_index hs = rebuild_from (empty_map, empty_map) 0 hs

abbrev assign_all : Map ℕ → List ℕ → ℕ → Map ℕ
assign_all m [] i = m
assign_all m (a ∷ rest) i = assign_all (assign m a i) rest i

-- A root that has a slot keeps it.
abbrev reused : Index → ℕ → ℕ → Option ℕ → List ℕ → Index
reused x index root head aliases =
    let hs = set x.slot_heads index head in
    record {
      canonical = assign (erase_slot x.canonical index) root index;
      heads = rebuild_head_index hs;
      aliases = assign_all (erase_slot x.aliases index) aliases index;
      slot_heads = hs;
      next = x.next;
    }

abbrev added : Index → ℕ → Option ℕ → List ℕ → Index
added x root head aliases =
    let hs = set (x.slot_heads ++ (none ∷ [])) x.next head in
    record {
      canonical = assign x.canonical root x.next;
      heads = rebuild_head_index hs;
      aliases = assign_all x.aliases aliases x.next;
      slot_heads = hs;
      next = suc x.next;
    }

-- The index of the slot, whether it was replaced, and the new index.
unfoldable pub upsert : Index → ℕ → Option ℕ → List ℕ → (ℕ × Bool) × Index
unfolding rebuild_head_index
upsert x root head aliases = elim (x.canonical root) [
  | some index ↦ ((index, true), reused x index root head aliases)
  | none ↦ ((x.next, false), added x root head aliases)
]

unfoldable pub find_root : Index → ℕ → Option ℕ
find_root x a = elim (x.canonical a) [ some i ↦ some i | none ↦ x.heads a ]

abbrev pub find_alias : Index → ℕ → Option ℕ
find_alias x a = x.aliases a

abbrev pub slot_count : Index → ℕ
slot_count x = x.next

abbrev pub clear : Index → Index
clear x = empty_index
