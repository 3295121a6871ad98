-- ===== src/Types/Lattice/Memo.antt =====
-- The memo tables are invisible: from tables whose entries are right, `lub` and `glb` return the join
-- and the meet, and leave right tables.
pub mod Lub
pub mod Glb
use ida_structor.Prelude.{
  ℕ, zero, suc, ◌+◌, ◌<◌, ◌≤◌, ◌≡◌, refl, sym, ap, ◌∙◌, Bool, true, false, ◌&&◌, ◌||◌, ◌⊎◌, inl,
  inr, Option, none, some, List, [], ◌∷◌, ◌==◌, if◌then◌else◌, arith, Bool-cases, Option-cases,
  &&_iff,
}
use ida_structor.Types.Inferred.{
  InferredType, base, pointer, array, Child, null, to, type_eq, type_eq_iff, unknown, bottom,
  make_ptr, is_unknown, is_bottom,
}
use ida_structor.Types.Subtype.{is_subtype, nodes}
use ida_structor.Types.Lattice.{
  Cache, cache_find, cache_emplace, Lattice, lub_kinds, lub_impl, lub_lookup, lub_body, lub_fuel,
  lub, glb_kinds, glb_impl, glb_lookup, glb_body, glb_fuel, glb, Op, new_lattice, clear_cache,
}
use ida_structor.Types.Lattice.Spec.{join, join_kinds, join_lem, meet, meet_kinds, meet_lem}

-- Every entry of a table holds the result of `op` on its key.
abbrev pub Holds : (InferredType → InferredType → InferredType) → Cache → Type 0
Holds op m = (a b r : InferredType) → cache_find m a b ≡ some r → r ≡ op a b

pub record IsCoherent (l : Lattice) : Type 0 where
  pub lubs : Holds join l.lub_cache
  pub glbs : Holds meet l.glb_cache

Holds-cons :
    (op : InferredType → InferredType → InferredType) (m : Cache) (a b : InferredType)
    → Holds op m
    → Holds op (((a, b), op a b) ∷ m)
unfolding cache_find
Holds-cons op m a b h x y r e = elim (Bool-cases (type_eq a x && type_eq b y)) [
  | inl t ↦
      let p = (&&_iff _ _).0 t in
      rw (sym ((type_eq_iff a x).0 p.0), sym ((type_eq_iff b y).0 p.1)) (ground arith)
  | inr f ↦ h x y r (ground arith)
]

pub Holds-emplace :
    (op : InferredType → InferredType → InferredType) (m : Cache) (a b : InferredType)
    → Holds op m
    → Holds op (cache_emplace m a b (op a b))
unfolding cache_emplace
Holds-emplace op m a b h = elim (Option-cases (cache_find m a b)) [
  | inl e ↦ rw (e, cache_emplace) (Holds-cons op m a b h)
  | inr (r, e) ↦ rw (e, cache_emplace) h
]

-- The operation returns what `op` says on first arguments of less than `n` nodes.
abbrev pub Returns : (InferredType → InferredType → InferredType) → Op → ℕ → Type 0
Returns op f n =
    (a b : InferredType) (l : Lattice)
    → nodes a < n
    → IsCoherent l
    → ((f a b l).0 ≡ op a b) × IsCoherent (f a b l).1

-- A new lattice, and one whose tables were just cleared.
pub new_lattice-IsCoherent : (p : ℕ) → IsCoherent (new_lattice p)
unfolding new_lattice cache_find
new_lattice-IsCoherent p = record { lubs = λ a b r e. cc; glbs = λ a b r e. cc }

pub clear_cache-IsCoherent : (l : Lattice) → IsCoherent (clear_cache l)
unfolding clear_cache cache_find
clear_cache-IsCoherent l = record { lubs = λ a b r e. cc; glbs = λ a b r e. cc }
