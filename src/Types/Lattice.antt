-- ===== src/Types/Lattice.antt =====
-- `TypeLattice` (src/z3/type_lattice.cpp): `lub` and `glb` with their memo tables, the compatibility
-- test, widening and the canonical types. The recursion of `lub` and `glb` takes fuel; the two
-- operations give the size of their first argument, which falls at each recursive call.
pub mod Spec
pub mod Scalars
pub mod Memo
pub mod Apart
pub mod Meet
pub mod Join
pub mod Least
pub mod Laws
use ida_structor.Prelude.{
  ℕ, zero, suc, ◌+◌, ◌≡◌, Bool, true, false, ◌&&◌, ◌||◌, not, Option, none, some, List, [], ◌∷◌,
  leb, ◌==◌, if◌then◌else◌, min, max,
}
use ida_structor.Types.Base.{
  BaseType, code, cast_base, is_signed_int, is_unsigned_int, is_integer, base_type_size,
  base_type_from_size,
}
use ida_structor.Types.Inferred.{
  InferredType, base, pointer, array, Child, null, to, type_eq, unknown, bottom, make_ptr,
  make_array, is_unknown, is_bottom,
}
use ida_structor.Types.Subtype.{is_subtype, nodes}

-- A memo table: a key is the pair of complete types, whose hashes only select a bucket.
abbrev pub Cache : Type 0
Cache = List ((InferredType × InferredType) × InferredType)

pub cache_find : Cache → InferredType → InferredType → Option InferredType
cache_find [] a b = none
cache_find (((x, y), r) ∷ m) a b = if type_eq x a && type_eq y b then some r else cache_find m a b

-- `unordered_map::emplace` keeps an entry that is there.
pub cache_emplace : Cache → InferredType → InferredType → InferredType → Cache
cache_emplace m a b r = elim (cache_find m a b) [ none ↦ ((a, b), r) ∷ m | some _ ↦ m ]

-- The members of `TypeLattice`, the counters of `CacheStats` among them.
pub record Lattice : Type 0 where
  pub ptr_size : ℕ
  pub lub_cache : Cache
  pub glb_cache : Cache
  pub lub_hits : ℕ
  pub lub_misses : ℕ
  pub glb_hits : ℕ
  pub glb_misses : ℕ

pub new_lattice : ℕ → Lattice
new_lattice p = record {
  ptr_size = p;
  lub_cache = [];
  glb_cache = [];
  lub_hits = 0;
  lub_misses = 0;
  glb_hits = 0;
  glb_misses = 0;
}

pub clear_cache : Lattice → Lattice
clear_cache l = record l { lub_cache = []; glb_cache = [] }

-- An operation returns the type and the lattice with its tables.
abbrev pub Op : Type 0
Op = InferredType → InferredType → Lattice → InferredType × Lattice

-- `case Kind::Base` of `lub_impl`.
abbrev pub lub_base : BaseType → BaseType → InferredType
lub_base a b =
    if is_signed_int a && is_signed_int b
    then base (cast_base (max (code a) (code b)))
    else if is_unsigned_int a && is_unsigned_int b
    then base (cast_base (max (code a) (code b)))
    else if is_integer a && is_integer b
    then base (base_type_from_size (max (base_type_size a) (base_type_size b)) false)
    else unknown

-- `case Kind::Base` of `glb_impl`.
abbrev pub glb_base : BaseType → BaseType → InferredType
glb_base a b =
    if is_signed_int a && is_signed_int b
    then base (cast_base (min (code a) (code b)))
    else if is_unsigned_int a && is_unsigned_int b
    then base (cast_base (min (code a) (code b)))
    else bottom

module _ (rec : Op) where
  -- The `switch` of `lub_impl`.
  pub lub_kinds : Op
  lub_kinds (base x) (base y) l = (lub_base x y, l)
  lub_kinds (pointer (to p)) (pointer (to q)) l = let (r, l') = rec p q l in (make_ptr r, l')
  lub_kinds (pointer _) (pointer _) l = (make_ptr unknown, l)
  lub_kinds (array (to p) m) (array (to q) n) l =
      let (r, l') = rec p q l in if m == n then (make_array r m, l') else (unknown, l)
  lub_kinds _ _ l = (unknown, l)

  pub lub_impl : Op
  unfolding lub_kinds
  lub_impl a b l =
      if is_subtype a b then (b, l) else if is_subtype b a then (a, l) else lub_kinds a b l

  pub lub_lookup : Op
  unfolding lub_impl
  lub_lookup a b l = elim (cache_find l.lub_cache a b) [
    | some r ↦ (r, record l { lub_hits = l.lub_hits + 1 })
    | none ↦
        let (r, l') = lub_impl a b (record l { lub_misses = l.lub_misses + 1 }) in
        (r, record l' { lub_cache = cache_emplace l'.lub_cache a b r })
  ]

  pub lub_body : Op
  unfolding lub_lookup
  lub_body a b l =
      if is_unknown a || is_unknown b
      then (unknown, l)
      else if is_bottom a
      then (b, l)
      else if is_bottom b
      then (a, l)
      else lub_lookup a b l

  -- The `switch` of `glb_impl`.
  pub glb_kinds : Op
  glb_kinds (base x) (base y) l = (glb_base x y, l)
  glb_kinds (pointer (to p)) (pointer (to q)) l =
      let (r, l') = rec p q l in (if is_bottom r then bottom else make_ptr r, l')
  glb_kinds _ _ l = (bottom, l)

  pub glb_impl : Op
  unfolding glb_kinds
  glb_impl a b l =
      if is_subtype a b then (a, l) else if is_subtype b a then (b, l) else glb_kinds a b l

  pub glb_lookup : Op
  unfolding glb_impl
  glb_lookup a b l = elim (cache_find l.glb_cache a b) [
    | some r ↦ (r, record l { glb_hits = l.glb_hits + 1 })
    | none ↦
        let (r, l') = glb_impl a b (record l { glb_misses = l.glb_misses + 1 }) in
        (r, record l' { glb_cache = cache_emplace l'.glb_cache a b r })
  ]

  pub glb_body : Op
  unfolding glb_lookup
  glb_body a b l =
      if is_bottom a || is_bottom b
      then (bottom, l)
      else if is_unknown a
      then (b, l)
      else if is_unknown b
      then (a, l)
      else glb_lookup a b l

pub lub_fuel : ℕ → Op
lub_fuel zero a b l = (unknown, l)
lub_fuel (suc n) a b l = lub_body (lub_fuel n) a b l

pub glb_fuel : ℕ → Op
glb_fuel zero a b l = (bottom, l)
glb_fuel (suc n) a b l = glb_body (glb_fuel n) a b l

pub lub : Op
lub a b l = lub_fuel (suc (nodes a)) a b l

pub glb : Op
glb a b l = glb_fuel (suc (nodes a)) a b l

pub are_compatible : InferredType → InferredType → Lattice → Bool × Lattice
are_compatible a b l = let (r, l') = glb a b l in (not (is_bottom r), l')

pub widen_to_size : InferredType → ℕ → InferredType
widen_to_size (base b) size =
    if leb size (base_type_size b)
    then base b
    else if is_signed_int b
    then base (base_type_from_size size true)
    else if is_unsigned_int b
    then base (base_type_from_size size false)
    else base b
widen_to_size t size = t

pub canonical_for_size : Lattice → ℕ → InferredType
canonical_for_size l size =
    if size == l.ptr_size then unknown else base (base_type_from_size size false)
