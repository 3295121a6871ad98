-- ===== src/Types/Lattice/Spec.antt =====
-- The join and the meet of two types with no memo table, by recursion on the first type.
use ida_structor.Prelude.{◌≡◌, refl, ◌||◌, ◌==◌, if◌then◌else◌}
use ida_structor.Types.Inferred.{
  InferredType, base, pointer, array, to, unknown, bottom, make_ptr, make_array, is_unknown,
  is_bottom,
}
use ida_structor.Types.Subtype.{is_subtype}
use ida_structor.Types.Lattice.{lub_base, glb_base}

-- The comparable pairs; `inner` is the join of two types of one kind that are not.
abbrev pub join_or : InferredType → InferredType → InferredType → InferredType
join_or a b inner =
    if is_unknown a || is_unknown b
    then unknown
    else if is_bottom a
    then b
    else if is_bottom b
    then a
    else if is_subtype a b
    then b
    else if is_subtype b a
    then a
    else inner

pub join : InferredType → InferredType → InferredType
join (base x) (base y) = join_or (base x) (base y) (lub_base x y)
join (pointer (to p)) (pointer (to q)) = join_or (make_ptr p) (make_ptr q) (make_ptr (join p q))
join (pointer c) (pointer d) = join_or (pointer c) (pointer d) (make_ptr unknown)
join (array (to p) m) (array (to q) n) =
    join_or (make_array p m) (make_array q n) (if m == n then make_array (join p q) m else unknown)
join a b = join_or a b unknown

abbrev pub meet_or : InferredType → InferredType → InferredType → InferredType
meet_or a b inner =
    if is_bottom a || is_bottom b
    then bottom
    else if is_unknown a
    then b
    else if is_unknown b
    then a
    else if is_subtype a b
    then a
    else if is_subtype b a
    then b
    else inner

pub meet : InferredType → InferredType → InferredType
meet (base x) (base y) = meet_or (base x) (base y) (glb_base x y)
meet (pointer (to p)) (pointer (to q)) =
    meet_or (make_ptr p) (make_ptr q) (if is_bottom (meet p q) then bottom else make_ptr (meet p q))
meet a b = meet_or a b bottom

-- What is left of two types of which neither is below the other.
unfoldable pub join_kinds : InferredType → InferredType → InferredType
join_kinds (base x) (base y) = lub_base x y
join_kinds (pointer (to p)) (pointer (to q)) = make_ptr (join p q)
join_kinds (pointer c) (pointer d) = make_ptr unknown
join_kinds (array (to p) m) (array (to q) n) = if m == n then make_array (join p q) m else unknown
join_kinds a b = unknown

unfoldable pub meet_kinds : InferredType → InferredType → InferredType
meet_kinds (base x) (base y) = glb_base x y
meet_kinds (pointer (to p)) (pointer (to q)) =
    if is_bottom (meet p q) then bottom else make_ptr (meet p q)
meet_kinds a b = bottom

pub join_lem : (a b : InferredType) → join a b ≡ join_or a b (join_kinds a b)
unfolding join join_kinds
join_lem (base x) (base y) = refl
join_lem (pointer (to p)) (pointer (to q)) = refl
join_lem (pointer c) (pointer d) = refl
join_lem (array (to p) m) (array (to q) n) = refl
join_lem a b = refl

pub meet_lem : (a b : InferredType) → meet a b ≡ meet_or a b (meet_kinds a b)
unfolding meet meet_kinds
meet_lem (base x) (base y) = refl
meet_lem (pointer (to p)) (pointer (to q)) = refl
meet_lem a b = refl
