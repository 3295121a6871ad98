-- ===== src/Types/Tests.antt =====
-- The theorems on types at concrete inputs.
use ida_structor.Prelude.{◌≡◌, refl, true, false, not, ◌&&◌, ◌||◌, ◌↔◌, some, leb, arith}
use ida_structor.Types.Base.{
  BaseType, code, base_type_size, is_signed_int, is_integer as base_is_integer,
}
use ida_structor.Types.Inferred.{
  InferredType, base, pointer, function, sum, to, nil, cons, is_bottom,
}
use ida_structor.Types.Subtype.{is_subtype}
use ida_structor.Types.Subtype.Rules.{Sub, of_base, of_pointer, child, is_subtype_iff}
use ida_structor.Types.Subtype.Trans.{is_subtype_trans, is_subtype-sum}
use ida_structor.Types.Subtype.Antisym.{is_subtype_refl}
use ida_structor.Types.Lattice.{Lattice, new_lattice, lub, glb, are_compatible}
use ida_structor.Types.Lattice.Spec.{join, meet}
use ida_structor.Types.Lattice.Memo.{IsCoherent, new_lattice-IsCoherent}
use ida_structor.Types.Lattice.Memo.Lub.{lub-join}
use ida_structor.Types.Lattice.Memo.Glb.{glb-meet}
use ida_structor.Types.Lattice.Join.{joinable}
use ida_structor.Types.Lattice.Laws.{
  lub_upper, lub_least, glb_lower, glb_greatest, are_compatible_lem,
}
use ida_structor.Types.Solver.{wrap_pointers, chain_depth}
use ida_structor.Types.Solver
use ida_structor.Types.Solver.Decode.{decode-encode}
use ida_structor.Types.Solver.Tags.{subtype_of-encode}
use ida_structor.Types.Bitvector
use ida_structor.Types.Bitvector.Fields.{base_fields}

abbrev int32_type : InferredType
int32_type = base BaseType.int32

abbrev int64_type : InferredType
int64_type = base BaseType.int64

abbrev small : InferredType
small = pointer (to int32_type)

abbrev large : InferredType
large = pointer (to int64_type)

abbrev callback : InferredType
callback = function (to int32_type) (cons large nil)

abbrev cache : Lattice
cache = new_lattice 8

below : Sub small large
below = of_pointer (child (of_base refl))

small-large : is_subtype small large ≡ true
small-large = (is_subtype_iff small large).1 below

large-large : is_subtype large large ≡ true
large-large = is_subtype_refl large tt

small-small : is_subtype small small ≡ true
small-small = is_subtype_refl small tt

is_subtype_iff_example : (is_subtype small large ≡ true) ↔ Sub small large
is_subtype_iff_example = is_subtype_iff small large

lub-join_example :
    ((lub small large cache).0 ≡ join small large) × IsCoherent (lub small large cache).1
lub-join_example = lub-join small large cache (new_lattice-IsCoherent 8)

glb-meet_example :
    ((glb small large cache).0 ≡ meet small large) × IsCoherent (glb small large cache).1
glb-meet_example = glb-meet small large cache (new_lattice-IsCoherent 8)

lub_upper_example :
    (is_subtype small (lub small large cache).0 ≡ true)
    × (is_subtype large (lub small large cache).0 ≡ true)
unfolding joinable
lub_upper_example = lub_upper small large cache tt tt refl (new_lattice-IsCoherent 8)

lub_least_example : is_subtype (lub small large cache).0 large ≡ true
lub_least_example =
    lub_least small large large cache tt tt (new_lattice-IsCoherent 8) small-large large-large

glb_lower_example :
    (is_subtype (glb small large cache).0 small ≡ true)
    × (is_subtype (glb small large cache).0 large ≡ true)
glb_lower_example = glb_lower small large cache tt tt (new_lattice-IsCoherent 8)

glb_greatest_example : is_subtype small (glb small large cache).0 ≡ true
glb_greatest_example =
    glb_greatest small large small cache tt refl (new_lattice-IsCoherent 8) small-small small-large

are_compatible_lem_example : (are_compatible small large cache).0 ≡ (
    not (is_bottom small || is_bottom large) && (is_subtype small large || is_subtype large small))
are_compatible_lem_example = are_compatible_lem small large cache (new_lattice-IsCoherent 8)

is_subtype_trans_example : is_subtype small large ≡ true
is_subtype_trans_example = is_subtype_trans small small large tt small-small small-large

is_subtype-sum_example : is_subtype int32_type (sum (cons int32_type nil)) ≡ false
is_subtype-sum_example = is_subtype-sum int32_type (cons int32_type nil) refl refl

decode-encode_example :
    Solver.decode (some (Solver.encode (wrap_pointers 2 int32_type))) ≡ wrap_pointers 2 int32_type
decode-encode_example = decode-encode 2 BaseType.int32 (omega arith) (omega arith)

subtype_of-encode_example :
    Solver.subtype_of (Solver.encode int64_type) (Solver.encode (base BaseType.uint8))
    ≡ leb (code BaseType.int64) (code BaseType.uint8)
subtype_of-encode_example =
    subtype_of-encode BaseType.int64 BaseType.uint8 (omega arith) (omega arith)

base_fields_example :
    (Bitvector.decode (some (Bitvector.encode 8 int32_type)) ≡ int32_type)
    × (Bitvector.get_size (Bitvector.encode 8 int32_type) ≡ base_type_size BaseType.int32)
    × (Bitvector.is_pointer (Bitvector.encode 8 int32_type) ≡ false)
    × (Bitvector.is_integer (Bitvector.encode 8 int32_type) ≡ base_is_integer BaseType.int32)
    × (Bitvector.is_signed (Bitvector.encode 8 int32_type) ≡ is_signed_int BaseType.int32)
base_fields_example = base_fields 8 BaseType.int32 (omega arith)
