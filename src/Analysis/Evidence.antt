-- ===== src/Analysis/Evidence.antt =====
-- Field accesses, their classes and the merge of compatible ones, from
-- include/structor/synth_types.hpp.
pub mod Merge
pub mod Order
use ida_structor.Prelude.{
  ℕ, zero, suc, Bool, true, false, not, ◌&&◌, ◌||◌, ◌==◌, ltb, leb, if◌then◌else◌, List, [], ◌∷◌,
  ◌++◌, Option, none, some, String,
}
use ida_structor.Prelude.Int.{ℤ, pos, ltb_ℤ, ◌==ℤ◌, min_ℤ, max_ℤ}
use ida_structor.Storage.Offset.{sval_max, checked_interval_end}

pub data AccessType : Type 0 where
  unknown read write read_write call address_taken : AccessType

pub data SemanticType : Type 0 where
  unknown integer unsigned_integer float double pointer function_pointer vtable_pointer array
        nested_struct padding :
      SemanticType

-- The place in the enumeration, by which the code compares.
abbrev pub semantic_rank : SemanticType → ℕ
semantic_rank SemanticType.unknown = 0
semantic_rank integer = 1
semantic_rank unsigned_integer = 2
semantic_rank float = 3
semantic_rank double = 4
semantic_rank pointer = 5
semantic_rank function_pointer = 6
semantic_rank vtable_pointer = 7
semantic_rank array = 8
semantic_rank nested_struct = 9
semantic_rank padding = 10

abbrev pub semantic_priority : SemanticType → ℕ
semantic_priority vtable_pointer = 100
semantic_priority function_pointer = 90
semantic_priority nested_struct = 85
semantic_priority pointer = 80
semantic_priority double = 70
semantic_priority float = 65
semantic_priority array = 60
semantic_priority unsigned_integer = 50
semantic_priority integer = 40
semantic_priority padding = 10
semantic_priority SemanticType.unknown = 0

pub record BitfieldInfo : Type 0 where
  pub bit_offset : ℕ
  pub bit_size : ℕ

abbrev pub bitfield_eq : BitfieldInfo → BitfieldInfo → Bool
bitfield_eq a b = a.bit_offset == b.bit_offset && a.bit_size == b.bit_size

-- What the host answers about a type; `none` is `BADSIZE`.
pub record TypeQueries (T : Type 0) : Type 0 where
  pub is_empty : T → Bool
  pub is_ptr : T → Bool
  pub is_funcptr : T → Bool
  pub is_func : T → Bool
  pub is_floating : T → Bool
  pub is_struct : T → Bool
  pub is_union : T → Bool
  pub is_array : T → Bool
  pub get_size : T → Option ℕ
  pub get_pointed_object : T → T

pub data NestedAccessInfo (T : Type 0) : Type 0 where
  leaf : ℤ → T → NestedAccessInfo T
  level : ℤ → T → NestedAccessInfo T → NestedAccessInfo T

unfoldable pub depth : {T : Type 0} → NestedAccessInfo T → ℕ
depth (leaf o t) = 1
depth (level o t n) = suc (depth n)

unfoldable pub flatten : {T : Type 0} → NestedAccessInfo T → List (ℤ × T)
flatten (leaf o t) = (o, t) ∷ []
flatten (level o t n) = (o, t) ∷ flatten n

pub record FieldAccess (T : Type 0) : Type 0 where
  pub insn_ea : ℕ
  pub source_func_ea : ℕ
  pub offset : ℤ
  pub size : ℕ
  pub access_type : AccessType
  pub semantic_type : SemanticType
  pub inferred_type : T
  pub context_expr : String
  pub is_vtable_access : Bool
  pub vtable_slot : ℤ
  pub is_zero_init : Bool
  pub is_call_argument : Bool
  pub bitfields : List BitfieldInfo
  pub observed_constants : List ℕ
  pub array_stride_hint : Option ℕ
  pub base_indirection : Option ℕ
  pub nested_info : Option (NestedAccessInfo T)

abbrev pub is_one_of : {A : Type 0} → (A → A → Bool) → A → List A → Bool
is_one_of same a [] = false
is_one_of same a (x ∷ xs) = same x a || is_one_of same a xs

-- `add_bitfield` and `add_observed_constant`: an element that is there is not added again.
abbrev pub add_missing : {A : Type 0} → (A → A → Bool) → List A → A → List A
add_missing same l a = if is_one_of same a l then l else l ++ (a ∷ [])

unfoldable pub add_all_missing : {A : Type 0} → (A → A → Bool) → List A → List A → List A
add_all_missing same l [] = l
add_all_missing same l (a ∷ rest) = add_all_missing same (add_missing same l a) rest

abbrev pub reads : AccessType → Bool
reads read = true
reads read_write = true
reads other = false

abbrev pub writes : AccessType → Bool
writes write = true
writes read_write = true
writes other = false

abbrev pub or_known : AccessType → AccessType → AccessType
or_known AccessType.unknown s = s
or_known read s = read
or_known write s = write
or_known read_write s = read_write
or_known call s = call
or_known address_taken s = address_taken

abbrev pub merge_access_type : AccessType → AccessType → AccessType
merge_access_type d s =
    if (reads d || reads s) && (writes d || writes s) then read_write else or_known d s

-- Two hints that differ cancel out.
abbrev pub merge_hint : Option ℕ → Option ℕ → Option ℕ
merge_hint d none = d
merge_hint none (some s) = some s
merge_hint (some d) (some s) = if not (d == s) then none else some d

abbrev pub or_else : {A : Type 0} → Option A → Option A → Option A
or_else (some a) o = some a
or_else none o = o

pub data EvidenceTypeClass : Type 0 where
  unknown integer floating pointer aggregate : EvidenceTypeClass

abbrev pub class_rank : EvidenceTypeClass → ℕ
class_rank EvidenceTypeClass.unknown = 0
class_rank EvidenceTypeClass.integer = 1
class_rank floating = 2
class_rank EvidenceTypeClass.pointer = 3
class_rank aggregate = 4

abbrev pub class_of_semantic : SemanticType → EvidenceTypeClass
class_of_semantic integer = EvidenceTypeClass.integer
class_of_semantic unsigned_integer = EvidenceTypeClass.integer
class_of_semantic float = floating
class_of_semantic double = floating
class_of_semantic pointer = EvidenceTypeClass.pointer
class_of_semantic function_pointer = EvidenceTypeClass.pointer
class_of_semantic vtable_pointer = EvidenceTypeClass.pointer
class_of_semantic array = aggregate
class_of_semantic nested_struct = aggregate
class_of_semantic padding = EvidenceTypeClass.unknown
class_of_semantic SemanticType.unknown = EvidenceTypeClass.unknown

abbrev pub is_positive_size : Option ℕ → Bool
is_positive_size none = false
is_positive_size (some n) = ltb 0 n

abbrev pub size_score : Option ℕ → ℕ
size_score none = 40
size_score (some n) =
    if n == 8 then 65 else if n == 4 then 60 else if n == 2 then 55 else if n == 1 then 50 else 40

-- Both sizes are known and differ: whether the first is the larger.
abbrev pub by_size : {T : Type 0} → Option ℕ → Option ℕ → T → T → T → T
by_size (some m) (some n) a b rest = if not (m == n) then (if ltb n m then a else b) else rest
by_size (some m) none a b rest = rest
by_size none o a b rest = rest

module _ {T : Type 0} (q : TypeQueries T) where
  pub pointee_score : T → ℕ
  pointee_score pointed =
      if q.is_empty pointed
      then 80
      else if q.is_funcptr pointed
      then 95
      else if q.is_ptr pointed
          && not (q.is_empty (q.get_pointed_object pointed))
          && q.is_funcptr (q.get_pointed_object pointed)
      then 90
      else 80

  pub type_priority_score : T → ℕ
  type_priority_score t =
      if q.is_empty t
      then 0
      else if q.is_funcptr t
      then 100
      else if q.is_ptr t
      then pointee_score (q.get_pointed_object t)
      else if q.is_floating t
      then 70
      else size_score (q.get_size t)

  abbrev pub strip_ptr : T → T
  strip_ptr t = if q.is_ptr t then q.get_pointed_object t else t

  unfoldable pub resolve_type_conflict : T → T → T
  unfolding type_priority_score
  resolve_type_conflict a b =
      if q.is_empty a
      then b
      else if q.is_empty b
      then a
      else if not (type_priority_score a == type_priority_score b)
      then (if ltb (type_priority_score b) (type_priority_score a) then a else b)
      else by_size (q.get_size a) (q.get_size b) a b (
          if q.is_funcptr (strip_ptr a) && not (q.is_funcptr (strip_ptr b))
          then a
          else if q.is_funcptr (strip_ptr b) && not (q.is_funcptr (strip_ptr a))
          then b
          else a)

  pub evidence_type_class : FieldAccess T → EvidenceTypeClass
  evidence_type_class x =
      let by_semantic = class_of_semantic x.semantic_type in
      if q.is_empty x.inferred_type
      then by_semantic
      else if q.is_ptr x.inferred_type || q.is_funcptr x.inferred_type || q.is_func x.inferred_type
      then EvidenceTypeClass.pointer
      else if q.is_floating x.inferred_type
      then floating
      else if q.is_struct x.inferred_type
          || q.is_union x.inferred_type
          || q.is_array x.inferred_type
      then aggregate
      else if is_positive_size (q.get_size x.inferred_type)
      then EvidenceTypeClass.integer
      else by_semantic

  unfoldable pub field_access_evidence_compatible : FieldAccess T → FieldAccess T → Bool
  field_access_evidence_compatible x y =
      class_rank (evidence_type_class x) == 0
      || class_rank (evidence_type_class y) == 0
      || class_rank (evidence_type_class x) == class_rank (evidence_type_class y)

  unfoldable pub merge_field_access_evidence : FieldAccess T → FieldAccess T → FieldAccess T
  unfolding resolve_type_conflict add_all_missing
  merge_field_access_evidence d s = record d {
    access_type = merge_access_type d.access_type s.access_type;
    semantic_type =
        if ltb (semantic_priority d.semantic_type) (semantic_priority s.semantic_type)
        then s.semantic_type
        else d.semantic_type;
    inferred_type =
        if not (q.is_empty s.inferred_type)
        then resolve_type_conflict d.inferred_type s.inferred_type
        else d.inferred_type;
    is_vtable_access = if s.is_vtable_access then true else d.is_vtable_access;
    vtable_slot = if s.is_vtable_access then s.vtable_slot else d.vtable_slot;
    nested_info = or_else d.nested_info s.nested_info;
    bitfields = add_all_missing bitfield_eq d.bitfields s.bitfields;
    observed_constants = add_all_missing (λ a b. a == b) d.observed_constants s.observed_constants;
    is_zero_init = d.is_zero_init || s.is_zero_init;
    is_call_argument = d.is_call_argument || s.is_call_argument;
    array_stride_hint = merge_hint d.array_stride_hint s.array_stride_hint;
    base_indirection = merge_hint d.base_indirection s.base_indirection;
  }

  unfoldable pub canonical_field_access_less : FieldAccess T → FieldAccess T → Bool
  canonical_field_access_less x y =
      if not (x.offset ==ℤ y.offset)
      then ltb_ℤ x.offset y.offset
      else if not (x.size == y.size)
      then ltb x.size y.size
      else if not (class_rank (evidence_type_class x) == class_rank (evidence_type_class y))
      then ltb (class_rank (evidence_type_class x)) (class_rank (evidence_type_class y))
      else if not (semantic_rank x.semantic_type == semantic_rank y.semantic_type)
      then ltb (semantic_rank x.semantic_type) (semantic_rank y.semantic_type)
      else if not (x.source_func_ea == y.source_func_ea)
      then ltb x.source_func_ea y.source_func_ea
      else ltb x.insn_ea y.insn_ea
