-- ===== src/Types/Lattice/Least.antt =====
-- On data types the join is the least upper bound.
use ida_structor.Prelude.{
  ◌≡◌, sym, true, false, ◌||◌, ◌==◌, ==_iff, inl, inr, arith, Bool-cases, ◌∙◌,
}
use ida_structor.Types.Base.{BaseType}
use ida_structor.Types.Inferred.{InferredType, base, is_unknown, is_bottom, unknown}
use ida_structor.Types.Subtype.{base_subtype, is_subtype}
use ida_structor.Types.Subtype.Shapes.{base_subtype_unknown, bottom_not_unknown}
use ida_structor.Types.Subtype.Rules.{
  Sub, from_bottom, to_unknown, of_base, of_pointer, of_function, of_array, of_structure, of_sum,
  no_child, child,
}
use ida_structor.Types.Lattice.Scalars.{Apart, above_apart}
use ida_structor.Types.Lattice.Meet.{IsData}
use ida_structor.Types.Lattice.Apart.{not_Sub, apart_not_bottom}
use ida_structor.Types.Lattice.Spec.{join, join_or, join_kinds, join_lem}

Sub-unknown : {a c : InferredType} → is_unknown a ≡ true → Sub a c → is_unknown c ≡ true
Sub-unknown {a} e (from_bottom f) = absurd (bottom_not_unknown a e f)
Sub-unknown e (to_unknown f) = f
Sub-unknown e (of_base {x} {y} h) = base_subtype_unknown x y h e
Sub-unknown e (of_pointer h) = cc
Sub-unknown e (of_function h k) = cc
Sub-unknown e (of_array h k) = cc
Sub-unknown e (of_structure h) = cc
Sub-unknown e (of_sum h) = cc

either_unknown :
    (a b c : InferredType) → is_unknown a || is_unknown b ≡ true → Sub a c → Sub b c → Sub unknown c
either_unknown a b c e h k = elim (Bool-cases (is_unknown a)) [
  | inl u ↦ to_unknown (Sub-unknown u h)
  | inr u ↦ to_unknown (Sub-unknown (ground arith) k)
]

join_or_least :
    (a b c inner : InferredType)
    → Sub a c
    → Sub b c
    → (¬ Sub a b → ¬ Sub b a → Sub inner c)
    → Sub (join_or a b inner) c
join_or_least a b c inner h k g = elim (Bool-cases (is_unknown a || is_unknown b)) [
  | inl e ↦ rw e (either_unknown a b c e h k)
  | inr e ↦ elim (Bool-cases (is_bottom a)) [
    | inl u ↦ rw (e, u) k
    | inr u ↦ elim (Bool-cases (is_bottom b)) [
      | inl v ↦ rw (e, u, v) h
      | inr v ↦ elim (Bool-cases (is_subtype a b)) [
        | inl s ↦ rw (e, u, v, s) k
        | inr s ↦ elim (Bool-cases (is_subtype b a)) [
          | inl t ↦ rw (e, u, v, s, t) h
          | inr t ↦ rw (e, u, v, s, t) (g (not_Sub a b s) (not_Sub b a t))
        ]
      ]
    ]
  ]
]

bases_apart : (x y : BaseType) → ¬ Sub (base x) (base y) → ¬ Sub (base y) (base x) → Apart x y
bases_apart x y h k = (no_base x y h, no_base y x k)
  where
    no_base : (u v : BaseType) → ¬ Sub (base u) (base v) → base_subtype u v ≡ false
    no_base u v g = elim (Bool-cases (base_subtype u v)) [
      | inl e ↦ absurd (g (of_base e))
      | inr e ↦ e
    ]

join_kinds_least :
    {a b c : InferredType}
    → IsData a
    → IsData b
    → ¬ Sub a b
    → ¬ Sub b a
    → Sub a c
    → Sub b c
    → Sub (join_kinds a b) c
unfolding join_kinds
join_kinds_least v w h k (from_bottom e) _ = absurd (h (from_bottom e))
join_kinds_least v w h k (to_unknown e) _ = to_unknown e
join_kinds_least v w h k _ (from_bottom e) = absurd (k (from_bottom e))
join_kinds_least v w h k _ (to_unknown e) = to_unknown e
join_kinds_least v w h k (of_base {x} {y = z} l) (of_base {x = y} m) =
    let n = apart_not_bottom (base x) (base y) h k in
    absurd (above_apart x y z (bases_apart x y h k) n.0 n.1 l m)
join_kinds_least v w h k (of_pointer no_child) (of_pointer no_child) =
    absurd (h (of_pointer no_child))
join_kinds_least v w h k (of_pointer (child {a = p} {b = r} l)) (of_pointer (child {a = q} m)) =
    of_pointer (
      child (
        rw (join_lem p q)
          (join_or_least p q r (join_kinds p q) l m (λ hp kp. join_kinds_least v w hp kp l m))))
join_kinds_least v w h k (of_array e no_child) (of_array f no_child) =
    absurd (h (of_array (e ∙ sym f) no_child))
join_kinds_least v w h k (of_array {m} {n = i} e (child {a = p} {b = r} l))
      (of_array {m = n} f (child {a = q} o)) =
    let g : (m == n) ≡ true = (==_iff m n).1 (e ∙ sym f) in
    rw (g, join_lem p q)
      (of_array e (
        child (join_or_least p q r (join_kinds p q) l o (λ hp kp. join_kinds_least v w hp kp l o))))
join_kinds_least v w h k (of_structure e) (of_structure f) = absurd (h (of_structure (e ∙ sym f)))
join_kinds_least v w h k (of_function l m) _ = absurd v
join_kinds_least v w h k (of_sum l) _ = absurd v

pub join_least : (a b c : InferredType) → IsData a → IsData b → Sub a c → Sub b c → Sub (join a b) c
join_least a b c v w h k =
    rw (join_lem a b)
      (join_or_least a b c (join_kinds a b) h k (λ ha kb. join_kinds_least v w ha kb h k))
