-- ===== src/Solving/Interner/Stable.antt =====
-- Identities over a sequence of calls.
use ida_structor.Prelude.{
  ℕ, ◌≡◌, ◌↔◌, refl, sym, ap, ◌∙◌, subst, not, ◌==◌, none, some, arith, Bool-cases, inl, inr,
}
use ida_structor.Solving.Interner.{
  TypeVariableIdentity, TypeVariableKey, expression, key_eq, ok, err, emplace, Interner,
  new_interner, next_identity, intern, intern_expression, begin_expression_pass,
  end_expression_pass, expression_variable, InternerStep, interns, begins, ends, visits, Calls,
  stop, next, max_u64,
}
use ida_structor.Solving.Interner.Exact.{
  IsInterner, key_eq_iff, added, intern-cases, visit-cases, added-IsInterner, visited-IsInterner,
  without_expressions, none-IsFaithful,
}

-- The later interner is well formed and finds what the earlier one found.
record Extends (x y : Interner) : Type 0 where
  well_formed : IsInterner y
  keeps :
      (k : TypeVariableKey) (v : TypeVariableIdentity)
      → x.persistent k ≡ some v
      → y.persistent k ≡ some v

same : (x y : Interner) → IsInterner x → y ≡ x → Extends x y
same x y w e = record {
  well_formed = subst IsInterner (sym e) w;
  keeps = λ k v h. ap (λ z. z.persistent k) e ∙ h;
}

emplace_keeps :
    (x : Interner) (key : TypeVariableKey)
    → x.persistent key ≡ none
    → (k : TypeVariableKey) (v : TypeVariableIdentity) → x.persistent k ≡ some v
    → emplace x.persistent key (next_identity x) k ≡ some v
emplace_keeps x key n k v h = elim (Bool-cases (key_eq k key)) [
  | inl e ↦ absurd (differ (sym (ap x.persistent ((key_eq_iff k key).0 e) ∙ n) ∙ h))
  | inr e ↦ rw e h
]
  where
    differ : none ≡ some v → ⊥
    differ h = ground arith

cleared :
    (x y : Interner)
    → IsInterner x
    → y.persistent ≡ x.persistent
    → y.ordinal ≡ x.ordinal
    → y.expressions ≡ (λ k. none)
    → Extends x y
cleared x y w p o e = record {
  well_formed = without_expressions x y w p o e;
  keeps = λ k v h. ap (λ r. r k) p ∙ h;
}

begin-cases : (x : Interner) → IsInterner x → Extends x (begin_expression_pass x).1
unfolding begin_expression_pass
begin-cases x w = elim (Bool-cases (x.generation == max_u64)) [
  | inl e ↦ rw (e, begin_expression_pass) (same x x w refl)
  | inr e ↦ rw (e, begin_expression_pass) (cleared x _ w refl refl refl)
]

visit-Extends :
    (x : Interner) (k : TypeVariableKey) → IsInterner x → Extends x (intern_expression x k).1
visit-Extends x k w = elim (visit-cases x k) [
  | inl e ↦ same x _ w e
  | inr (e, f) ↦
      subst (Extends x) (sym f)
        (record { well_formed = visited-IsInterner x k w; keeps = λ l v h. h })
]

expression-Extends :
    (x : Interner) (node : ℕ) → IsInterner x → Extends x (expression_variable x node).1
unfolding expression_variable
expression-Extends x node w = elim (Bool-cases (node == 0)) [
  | inl e ↦ rw (e, expression_variable) (same x x w refl)
  | inr e ↦ elim (Bool-cases (not x.expression_pass_active)) [
    | inl f ↦ rw (e, f, expression_variable) (same x x w refl)
    | inr f ↦ rw (e, f, expression_variable) (visit-Extends x (expression x.generation node) w)
  ]
]

intern-Extends : (x : Interner) (k : TypeVariableKey) → IsInterner x → Extends x (intern x k).1
intern-Extends x k w = elim (intern-cases x k) [
  | inl (v, e, f) ↦ same x _ w (ap (λ r. r.1) f)
  | inr (inl f) ↦ same x _ w (ap (λ r. r.1) f)
  | inr (inr (e, f)) ↦
      subst (λ r. Extends x r.1) (sym f)
        (record { well_formed = added-IsInterner x k w; keeps = emplace_keeps x k e })
]

step-Extends : {x y : Interner} → InternerStep x y → IsInterner x → Extends x y
unfolding end_expression_pass
step-Extends (interns x k) w = intern-Extends x k w
step-Extends (begins x) w = begin-cases x w
step-Extends (ends x) w = cleared x _ w refl refl refl
step-Extends (visits x node) w = expression-Extends x node w

calls-Extends : {x y : Interner} → Calls x y → IsInterner x → Extends x y
calls-Extends (stop x) w = same x x w refl
calls-Extends (next s c) w =
    let a = step-Extends s w in
    let b = calls-Extends c a.well_formed in
    record { well_formed = b.well_formed; keeps = λ k v h. b.keeps k v (a.keeps k v h) }

-- Over any calls, failed ones and expression passes included, no two keys come to share an
-- identity, within a registry or across the two.
pub Calls-IsInterner : {x y : Interner} → Calls x y → IsInterner x → IsInterner y
Calls-IsInterner c w = (calls-Extends c w).well_formed

pub new_interner-IsInterner : (token scope : ℕ) → IsInterner (new_interner token scope)
new_interner-IsInterner token scope = record {
  persistent = none-IsFaithful 0;
  expressions = none-IsFaithful 0;
  shared = λ k l v w h g. absurd (ground arith);
}

ok_inj : {u v : TypeVariableIdentity} → ok u ≡ ok v → u ≡ v
ok_inj {u} h = ap (λ r. elim r [ ok w ↦ w | err e ↦ u ]) h

found_in :
    (x y z : Interner) (k : TypeVariableKey) (u v : TypeVariableIdentity)
    → intern x k ≡ (ok u, z)
    → intern x k ≡ (ok v, y)
    → z.persistent k ≡ some u
    → y.persistent k ≡ some v
found_in x y z k u v f h g =
    let e = sym f ∙ h in
    ap (λ w. w.persistent k) (sym (ap (λ r. r.1) e)) ∙ g ∙ ap some (ok_inj (ap (λ r. r.0) e))

interned :
    (x y : Interner) (k : TypeVariableKey) (v : TypeVariableIdentity)
    → intern x k ≡ (ok v, y)
    → y.persistent k ≡ some v
interned x y k v h = elim (intern-cases x k) [
  | inl (u, e, f) ↦ found_in x y x k u v f h e
  | inr (inl f) ↦ absurd (ground (arith, ap (λ r. r.0) (sym f ∙ h)))
  | inr (inr (e, f)) ↦
      found_in x y (added x k) k (next_identity x) v f h (rw ((key_eq_iff k k).1 refl))
]

-- Two identities that the interner returns for local, memory or named variables, at any two times
-- with any calls between, are equal exactly where the keys are equal.
pub same_identity_iff :
    (x y z t : Interner) (k l : TypeVariableKey) (v w : TypeVariableIdentity)
    → IsInterner x
    → intern x k ≡ (ok v, y)
    → Calls y z
    → intern z l ≡ (ok w, t)
    → (v ≡ w) ↔ (k ≡ l)
same_identity_iff x y z t k l v w i h c g =
    let a = subst IsInterner (ap (λ r. r.1) h) (intern-Extends x k i).well_formed in
    let b = calls-Extends c a in
    let d = intern-Extends z l b.well_formed in
    let kept = d.keeps k v (b.keeps k v (interned x y k v h)) in
    let e : t.persistent k ≡ some v = ap (λ r. r.1.persistent k) (sym g) ∙ kept in
    let f = interned z t l w g in
    let u = subst IsInterner (ap (λ r. r.1) g) d.well_formed in
    (
      λ s. u.persistent.apart k l v w e f (ap (λ r. r.ordinal) s),
      λ s. some_inj (sym e ∙ ap t.persistent s ∙ f),
    )
  where
    some_inj : some v ≡ some w → v ≡ w
    some_inj h = ap (λ o. elim o [ some r ↦ r | none ↦ v ]) h
