-- ===== src/Solving/Interner/Exact.antt =====
-- Identities are equal exactly where keys are.
use text.Mathlib.TextEquality.{eq_iff}
use ida_structor.Prelude.{
  ℕ, suc, ◌≤◌, ◌≡◌, ◌≢◌, ◌↔◌, ◌⊎◌, refl, sym, ap, ◌∙◌, subst, true, ◌==◌, none, some, arith,
  Bool-cases, Option-cases, inl, inr,
}
use ida_structor.Solving.Signature.{int_eq_iff}
use ida_structor.Solving.Interner.{
  TypeVariableIdentity, TypeVariableKey, local, memory, named, expression, key_eq, ok, err,
  Registry, emplace, Interner, next_identity, intern, intern_expression, overflow, max_u64,
}

pub key_eq_iff : (k l : TypeVariableKey) → (key_eq k l ≡ true) ↔ (k ≡ l)
key_eq_iff (local f i v) (local g j w) =
    let a = int_eq_iff i j in let b = int_eq_iff v w in ground arith
key_eq_iff (memory b o n) (memory c p m) = let a = int_eq_iff o p in ground arith
key_eq_iff (named f s) (named g t) = let a = eq_iff s t in ground arith
key_eq_iff (expression f m) (expression g n) = ground arith
key_eq_iff (local _ _ _) (memory _ _ _) = ground arith
key_eq_iff (local _ _ _) (named _ _) = ground arith
key_eq_iff (local _ _ _) (expression _ _) = ground arith
key_eq_iff (memory _ _ _) (local _ _ _) = ground arith
key_eq_iff (memory _ _ _) (named _ _) = ground arith
key_eq_iff (memory _ _ _) (expression _ _) = ground arith
key_eq_iff (named _ _) (local _ _ _) = ground arith
key_eq_iff (named _ _) (memory _ _ _) = ground arith
key_eq_iff (named _ _) (expression _ _) = ground arith
key_eq_iff (expression _ _) (local _ _ _) = ground arith
key_eq_iff (expression _ _) (memory _ _ _) = ground arith
key_eq_iff (expression _ _) (named _ _) = ground arith

-- Identities of a registry are numbered up to `n`, and no two keys share one.
pub record IsFaithful (r : Registry) (n : ℕ) : Type 0 where
  pub bound : (k : TypeVariableKey) (v : TypeVariableIdentity) → r k ≡ some v → v.ordinal ≤ n
  pub apart :
      (k l : TypeVariableKey) (v w : TypeVariableIdentity)
      → r k ≡ some v
      → r l ≡ some w
      → v.ordinal ≡ w.ordinal
      → k ≡ l

-- Neither registry confuses two keys, and the two share no identity.
pub record IsInterner (x : Interner) : Type 0 where
  pub persistent : IsFaithful x.persistent x.ordinal
  pub expressions : IsFaithful x.expressions x.ordinal
  pub shared :
      (k l : TypeVariableKey) (v w : TypeVariableIdentity)
      → x.persistent k ≡ some v
      → x.expressions l ≡ some w
      → v.ordinal ≢ w.ordinal

emplace_cases :
    (r : Registry) (k l : TypeVariableKey) (v w : TypeVariableIdentity)
    → emplace r k v l ≡ some w
    → ((l ≡ k) × (v ≡ w)) ⊎ (r l ≡ some w)
emplace_cases r k l v w h = elim (Bool-cases (key_eq l k)) [
  | inl e ↦ inl ((key_eq_iff l k).0 e, ground arith)
  | inr e ↦ inr (ground arith)
]

emplace-IsFaithful :
    (r : Registry) (n : ℕ) (k : TypeVariableKey) (v : TypeVariableIdentity)
    → v.ordinal ≡ suc n
    → IsFaithful r n
    → IsFaithful (emplace r k v) (suc n)
emplace-IsFaithful r n k v e f = record {
  bound = λ l w h. elim (emplace_cases r k l v w h) [
    | inl (s, t) ↦ omega (arith, ap (λ u. u.ordinal) t)
    | inr s ↦ let b = f.bound l w s in omega arith
  ];
  apart = λ l m w u h g o. elim (emplace_cases r k l v w h) [
    | inl (s, t) ↦ elim (emplace_cases r k m v u g) [
      | inl (s', t') ↦ s ∙ sym s'
      | inr s' ↦ let b = f.bound m u s' in let c = ap (λ z. z.ordinal) t in absurd (omega arith)
    ]
    | inr s ↦ elim (emplace_cases r k m v u g) [
      | inl (s', t') ↦
          let b = f.bound l w s in let c = ap (λ z. z.ordinal) t' in absurd (omega arith)
      | inr s' ↦ f.apart l m w u s s' o
    ]
  ];
}

weaken : (r : Registry) (n : ℕ) → IsFaithful r n → IsFaithful r (suc n)
weaken r n f = record { bound = λ k v h. let b = f.bound k v h in omega arith; apart = f.apart }

pub none-IsFaithful : (n : ℕ) → IsFaithful (λ k. none) n
none-IsFaithful n = record {
  bound = λ k v h. absurd (ground arith);
  apart = λ k l v w h g o. absurd (ground arith);
}

abbrev pub added : Interner → TypeVariableKey → Interner
added x k = record x {
  ordinal = suc x.ordinal;
  persistent = emplace x.persistent k (next_identity x);
  persistent_size = suc x.persistent_size;
}

abbrev pub visited : Interner → TypeVariableKey → Interner
visited x k = record x {
  ordinal = suc x.ordinal;
  expressions = emplace x.expressions k (next_identity x);
  expressions_size = suc x.expressions_size;
}

pub intern-cases :
    (x : Interner) (k : TypeVariableKey)
    → ((v : TypeVariableIdentity) × (x.persistent k ≡ some v) × (intern x k ≡ (ok v, x)))
      ⊎ (intern x k ≡ (err overflow, x))
      ⊎ ((x.persistent k ≡ none) × (intern x k ≡ (ok (next_identity x), added x k)))
unfolding intern
intern-cases x k = elim (Option-cases (x.persistent k)) [
  | inr (v, e) ↦ inl (v, e, rw (e, intern))
  | inl e ↦ elim (Bool-cases (x.ordinal == max_u64)) [
    | inl f ↦ inr (inl (rw (e, f, intern)))
    | inr f ↦ inr (inr (e, rw (e, f, intern)))
  ]
]

pub visit-cases :
    (x : Interner) (k : TypeVariableKey)
    → ((intern_expression x k).1 ≡ x)
      ⊎ ((x.expressions k ≡ none) × ((intern_expression x k).1 ≡ visited x k))
unfolding intern_expression
visit-cases x k = elim (Option-cases (x.expressions k)) [
  | inr (v, e) ↦ inl (rw (e, intern_expression))
  | inl e ↦ elim (Bool-cases (x.ordinal == max_u64)) [
    | inl f ↦ inl (rw (e, f, intern_expression))
    | inr f ↦ inr (e, rw (e, f, intern_expression))
  ]
]

pub added-IsInterner : (x : Interner) (k : TypeVariableKey) → IsInterner x → IsInterner (added x k)
added-IsInterner x k w = record {
  persistent = emplace-IsFaithful x.persistent x.ordinal k (next_identity x) refl w.persistent;
  expressions = weaken x.expressions x.ordinal w.expressions;
  shared = λ l m u v h g. elim (emplace_cases x.persistent k l (next_identity x) u h) [
    | inl (s, t) ↦
        let b = w.expressions.bound m v g in let c = ap (λ z. z.ordinal) t in λ o. omega arith
    | inr s ↦ w.shared l m u v s g
  ];
}

pub visited-IsInterner :
    (x : Interner) (k : TypeVariableKey) → IsInterner x → IsInterner (visited x k)
visited-IsInterner x k w = record {
  persistent = weaken x.persistent x.ordinal w.persistent;
  expressions = emplace-IsFaithful x.expressions x.ordinal k (next_identity x) refl w.expressions;
  shared = λ l m u v h g. elim (emplace_cases x.expressions k m (next_identity x) v g) [
    | inl (s, t) ↦
        let b = w.persistent.bound l u h in let c = ap (λ z. z.ordinal) t in λ o. omega arith
    | inr s ↦ w.shared l m u v h s
  ];
}

pub without_expressions :
    (x y : Interner)
    → IsInterner x
    → y.persistent ≡ x.persistent
    → y.ordinal ≡ x.ordinal
    → y.expressions ≡ (λ k. none)
    → IsInterner y
without_expressions x y w p o e = record {
  persistent =
      subst (IsFaithful y.persistent) (sym o)
        (subst (λ r. IsFaithful r x.ordinal) (sym p) w.persistent);
  expressions = subst (λ r. IsFaithful r y.ordinal) (sym e) (none-IsFaithful y.ordinal);
  shared = λ l m u v h g. absurd (none≢some v (sym (ap (λ r. r m) e) ∙ g));
}
  where
    none≢some : (v : TypeVariableIdentity) → none ≡ some v → ⊥
    none≢some v h = ground arith
