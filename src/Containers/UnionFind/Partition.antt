-- ===== src/Containers/UnionFind/Partition.antt =====
-- Uniting joins two classes, and a sequence of unions makes the partition that it generates.
use ida_structor.Prelude.{
  ℕ, suc, ◌≤◌, ◌<◌, ◌≡◌, ◌≢◌, ◌↔◌, ◌⊎◌, inl, inr, refl, sym, ap, ◌∙◌, Bool, true, false, ◌==◌,
  ==_iff, if◌then◌else◌, Bool-cases, List, length, arith,
}
use ida_structor.Containers.UnionFind.{Entry, entry_at, set_parent, raise_rank, link}
use ida_structor.Containers.UnionFind.Forest.{
  IsForest, parent_at, parent-set_parent, length-set_parent, parent-raise_rank, length-raise_rank,
}

same_parents :
    (es fs : List Entry) (rep level : ℕ → ℕ) (height : ℕ)
    → ((j : ℕ) → parent_at fs j ≡ parent_at es j)
    → length fs ≡ length es
    → IsForest es rep level height
    → IsForest fs rep level height
same_parents es fs rep level height p n w = record {
  fits = rw n w.fits;
  inside = λ j g. rw (p j, n) (w.inside j (rw (← n) g));
  kept = λ j g. rw (p j) (w.kept j (rw (← n) g));
  root = λ j g r. w.root j (rw (← n) g) (sym (p j) ∙ r);
  falls = λ j g r. rw (p j) (w.falls j (rw (← n) g) (λ e. r (p j ∙ e)));
  low = λ j g. w.low j (rw (← n) g);
}

pub higher :
    (es : List Entry) (rep level : ℕ → ℕ) (height : ℕ)
    → IsForest es rep level height
    → IsForest es rep level (suc height)
higher es rep level height w = record {
  fits = w.fits;
  inside = w.inside;
  kept = w.kept;
  root = w.root;
  falls = w.falls;
  low = λ j g. let l = w.low j g in omega arith;
}

-- Below `x`, what was below `y`.
abbrev pub joined_rep : (ℕ → ℕ) → ℕ → ℕ → ℕ → ℕ
joined_rep rep x y i = if rep i == y then x else rep i

abbrev pub joined_level : (ℕ → ℕ) → (ℕ → ℕ) → ℕ → ℕ → ℕ
joined_level rep level y i = if rep i == y then suc (level i) else level i

module _ (rep level : ℕ → ℕ) (height x y : ℕ) where
  attach-IsForest :
      (es : List Entry)
      → IsForest es rep level height
      → x ≢ y
      → x < length es
      → y < length es
      → parent_at es x ≡ x
      → parent_at es y ≡ y
      → IsForest (set_parent es y x) (joined_rep rep x y) (joined_level rep level y) (suc height)
  attach-IsForest es w d hx hy rx ry =
      let at_ = λ (j : ℕ). parent-set_parent es y x j hy (omega (arith, w.fits)) in
      let len = length-set_parent es y x in
      let ex = w.root x hx rx in
      let ey = w.root y hy ry in
      record {
        fits = rw len w.fits;
        inside = λ j g. rw (at_ j, len) (inside_at j (y == j) (w.inside j (rw (← len) g)));
        kept = λ j g.
            rw (at_ j) (kept_at j (y == j) (==_iff y j).0 ex.0 ey.0 (w.kept j (rw (← len) g)));
        root = λ j g r.
            root_at j (y == j) (==_iff y j).0 (==_iff y j).1 (sym (at_ j) ∙ r)
              (w.root j (rw (← len) g));
        falls = λ j g r. rw (at_ j) (
            falls_at j (y == j) (==_iff y j).0 ex ey.0 (λ e. r (at_ j ∙ e))
              (w.kept j (rw (← len) g)) (w.falls j (rw (← len) g)));
        low = λ j g. low_at j (w.low j (rw (← len) g));
      }
    where
      inside_at :
          (j : ℕ) (b : Bool)
          → parent_at es j < length es
          → (if b then x else parent_at es j) < length es
      inside_at j true k = hx
      inside_at j false k = k

      kept_at :
          (j : ℕ) (b : Bool)
          → (b ≡ true → y ≡ j)
          → rep x ≡ x
          → rep y ≡ y
          → rep (parent_at es j) ≡ rep j
          → joined_rep rep x y (if b then x else parent_at es j) ≡ joined_rep rep x y j
      kept_at j true e a b k = let f = ap rep (e refl) in ground arith
      kept_at j false e a b k = rw k refl

      root_at :
          (j : ℕ) (b : Bool)
          → (b ≡ true → y ≡ j)
          → (y ≡ j → b ≡ true)
          → (if b then x else parent_at es j) ≡ j
          → (parent_at es j ≡ j → (rep j ≡ j) × (level j ≡ 0))
          → (joined_rep rep x y j ≡ j) × (joined_level rep level y j ≡ 0)
      root_at j true e f r k = absurd (d (r ∙ sym (e refl)))
      root_at j false e f r k =
          let (a, b) = k r in
          elim (Bool-cases (rep j == y)) [
            | inl t ↦ let u = f (sym ((==_iff (rep j) y).0 t) ∙ a) in absurd (ground arith)
            | inr t ↦ (rw t a, rw t b)
          ]

      falls_at :
          (j : ℕ) (b : Bool)
          → (b ≡ true → y ≡ j)
          → (rep x ≡ x) × (level x ≡ 0)
          → rep y ≡ y
          → ((if b then x else parent_at es j) ≢ j)
          → rep (parent_at es j) ≡ rep j
          → (parent_at es j ≢ j → level (parent_at es j) < level j)
          → joined_level rep level y (if b then x else parent_at es j) < joined_level rep level y j
      falls_at j true e a b r k l = let f = ap rep (e refl) in ground arith
      falls_at j false e a b r k l =
          let m = l r in
          elim (Bool-cases (rep j == y)) [ inl t ↦ rw (k, t) (omega arith) | inr t ↦ rw (k, t) m ]

      low_at : (j : ℕ) → level j ≤ height → joined_level rep level y j ≤ suc height
      low_at j l = ground arith

  pub link-IsForest :
      (es : List Entry)
      → IsForest es rep level height
      → x ≢ y
      → x < length es
      → y < length es
      → parent_at es x ≡ x
      → parent_at es y ≡ y
      → IsForest (link es x y).0 (joined_rep rep x y) (joined_level rep level y) (suc height)
        × (length (link es x y).0 ≡ length es)
        × ((link es x y).1 ≡ x)
  unfolding link
  link-IsForest es w d hx hy rx ry =
      let v = attach-IsForest es w d hx hy rx ry in
      let fs = set_parent es y x in
      let len = length-set_parent es y x in
      let hx' : x < length fs = rw len hx in
      elim (Bool-cases ((entry_at fs x).rank == (entry_at fs y).rank)) [
        | inl e ↦ rw e (
          same_parents fs (raise_rank fs x) (joined_rep rep x y) (joined_level rep level y)
              (suc height) (λ j. parent-raise_rank fs x j hx') (length-raise_rank fs x) v,
          length-raise_rank fs x ∙ len,
          refl,
        )
        | inr e ↦ rw e (v, len, refl)
      ]

pub joined_rep_iff :
    (rep : ℕ → ℕ) (x y i j : ℕ)
    → (joined_rep rep x y i ≡ joined_rep rep x y j)
      ↔ ((rep i ≡ rep j) ⊎ ((rep i ≡ x) × (rep j ≡ y)) ⊎ ((rep i ≡ y) × (rep j ≡ x)))
joined_rep_iff rep x y i j = elim (Bool-cases (rep i == y)) [
  | inl a ↦ elim (Bool-cases (rep j == y)) [
    | inl b ↦ rw (a, b) (λ h. inl (ground arith), λ h. refl)
    | inr b ↦ rw (a, b) (λ h. inr (inr (ground arith, sym h)), λ h. ground arith)
  ]
  | inr a ↦ elim (Bool-cases (rep j == y)) [
    | inl b ↦ rw (a, b) (λ h. inr (inl (h, ground arith)), λ h. ground arith)
    | inr b ↦ rw (a, b) (λ h. inl h, λ h. ground arith)
  ]
]
