-- ===== src/Containers/UnionFind/Forest.antt =====
-- The entries are a forest, with the classes of a partition as its trees.
use ida_structor.Prelude.{
  ℕ, zero, suc, ◌+◌, ◌%◌, ◌^◌, ◌≤◌, ◌<◌, ◌≡◌, ◌≢◌, inl, inr, refl, sym, ap, ◌∙◌, Bool, true, false,
  ◌==◌, ==_iff, if◌then◌else◌, Bool-cases, List, [], ◌∷◌, some, length, set, length-set, arith,
}
use ida_structor.Containers.UnionFind.{Entry, entry_at, set_parent, raise_rank, find}

abbrev pub parent_at : List Entry → ℕ → ℕ
parent_at es i = (entry_at es i).parent

entry_at-set :
    (es : List Entry) (i j : ℕ) (e : Entry)
    → i < length es
    → entry_at (set es i e) j ≡ (if i == j then e else entry_at es j)
entry_at-set [] i j e h = absurd (omega arith)
entry_at-set (x ∷ xs) zero zero e h = refl
entry_at-set (x ∷ xs) zero (suc j) e h = ground arith
entry_at-set (x ∷ xs) (suc i) zero e h = ground arith
entry_at-set (x ∷ xs) (suc i) (suc j) e h = ground (arith, entry_at-set xs i j e)

-- `rep` gives each element the root of its tree, and `level` falls towards it.
pub record IsForest (es : List Entry) (rep level : ℕ → ℕ) (height : ℕ) : Type 0 where
  pub fits : length es ≤ 2 ^ 32
  pub inside : (i : ℕ) → i < length es → parent_at es i < length es
  pub kept : (i : ℕ) → i < length es → rep (parent_at es i) ≡ rep i
  pub root : (i : ℕ) → i < length es → parent_at es i ≡ i → (rep i ≡ i) × (level i ≡ 0)
  pub falls : (i : ℕ) → i < length es → parent_at es i ≢ i → level (parent_at es i) < level i
  pub low : (i : ℕ) → i < length es → level i ≤ height

module _ (es : List Entry) where
  pub parent-set_parent :
      (i p j : ℕ)
      → i < length es
      → p < 2 ^ 32
      → parent_at (set_parent es i p) j ≡ (if i == j then p else parent_at es j)
  unfolding set_parent
  parent-set_parent i p j h g =
      let s = entry_at-set es i j (record (entry_at es i) { parent = p % 2 ^ 32 }) h in
      let m : p % 2 ^ 32 ≡ p = omega arith in ground arith

  pub length-set_parent : (i p : ℕ) → length (set_parent es i p) ≡ length es
  unfolding set_parent
  length-set_parent i p = length-set es i (record (entry_at es i) { parent = p % 2 ^ 32 })

  pub parent-raise_rank : (i j : ℕ) → i < length es → parent_at (raise_rank es i) j ≡ parent_at es j
  unfolding raise_rank
  parent-raise_rank i j h =
      let s =
        entry_at-set es i j (record (entry_at es i) { rank = ((entry_at es i).rank + 1) % 2 ^ 16 })
          h in
      ap (λ (x : Entry). x.parent) s ∙ pick (i == j) (==_iff i j).0
    where
      pick :
          (b : Bool)
          → (b ≡ true → i ≡ j)
          → (if b
              then (record (entry_at es i) { rank = ((entry_at es i).rank + 1) % 2 ^ 16 })
              else entry_at es j).parent
            ≡ parent_at es j
      pick true h = ap (parent_at es) (h refl)
      pick false h = refl

  pub length-raise_rank : (i : ℕ) → length (raise_rank es i) ≡ length es
  unfolding raise_rank
  length-raise_rank i =
      length-set es i (record (entry_at es i) { rank = ((entry_at es i).rank + 1) % 2 ^ 16 })

module _ (rep level : ℕ → ℕ) (height : ℕ) where
  -- Halving a path leaves the partition and the levels.
  halve-IsForest :
      (es : List Entry) (i : ℕ)
      → IsForest es rep level height
      → i < length es
      → parent_at es i ≢ i
      → IsForest (set_parent es i (parent_at es (parent_at es i))) rep level height
        × (level (parent_at es (parent_at es i)) < level i)
  halve-IsForest es i w h n =
      let p = w.inside i h in
      let up = w.inside (parent_at es i) p in
      let below = down (parent_at es i) p (w.falls i h n) in
      let at_ = λ (j : ℕ).
        parent-set_parent es i (parent_at es (parent_at es i)) j h (omega (arith, w.fits)) in
      let len = length-set_parent es i (parent_at es (parent_at es i)) in
      (
        record {
          fits = rw len w.fits;
          inside = λ j g. rw (at_ j, len) (inside_at j (i == j) up (w.inside j (rw (← len) g)));
          kept = λ j g. rw (at_ j) (
              kept_at j (i == j) (==_iff i j).0 (w.kept (parent_at es i) p ∙ w.kept i h)
                (w.kept j (rw (← len) g)));
          root = λ j g r.
              root_at j (i == j) (==_iff i j).0 below (sym (at_ j) ∙ r) (w.root j (rw (← len) g));
          falls = λ j g r. rw (at_ j) (
              falls_at j (i == j) (==_iff i j).0 below (λ e. r (at_ j ∙ e))
                (w.falls j (rw (← len) g)));
          low = λ j g. w.low j (rw (← len) g);
        },
        below,
      )
    where
      down : (p : ℕ) → p < length es → level p < level i → level (parent_at es p) < level i
      down p h l = elim (Bool-cases (parent_at es p == p)) [
        | inl e ↦ rw ((==_iff (parent_at es p) p).0 e) l
        | inr e ↦ let f = w.falls p h (λ q. absurd (ground arith)) in omega arith
      ]

      inside_at :
          (j : ℕ) (b : Bool)
          → parent_at es (parent_at es i) < length es
          → parent_at es j < length es
          → (if b then parent_at es (parent_at es i) else parent_at es j) < length es
      inside_at j true g k = g
      inside_at j false g k = k

      kept_at :
          (j : ℕ) (b : Bool)
          → (b ≡ true → i ≡ j)
          → rep (parent_at es (parent_at es i)) ≡ rep i
          → rep (parent_at es j) ≡ rep j
          → rep (if b then parent_at es (parent_at es i) else parent_at es j) ≡ rep j
      kept_at j true e g k = g ∙ ap rep (e refl)
      kept_at j false e g k = k

      root_at :
          (j : ℕ) (b : Bool)
          → (b ≡ true → i ≡ j)
          → level (parent_at es (parent_at es i)) < level i
          → (if b then parent_at es (parent_at es i) else parent_at es j) ≡ j
          → (parent_at es j ≡ j → (rep j ≡ j) × (level j ≡ 0))
          → (rep j ≡ j) × (level j ≡ 0)
      root_at j true e l r k = let same = ap level (r ∙ sym (e refl)) in absurd (omega arith)
      root_at j false e l r k = k r

      falls_at :
          (j : ℕ) (b : Bool)
          → (b ≡ true → i ≡ j)
          → level (parent_at es (parent_at es i)) < level i
          → ((if b then parent_at es (parent_at es i) else parent_at es j) ≢ j)
          → (parent_at es j ≢ j → level (parent_at es j) < level j)
          → level (if b then parent_at es (parent_at es i) else parent_at es j) < level j
      falls_at j true e l r k = let same = ap level (e refl) in omega arith
      falls_at j false e l r k = k r

  -- With more fuel than the level the loop ends at the representative, and the partition stays.
  pub find_lem :
      (f : ℕ) (es : List Entry) (i : ℕ)
      → IsForest es rep level height
      → i < length es
      → level i < f
      → (fs : List Entry) × (find f es i ≡ some (fs, rep i))
        × IsForest fs rep level height
        × (length fs ≡ length es)
        × (parent_at fs (rep i) ≡ rep i)
        × (rep i < length es)
  unfolding find
  find_lem zero es i w h l = absurd (omega arith)
  find_lem (suc f) es i w h l = elim (Bool-cases (parent_at es i == i)) [
    | inl e ↦
        let own = (==_iff (parent_at es i) i).0 e in
        let r = (w.root i h own).0 in (es, rw (e, r) refl, w, refl, rw r own, rw r h)
    | inr e ↦
        let n : parent_at es i ≢ i = λ q. absurd (ground arith) in
        let (v, below) = halve-IsForest es i w h n in
        let up = parent_at es (parent_at es i) in
        let len = length-set_parent es i up in
        let inside = w.inside (parent_at es i) (w.inside i h) in
        let same : rep up ≡ rep i = w.kept (parent_at es i) (w.inside i h) ∙ w.kept i h in
        let (fs, r, u, m, o, d) =
          find_lem f (set_parent es i up) up v (rw len inside) (omega arith) in
        (
          fs,
          rw e r ∙ ap (λ x. some (fs, x)) same,
          u,
          m ∙ len,
          ap (parent_at fs) (sym same) ∙ o ∙ same,
          rw (← same) (rw len at d),
        )
  ]
