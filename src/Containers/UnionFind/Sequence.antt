-- ===== src/Containers/UnionFind/Sequence.antt =====
-- Unions of any elements, one after another.
use ida_structor.Prelude.{
  ℕ, suc, ◌<◌, ◌≡◌, ◌≢◌, ◌↔◌, ◌⊎◌, inl, inr, refl, sym, subst, ◌∙◌, ◌==◌, ==_iff, ltb, Bool-cases,
  List, some, length, arith,
}
use ida_structor.Containers.UnionFind.{Entry, entry_at, unite_roots, unite, same_set}
use ida_structor.Containers.UnionFind.Forest.{IsForest, parent_at, find_lem}
use ida_structor.Containers.UnionFind.Partition.{
  higher, joined_rep, joined_level, joined_rep_iff, link-IsForest,
}

-- The classes after `x` and `y` are joined.
abbrev pub Joined : (ℕ → ℕ) → ℕ → ℕ → ℕ → ℕ → Type 0
Joined rep a b i j = (rep i ≡ rep j) ⊎ ((rep i ≡ a) × (rep j ≡ b)) ⊎ ((rep i ≡ b) × (rep j ≡ a))

-- A forest whose classes are those of `rep` with the classes of `a` and `b` joined.
pub record IsJoined (es : List Entry) (n : ℕ) (rep : ℕ → ℕ) (height a b : ℕ) : Type 0 where
  pub rep' : ℕ → ℕ
  pub level' : ℕ → ℕ
  pub forest : IsForest es rep' level' (suc height)
  pub classes : (i j : ℕ) → (rep' i ≡ rep' j) ↔ Joined rep a b i j
  pub size : length es ≡ n

swapped : (rep : ℕ → ℕ) (a b i j : ℕ) → Joined rep a b i j → Joined rep b a i j
swapped rep a b i j (inl h) = inl h
swapped rep a b i j (inr (inl h)) = inr (inr h)
swapped rep a b i j (inr (inr h)) = inr (inl h)

module _ (rep level : ℕ → ℕ) (height : ℕ) where
  unite_roots_lem :
      (es : List Entry) (a b : ℕ)
      → IsForest es rep level height
      → a < length es
      → b < length es
      → parent_at es a ≡ a
      → parent_at es b ≡ b
      → IsJoined (unite_roots es a b).0 (length es) rep height a b
  unfolding unite_roots
  unite_roots_lem es a b w ha hb ra rb = elim (Bool-cases (a == b)) [
    | inl e ↦ rw e (record {
      rep' = rep;
      level' = level;
      forest = higher es rep level height w;
      classes = λ i j. (λ h. inl h, λ h. same_root i j ((==_iff a b).0 e) h);
      size = refl;
    })
    | inr e ↦
        let d : a ≢ b = λ q. absurd (ground arith) in
        elim (Bool-cases (ltb (entry_at es a).rank (entry_at es b).rank)) [
          | inl f ↦
              let (v, n, r) =
                link-IsForest rep level height b a es w (λ q. d (sym q)) hb ha rb ra in
              rw (e, f)
                (record {
                  rep' = joined_rep rep b a;
                  level' = joined_level rep level a;
                  forest = v;
                  classes = λ i j.
                      let c = joined_rep_iff rep b a i j in
                      (λ h. swapped rep b a i j (c.0 h), λ h. c.1 (swapped rep a b i j h));
                  size = n;
                })
          | inr f ↦
              let (v, n, r) = link-IsForest rep level height a b es w d ha hb ra rb in
              rw (e, f)
                (record {
                  rep' = joined_rep rep a b;
                  level' = joined_level rep level b;
                  forest = v;
                  classes = λ i j. joined_rep_iff rep a b i j;
                  size = n;
                })
        ]
  ]
    where
      same_root : (i j : ℕ) → a ≡ b → Joined rep a b i j → rep i ≡ rep j
      same_root i j e h = ground arith

  at_bottom :
      (es : List Entry) (i : ℕ)
      → IsForest es rep level height
      → i < length es
      → level i ≡ 0
      → parent_at es i ≡ i
  at_bottom es i w h l = elim (Bool-cases (parent_at es i == i)) [
    | inl e ↦ (==_iff (parent_at es i) i).0 e
    | inr e ↦ let f = w.falls i h (λ q. absurd (ground arith)) in absurd (omega arith)
  ]

  -- With more fuel than the height, `same_set` ends, tells whether the classes are the same, and
  -- leaves them as they are.
  pub same_set_lem :
      (f : ℕ) (es : List Entry) (x y : ℕ)
      → IsForest es rep level height
      → x < length es
      → y < length es
      → height < f
      → (fs : List Entry) × (same_set f es x y ≡ some (fs, rep x == rep y))
        × IsForest fs rep level height
        × (length fs ≡ length es)
  unfolding same_set
  same_set_lem f es x y w hx hy l =
      let lx = w.low x hx in
      let (fs, e, v, n, o, d) = find_lem rep level height f es x w hx (omega arith) in
      let hy' : y < length fs = rw n hy in
      let ly = w.low y hy in
      let (gs, e', v', n', o', d') = find_lem rep level height f fs y v hy' (omega arith) in
      (gs, rw (e, e', same_set) refl, v', n' ∙ n)

  -- With more fuel than the height, `unite` ends, and joins the classes of its two elements and
  -- no others.
  pub unite_lem :
      (f : ℕ) (es : List Entry) (x y : ℕ)
      → IsForest es rep level height
      → x < length es
      → y < length es
      → height < f
      → (fs : List Entry) × (r : ℕ) × (unite f es x y ≡ some (fs, r))
        × IsJoined fs (length es) rep height (rep x) (rep y)
  unfolding unite
  unite_lem f es x y w hx hy l =
      let lx = w.low x hx in
      let (fs, e, v, n, o, d) = find_lem rep level height f es x w hx (omega arith) in
      let hy' : y < length fs = rw n hy in
      let ly = w.low y hy in
      let (gs, e', v', n', o', d') = find_lem rep level height f fs y v hy' (omega arith) in
      let j =
        unite_roots_lem gs (rep x) (rep y) v' (rw (n', n) d) (rw n' d')
          (at_bottom gs (rep x) v' (rw (n', n) d) (v.root (rep x) (rw n d) o).1) o' in
      (
        (unite_roots gs (rep x) (rep y)).0,
        (unite_roots gs (rep x) (rep y)).1,
        rw (e, e', unite) refl,
        subst (λ m. IsJoined (unite_roots gs (rep x) (rep y)).0 m rep height (rep x) (rep y))
            (n' ∙ n) j,
      )
