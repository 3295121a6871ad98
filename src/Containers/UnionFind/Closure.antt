-- ===== src/Containers/UnionFind/Closure.antt =====
-- A sequence of unions makes the partition that its pairs generate.
use ida_structor.Prelude.{
  ℕ, ◌^◌, ◌≤◌, ◌<◌, ◌≡◌, ◌↔◌, inl, inr, refl, sym, ap, subst, ◌∙◌, Bool, true, ◌==◌, ==_iff, List,
  [], ◌∷◌, Option, none, some, length, arith,
}
use ida_structor.Prelude.Sorting.{In, Each}
use ida_structor.Containers.UnionFind.{Entry, unite, same_set}
use ida_structor.Containers.UnionFind.Forest.{IsForest, parent_at}
use ida_structor.Containers.UnionFind.Sequence.{Joined, same_set_lem, unite_lem}

-- The equivalence that pairs generate.
pub data Linked (pairs : List (ℕ × ℕ)) : ℕ → ℕ → Type 0 where
  given : {i j : ℕ} → In (i, j) pairs → Linked pairs i j
  same : {i : ℕ} → Linked pairs i i
  flip : {i j : ℕ} → Linked pairs i j → Linked pairs j i
  chain : {i j k : ℕ} → Linked pairs i j → Linked pairs j k → Linked pairs i k

Linked-more : (p : ℕ × ℕ) (ps : List (ℕ × ℕ)) {i j : ℕ} → Linked ps i j → Linked (p ∷ ps) i j
Linked-more p ps (given h) = given (inr h)
Linked-more p ps same = same
Linked-more p ps (flip l) = flip (Linked-more p ps l)
Linked-more p ps (chain l m) = chain (Linked-more p ps l) (Linked-more p ps m)

-- The unions of the pairs, the last of the list first.
unfoldable pub unite_all : ℕ → List Entry → List (ℕ × ℕ) → Option (List Entry)
unfolding unite
unite_all f es [] = some es
unite_all f es ((x, y) ∷ ps) = elim (unite_all f es ps) [
  | none ↦ none
  | some fs ↦ elim (unite f fs x y) [ none ↦ none | some (gs, r) ↦ some gs ]
]

-- The classes are those that the pairs generate.
pub record IsGenerated (es : List Entry) (n : ℕ) (pairs : List (ℕ × ℕ)) : Type 0 where
  pub rep : ℕ → ℕ
  pub level : ℕ → ℕ
  pub forest : IsForest es rep level (length pairs)
  pub size : length es ≡ n
  pub sound : (i j : ℕ) → rep i ≡ rep j → Linked pairs i j
  pub complete : (i j : ℕ) → Linked pairs i j → rep i ≡ rep j

Linked_after :
    (rep rep' : ℕ → ℕ) (x y : ℕ) (ps : List (ℕ × ℕ))
    → ((i j : ℕ) → (rep' i ≡ rep' j) ↔ Joined rep (rep x) (rep y) i j)
    → ((i j : ℕ) → Linked ps i j → rep i ≡ rep j)
    → (i j : ℕ) → Linked ((x, y) ∷ ps) i j
    → rep' i ≡ rep' j
Linked_after rep rep' x y ps c k i j (given (inl h)) =
    (c i j).1 (inr (inl (ap (λ p. rep p.0) h, ap (λ p. rep p.1) h)))
Linked_after rep rep' x y ps c k i j (given (inr h)) = (c i j).1 (inl (k i j (given h)))
Linked_after rep rep' x y ps c k i j same = refl
Linked_after rep rep' x y ps c k i j (flip l) = sym (Linked_after rep rep' x y ps c k j i l)
Linked_after rep rep' x y ps c k i j (chain {j = m} l r) =
    Linked_after rep rep' x y ps c k i m l ∙ Linked_after rep rep' x y ps c k m j r

Linked_before :
    (rep rep' : ℕ → ℕ) (x y : ℕ) (ps : List (ℕ × ℕ))
    → ((i j : ℕ) → rep i ≡ rep j → Linked ps i j)
    → (i j : ℕ) → Joined rep (rep x) (rep y) i j
    → Linked ((x, y) ∷ ps) i j
Linked_before rep rep' x y ps k i j (inl h) = Linked-more (x, y) ps (k i j h)
Linked_before rep rep' x y ps k i j (inr (inl h)) =
    chain (Linked-more (x, y) ps (k i x h.0))
      (chain (given (inl refl)) (Linked-more (x, y) ps (k y j (sym h.1))))
Linked_before rep rep' x y ps k i j (inr (inr h)) =
    chain (Linked-more (x, y) ps (k i y h.0))
      (chain (flip (given (inl refl))) (Linked-more (x, y) ps (k x j (sym h.1))))

-- Each entry its own parent.
abbrev pub IsFresh : List Entry → Type 0
IsFresh es = (length es ≤ 2 ^ 32) × ((i : ℕ) → i < length es → parent_at es i ≡ i)

generated :
    (f : ℕ) (es : List Entry) (ps : List (ℕ × ℕ))
    → IsFresh es
    → Each (λ p. (p.0 < length es) × (p.1 < length es)) ps
    → length ps ≤ f
    → (fs : List Entry) × (unite_all f es ps ≡ some fs) × IsGenerated fs (length es) ps
unfolding unite_all
generated f es [] fresh w l = (
  es,
  refl,
  record {
    rep = λ i. i;
    level = λ i. 0;
    forest = record {
      fits = fresh.0;
      inside = λ i h. rw (fresh.1 i h) h;
      kept = λ i h. fresh.1 i h;
      root = λ i h r. (refl, refl);
      falls = λ i h r. absurd (r (fresh.1 i h));
      low = λ i h. omega arith;
    };
    size = refl;
    sound = λ i j h. subst (λ m. Linked [] i m) h same;
    complete = λ i j l. none_linked l;
  },
)
  where
    none_linked : {i j : ℕ} → Linked [] i j → i ≡ j
    none_linked (given h) = absurd h
    none_linked same = refl
    none_linked (flip m) = sym (none_linked m)
    none_linked (chain m n) = none_linked m ∙ none_linked n
generated f es ((x, y) ∷ ps) fresh w l =
    let (fs, e, g) = generated f es ps fresh w.1 (omega arith) in
    let (gs, r, e', j) =
      unite_lem g.rep g.level (length ps) f fs x y g.forest (rw g.size w.0.0) (rw g.size w.0.1)
        (omega arith) in
    (
      gs,
      rw (e, e', unite_all) refl,
      record {
        rep = j.rep';
        level = j.level';
        forest = j.forest;
        size = j.size ∙ g.size;
        sound = λ a b h. Linked_before g.rep j.rep' x y ps g.sound a b ((j.classes a b).0 h);
        complete = Linked_after g.rep j.rep' x y ps j.classes g.complete;
      },
    )

-- From fresh entries, with more fuel than there are unions, every union ends, and afterwards
-- `same_set` ends and says yes exactly for the elements that the united pairs link.
pub same_set_iff :
    (f : ℕ) (es : List Entry) (ps : List (ℕ × ℕ)) (x y : ℕ)
    → IsFresh es
    → Each (λ p. (p.0 < length es) × (p.1 < length es)) ps
    → length ps < f
    → x < length es
    → y < length es
    → (fs gs : List Entry) × (b : Bool) × (unite_all f es ps ≡ some fs)
      × (same_set f fs x y ≡ some (gs, b))
      × ((b ≡ true) ↔ Linked ps x y)
same_set_iff f es ps x y fresh w l hx hy =
    let (fs, e, g) = generated f es ps fresh w (omega arith) in
    let (gs, e', v, n) =
      same_set_lem g.rep g.level (length ps) f fs x y g.forest (rw g.size hx) (rw g.size hy) l in
    let t = ==_iff (g.rep x) (g.rep y) in
    (fs, gs, g.rep x == g.rep y, e, e', (λ h. g.sound x y (t.0 h), λ h. t.1 (g.complete x y h)))
