-- ===== src/Algorithms/Overlaps/Sweep.antt =====
-- The sweep reports an interval against those that began before it and end after it began.
use ida_structor.Prelude.{
  ℕ, ◌≡◌, ◌↔◌, ◌⊎◌, sym, subst, ◌∙◌, Bool, true, false, not, ◌&&◌, ◌==◌, ==_iff, List, [], ◌∷◌,
  ◌++◌, map, arith, Bool-cases, inl, inr,
}
use ida_structor.Prelude.Int.{ℤ}
use ida_structor.Prelude.Sorting.{In, Each, In-append}
use ida_structor.Algorithms.Overlaps.{Interval, id_at, ordered, reports, sweep, swap_out}
use ida_structor.Algorithms.Overlaps.Keys.{
  Key, event_of, is_solid, key_less, key_eq, is_pending, key_less_irrefl, key_less_asym,
  start_before_end,
}
use ida_structor.Algorithms.Overlaps.Active.{
  elem, distinct, elem-append, distinct-append, swap_out-elem, swap_out-distinct, reports-In,
}
use ida_structor.Algorithms.Overlaps.Order.{Ascends}

module _ (vs : List Interval) where
  -- Between two events: the active intervals have begun and not ended, what has happened comes
  -- before what is to come, and what is to come concerns intervals that are not empty.
  pub record IsMidway (active : List ℕ) (ks : List Key) : Type 0 where
    pub ascends : Ascends vs ks
    pub open_ones :
        (i : ℕ)
        → elem i active
          ≡ (is_solid vs i && not (is_pending (true, i) ks) && is_pending (false, i) ks)
    pub apart : distinct active ≡ true
    pub solid : (b : Bool) (i : ℕ) → is_pending (b, i) ks ≡ true → is_solid vs i ≡ true
    pub ends : (i : ℕ) → is_pending (true, i) ks ≡ true → is_pending (false, i) ks ≡ true
    pub past :
        (b : Bool) (i : ℕ)
        → is_solid vs i ≡ true
        → is_pending (b, i) ks ≡ false
        → Each (λ l. key_less vs (b, i) l ≡ true) ks

  -- The pairs that are still to be reported.
  abbrev pub Reported : List Key → ℤ × ℤ → Type 0
  Reported ks p =
      (j i : ℕ) × (is_pending (true, j) ks ≡ true)
      × (is_solid vs i ≡ true)
      × (key_less vs (true, i) (true, j) ≡ true)
      × (key_less vs (false, i) (true, j) ≡ false)
      × (p ≡ ordered (id_at vs i) (id_at vs j))

  pending-Each :
      (P : Key → Type 0) (b : Bool) (i : ℕ) (ks : List Key)
      → Each P ks
      → is_pending (b, i) ks ≡ true
      → P (b, i)
  pending-Each P b i [] h g = absurd (ground arith)
  pending-Each P b i ((c, j) ∷ ks) h g = elim (Bool-cases (key_eq (b, i) (c, j))) [
    | inl e ↦ same b c e h.0
    | inr e ↦ pending-Each P b i ks h.1 (ground arith)
  ]
    where
      same : (b c : Bool) → key_eq (b, i) (c, j) ≡ true → P (c, j) → P (b, i)
      same true true e h = subst (λ k. P (true, k)) (sym ((==_iff i j).0 e)) h
      same true false e h = absurd (ground arith)
      same false true e h = absurd (ground arith)
      same false false e h = subst (λ k. P (false, k)) (sym ((==_iff i j).0 e)) h

  -- What the head precedes does not hold the head.
  head_passed :
      (b : Bool) (j : ℕ) (ks : List Key)
      → Each (λ l. key_less vs (b, j) l ≡ true) ks
      → is_pending (b, j) ks ≡ false
  head_passed b j ks h = elim (Bool-cases (is_pending (b, j) ks)) [
    | inl e ↦
        let s = pending-Each (λ l. key_less vs (b, j) l ≡ true) b j ks h e in
        let t = key_less_irrefl vs (b, j) in absurd (ground arith)
    | inr e ↦ e
  ]

  past_after :
      (b : Bool) (j : ℕ) (ks : List Key) (active : List ℕ)
      → IsMidway active ((b, j) ∷ ks)
      → (c : Bool) (i : ℕ) → is_solid vs i ≡ true
      → is_pending (c, i) ks ≡ false
      → Each (λ l. key_less vs (c, i) l ≡ true) ks
  past_after b j ks active w c i s h = elim (Bool-cases (key_eq (c, i) (b, j))) [
    | inl e ↦ same c b e w.ascends.0
    | inr e ↦ (w.past c i s (ground arith)).1
  ]
    where
      same :
          (c b : Bool)
          → key_eq (c, i) (b, j) ≡ true
          → Each (λ l. key_less vs (b, j) l ≡ true) ks
          → Each (λ l. key_less vs (c, i) l ≡ true) ks
      same true true e h =
          subst (λ k. Each (λ l. key_less vs (true, k) l ≡ true) ks) (sym ((==_iff i j).0 e)) h
      same true false e h = absurd (ground arith)
      same false true e h = absurd (ground arith)
      same false false e h =
          subst (λ k. Each (λ l. key_less vs (false, k) l ≡ true) ks) (sym ((==_iff i j).0 e)) h

  started :
      (j : ℕ) (ks : List Key) (active : List ℕ)
      → IsMidway active ((true, j) ∷ ks)
      → IsMidway (active ++ (j ∷ [])) ks
  started j ks active w =
      let gone = head_passed true j ks w.ascends.0 in
      let sol = w.solid true j (ground arith) in
      let due : is_pending (false, j) ks ≡ true = ground (arith, w.ends j) in
      record {
        ascends = w.ascends.1;
        open_ones = λ i. elem-append i j active ∙ elim (Bool-cases (i == j)) [
          | inl e ↦ rw (w.open_ones i, (==_iff i j).0 e) (ground arith)
          | inr e ↦ rw (w.open_ones i) (ground arith)
        ];
        apart = distinct-append j active (ground (arith, w.open_ones j)) w.apart;
        solid = λ b i h. w.solid b i (ground arith);
        ends = λ i h. ground (arith, w.ends i);
        past = past_after true j ks active w;
      }

  later_end :
      (j : ℕ) (ks : List Key) (active : List ℕ)
      → IsMidway active ((false, j) ∷ ks)
      → (i : ℕ) → is_pending (true, i) ks ≡ true
      → is_pending (false, i) ks ≡ true
  later_end j ks active w i h = elim (Bool-cases (i == j)) [
    | inl e ↦
        let same = (==_iff i j).0 e in
        let p : is_pending (true, j) ks ≡ true =
          subst (λ k. is_pending (true, k) ks ≡ true) same h in
        let before = pending-Each (λ l. key_less vs (false, j) l ≡ true) true j ks w.ascends.0 p in
        let sol = w.solid true j (ground arith) in
        let after = key_less_asym vs (true, j) (false, j) (start_before_end vs j sol) in
        absurd (ground arith)
    | inr e ↦ let g = w.ends i (ground arith) in ground arith
  ]

  ended :
      (j : ℕ) (ks : List Key) (active : List ℕ)
      → IsMidway active ((false, j) ∷ ks)
      → IsMidway (swap_out j active) ks
  ended j ks active w =
      let gone = head_passed false j ks w.ascends.0 in
      record {
        ascends = w.ascends.1;
        open_ones = λ i. swap_out-elem i j active w.apart ∙ elim (Bool-cases (i == j)) [
          | inl e ↦ rw (w.open_ones i, (==_iff i j).0 e) (ground arith)
          | inr e ↦ rw (w.open_ones i) (ground arith)
        ];
        apart = swap_out-distinct j active w.apart;
        solid = λ b i h. w.solid b i (ground arith);
        ends = later_end j ks active w;
        past = past_after false j ks active w;
      }

  -- An interval is active at a start exactly where it began before and ends after it.
  active_iff :
      (j i : ℕ) (ks : List Key) (active : List ℕ)
      → IsMidway active ((true, j) ∷ ks)
      → (elem i active ≡ true) ↔ (
          (is_solid vs i ≡ true)
          × (key_less vs (true, i) (true, j) ≡ true)
          × (key_less vs (false, i) (true, j) ≡ false))
  active_iff j i ks active w =
      let o = w.open_ones i in
      (
        λ h.
            let s : is_solid vs i ≡ true = ground arith in
            let a : is_pending (true, i) ((true, j) ∷ ks) ≡ false = ground arith in
            let b : is_pending (false, i) ks ≡ true = ground arith in
            (
              s,
              (w.past true i s a).0,
              key_less_asym vs (true, j) (false, i)
                  (pending-Each (λ l. key_less vs (true, j) l ≡ true) false i ks w.ascends.0 b),
            ),
        λ h. let a = not_begun h.1 in let b = not_over h.0 h.2 in ground arith,
      )
    where
      not_begun :
          key_less vs (true, i) (true, j) ≡ true → is_pending (true, i) ((true, j) ∷ ks) ≡ false
      not_begun h = elim (Bool-cases (i == j)) [
        | inl e ↦
            let same = (==_iff i j).0 e in
            let t = key_less_irrefl vs (true, j) in
            let u : key_less vs (true, j) (true, j) ≡ true =
              subst (λ k. key_less vs (true, k) (true, j) ≡ true) same h in
            absurd (ground arith)
        | inr e ↦ elim (Bool-cases (is_pending (true, i) ks)) [
          | inl f ↦
              let g = pending-Each (λ l. key_less vs (true, j) l ≡ true) true i ks w.ascends.0 f in
              let t = key_less_asym vs (true, i) (true, j) h in absurd (ground arith)
          | inr f ↦ ground arith
        ]
      ]

      not_over :
          is_solid vs i ≡ true
          → key_less vs (false, i) (true, j) ≡ false
          → is_pending (false, i) ks ≡ true
      not_over s h = elim (Bool-cases (is_pending (false, i) ks)) [
        | inl e ↦ e
        | inr e ↦ let g = (w.past false i s (ground arith)).0 in absurd (ground arith)
      ]

  Reported-later :
      (b : Bool) (j : ℕ) (ks : List Key) (p : ℤ × ℤ) → Reported ks p → Reported ((b, j) ∷ ks) p
  Reported-later b j ks p h = let (k, i, a, s, l, m, e) = h in (k, i, ground arith, s, l, m, e)

  -- From midway on the sweep reports exactly the pairs that are still to be reported.
  pub sweep-In :
      (ks : List Key) (active : List ℕ) (p : ℤ × ℤ)
      → IsMidway active ks
      → In p (sweep vs active (map (event_of vs) ks)) ↔ Reported ks p
  unfolding sweep
  sweep-In [] active p w =
      (λ h. absurd h, λ h. let (k, i, a, s, l, m, e) = h in absurd (ground arith))
  sweep-In ((true, j) ∷ ks) active p w =
      let r = sweep-In ks (active ++ (j ∷ [])) p (started j ks active w) in
      let c =
        In-append p (reports vs j active) (sweep vs (active ++ (j ∷ [])) (map (event_of vs) ks)) in
      let q = reports-In vs j active p in
      (
        λ h. elim (c.0 h) [
          | inl s ↦
              let (i, a, b) = q.0 s in
              let t = (active_iff j i ks active w).0 a in (j, i, ground arith, t.0, t.1, t.2, b)
          | inr s ↦ Reported-later true j ks p (r.0 s)
        ],
        λ h. c.1 (split h q r),
      )
    where
      split :
          Reported ((true, j) ∷ ks) p
          → In p (reports vs j active)
            ↔ ((i : ℕ) × (elem i active ≡ true) × (p ≡ ordered (id_at vs i) (id_at vs j)))
          → In p (sweep vs (active ++ (j ∷ [])) (map (event_of vs) ks)) ↔ Reported ks p
          → In p (reports vs j active) ⊎ In p (sweep vs (active ++ (j ∷ [])) (map (event_of vs) ks))
      split h q r =
          let (k, i, a, s, l, m, e) = h in
          elim (Bool-cases (k == j)) [
            | inl f ↦
                let same = (==_iff k j).0 f in
                let l' = subst (λ x. key_less vs (true, i) (true, x) ≡ true) same l in
                let m' = subst (λ x. key_less vs (false, i) (true, x) ≡ false) same m in
                let e' = subst (λ x. p ≡ ordered (id_at vs i) (id_at vs x)) same e in
                inl (q.1 (i, (active_iff j i ks active w).1 (s, l', m'), e'))
            | inr f ↦ inr (r.1 (k, i, ground arith, s, l, m, e))
          ]
  sweep-In ((false, j) ∷ ks) active p w =
      let r = sweep-In ks (swap_out j active) p (ended j ks active w) in
      (
        λ h. Reported-later false j ks p (r.0 h),
        λ h. let (k, i, a, s, l, m, e) = h in r.1 (k, i, ground arith, s, l, m, e),
      )
