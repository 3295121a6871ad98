-- ===== src/Analysis/Evidence/Merge.antt =====
-- What a merge keeps of the two observations.
use ida_structor.Prelude.{
  ℕ, ◌≡◌, ◌≢◌, ◌↔◌, ◌⊎◌, inl, inr, sym, subst, Bool, true, false, ◌||◌, ◌==◌, ==_iff, List, [], ◌∷◌,
  none, some, Bool-cases, arith,
}
use ida_structor.Prelude.Sorting.{In, In-append}
use ida_structor.Analysis.Evidence.{
  AccessType, call, address_taken, BitfieldInfo, bitfield_eq, TypeQueries, FieldAccess, is_one_of,
  add_missing, add_all_missing, reads, writes, merge_access_type, merge_field_access_evidence,
}

-- A call or a taken address.
abbrev pub is_opaque : AccessType → Bool
is_opaque call = true
is_opaque address_taken = true
is_opaque other = false

merged_directions :
    (d s : AccessType)
    → is_opaque d ≡ false
    → (reads (merge_access_type d s) ≡ (reads d || reads s))
      × (writes (merge_access_type d s) ≡ (writes d || writes s))
merged_directions d s h = ground arith

module _ {A : Type 0} (same : A → A → Bool) (exact : (a b : A) → (same a b ≡ true) ↔ (a ≡ b)) where
  is_one_of_iff : (a : A) (l : List A) → (is_one_of same a l ≡ true) ↔ In a l
  is_one_of_iff a [] = (λ h. absurd (ground arith), λ h. absurd h)
  is_one_of_iff a (x ∷ xs) =
      let r = is_one_of_iff a xs in
      elim (Bool-cases (same x a)) [
        | inl e ↦ (λ h. inl (sym ((exact x a).0 e)), λ h. ground arith)
        | inr e ↦ (
          λ h. inr (r.0 (ground arith)),
          λ h. elim h [
            | inl t ↦ let u = (exact x a).1 (sym t) in absurd (ground arith)
            | inr t ↦ let u = r.1 t in ground arith
          ],
        )
      ]

  In-add_missing : (a b : A) (l : List A) → In b (add_missing same l a) ↔ (In b l ⊎ (b ≡ a))
  In-add_missing a b l =
      let c = In-append b l (a ∷ []) in
      elim (Bool-cases (is_one_of same a l)) [
        | inl e ↦ rw e (
          λ h. inl h,
          λ h. elim h [ inl t ↦ t | inr t ↦ subst (λ z. In z l) (sym t) ((is_one_of_iff a l).0 e) ],
        )
        | inr e ↦ rw e (
          λ h. elim (c.0 h) [ inl t ↦ inl t | inr (inl t) ↦ inr t | inr (inr t) ↦ absurd t ],
          λ h. c.1 (elim h [ inl t ↦ inl t | inr t ↦ inr (inl t) ]),
        )
      ]

  pub In-add_all_missing :
      (b : A) (l xs : List A) → In b (add_all_missing same l xs) ↔ (In b l ⊎ In b xs)
  unfolding add_all_missing
  In-add_all_missing b l [] = (λ h. inl h, λ h. elim h [ inl t ↦ t | inr t ↦ absurd t ])
  In-add_all_missing b l (x ∷ xs) =
      let r = In-add_all_missing b (add_missing same l x) xs in
      let s = In-add_missing x b l in
      (
        λ h. elim (r.0 h) [
          | inl t ↦ elim (s.0 t) [ inl u ↦ inl u | inr u ↦ inr (inl u) ]
          | inr t ↦ inr (inr t)
        ],
        λ h. r.1 (elim h [
          | inl t ↦ inl (s.1 (inl t))
          | inr (inl t) ↦ inl (s.1 (inr t))
          | inr (inr t) ↦ inr t
        ]),
      )

bitfield_eq_exact : (a b : BitfieldInfo) → (bitfield_eq a b ≡ true) ↔ (a ≡ b)
bitfield_eq_exact a b = (λ h. ground arith, λ h. ground arith)

module _ {T : Type 0} (q : TypeQueries T) (d s : FieldAccess T) where
  -- Unless the first observation is a call or a taken address, the merge reads where one of the
  -- two does and writes where one of the two does.
  pub merge-reads_writes :
      is_opaque d.access_type ≡ false
      → (reads (merge_field_access_evidence q d s).access_type
          ≡ (reads d.access_type || reads s.access_type))
        × (writes (merge_field_access_evidence q d s).access_type
            ≡ (writes d.access_type || writes s.access_type))
  unfolding merge_field_access_evidence
  merge-reads_writes h = merged_directions d.access_type s.access_type h

  -- The merge has the constants and the bit fields of both observations and no others.
  pub merge-observations :
      ((c : ℕ)
        → In c (merge_field_access_evidence q d s).observed_constants
          ↔ (In c d.observed_constants ⊎ In c s.observed_constants))
      × ((b : BitfieldInfo)
          → In b (merge_field_access_evidence q d s).bitfields
            ↔ (In b d.bitfields ⊎ In b s.bitfields))
  unfolding merge_field_access_evidence
  merge-observations = (
    λ c. In-add_all_missing (λ a b. a == b) ==_iff c d.observed_constants s.observed_constants,
    λ b. In-add_all_missing bitfield_eq bitfield_eq_exact b d.bitfields s.bitfields,
  )

  -- Two different stride hints cancel, but the next observation with the second one brings it
  -- back: the conflict is forgotten.
  pub merge-hint_returns :
      (a b : ℕ)
      → a ≢ b
      → d.array_stride_hint ≡ some a
      → s.array_stride_hint ≡ some b
      → ((merge_field_access_evidence q d s).array_stride_hint ≡ none)
        × ((merge_field_access_evidence q (merge_field_access_evidence q d s) s).array_stride_hint
            ≡ some b)
  unfolding merge_field_access_evidence
  merge-hint_returns a b n e f = rw (e, f) (ground arith)
