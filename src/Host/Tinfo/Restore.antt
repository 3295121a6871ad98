-- ===== src/Host/Tinfo/Restore.antt =====
-- What the result of the transaction says of the database.
use ida_structor.Prelude.{
  ℕ, ◌≡◌, ◌≢◌, ◌⊎◌, refl, sym, ap, ◌∙◌, subst, Bool, true, false, not, ◌||◌, ◌==◌, arith,
  if◌then◌else◌, Option, none, some, inl, inr, Bool-cases, Option-cases,
}
use ida_structor.Host.Tinfo.{
  applied, failed_restored, verified, restored, checked, roll_back, transact, conclude,
  apply_detailed, type_restored, answer, undo,
}
use ida_structor.Host.Tinfo.Policy.{
  Transaction, RollbackPlan, rollback_plan, finish_rollback_verification,
  finish_application_verification,
}
use ida_structor.Host.Tinfo.Database.{
  HostDatabase, badaddr, preparation_allowed, Metadata, read_item, read_type, Prepared,
  item_restored,
}

finish_true :
    (t : Transaction) (a b : Bool)
    → (finish_rollback_verification t a b).0 ≡ true
    → (a ≡ true) × (b ≡ true)
unfolding finish_rollback_verification
finish_true t a b h = ground arith

answer-true : (b : Bool) → answer b ≡ failed_restored → b ≡ true
answer-true b h = ground arith

failed-applied : failed_restored ≢ applied
failed-applied h = ground arith

answer_applied : (b : Bool) → answer b ≢ applied
answer_applied b h = ground arith

finish_done :
    (t : Transaction) (b : Bool) → (finish_application_verification t b).0 ≡ true → b ≡ true
unfolding finish_application_verification
finish_done t b h = ground arith

module _ {S T : Type 0} (host : HostDatabase S T) where
  -- What the rollback promises of the database: the item's metadata is read as before, and the
  -- type is read back equal to the prior one, or absent as before.
  pub record IsRestored (s : S) (ea : ℕ) (prior : Option T) (m : Metadata) : Type 0 where
    pub item : read_item host s ea ≡ some m
    pub now : Option T
    pub reads : read_type host s ea ≡ some now
    pub same : type_restored host prior now ≡ true

  item_restored_sound :
      (s : S) (ea : ℕ) (m : Metadata)
      → (m.item_head ≡ badaddr → m.head_flags ≡ 0)
      → item_restored host s ea m ≡ some true
      → read_item host s ea ≡ some m
  unfolding item_restored read_item
  item_restored_sound s ea m z h = ground arith

  read_item-flags :
      (s : S) (ea : ℕ) (m : Metadata)
      → read_item host s ea ≡ some m
      → m.item_head ≡ badaddr
      → m.head_flags ≡ 0
  unfolding read_item
  read_item-flags s ea m h e = ground arith

  restored_sound :
      (s : S) (ea : ℕ) (plan : RollbackPlan) (prior : Option T) (m : Metadata) (p : Prepared)
      → (m.item_head ≡ badaddr → m.head_flags ≡ 0)
      → restored host s ea plan prior m p ≡ some (true, true)
      → IsRestored s ea prior m
  unfolding restored
  restored_sound s ea plan prior m p z h = elim (Option-cases (read_type host s ea)) [
    | inl e ↦ absurd (ground arith)
    | inr (now, e) ↦ elim (Option-cases (item_restored host s ea m)) [
      | inl f ↦ absurd (ground arith)
      | inr (true, f) ↦ record {
        item = item_restored_sound s ea m z f;
        now = now;
        reads = e;
        same = ground arith;
      }
      | inr (false, f) ↦ absurd (ground arith)
    ]
  ]

  checked_sound :
      (u : Bool × S) (ea : ℕ) (plan : RollbackPlan) (prior : Option T) (m : Metadata) (p : Prepared)
      → (m.item_head ≡ badaddr → m.head_flags ≡ 0)
      → (checked host u ea plan prior m p).0 ≡ true
      → (checked host u ea plan prior m p).1 ≡ true
      → IsRestored (u.1) ea prior m
  unfolding checked
  checked_sound (false, s) ea plan prior m p z h k = absurd (ground arith)
  checked_sound (true, s) ea plan prior m p z h k =
      elim (Option-cases (restored host s ea plan prior m p)) [
        | inl e ↦ absurd (ground arith)
        | inr (b, e) ↦ restored_sound s ea plan prior m p z (ground arith)
      ]

  roll_back_sound :
      (s : S) (ea : ℕ) (t : Transaction) (prior : Option T) (m : Metadata) (p : Prepared)
      → (m.item_head ≡ badaddr → m.head_flags ≡ 0)
      → (roll_back host s ea t prior m p).0 ≡ failed_restored
      → IsRestored ((roll_back host s ea t prior m p).1) ea prior m
  unfolding roll_back
  roll_back_sound s ea t prior m p z h =
      let u = undo host s ea (rollback_plan t) p.size prior in
      let c = checked host u ea (rollback_plan t) prior m p in
      let (a, b) = finish_true t c.0 c.1 (answer-true _ h) in
      checked_sound u ea (rollback_plan t) prior m p z a b

  roll_back-failed :
      (s : S) (ea : ℕ) (t : Transaction) (prior : Option T) (m : Metadata) (p : Prepared)
      → (roll_back host s ea t prior m p).0 ≢ applied
  unfolding roll_back
  roll_back-failed s ea t prior m p h = answer_applied _ h

  -- The type read back, and that the verifier accepts it.
  abbrev pub Reads : S → ℕ → T → (T → T → Option Bool) → Type 0
  Reads s ea t verifier =
      (now : T) × (read_type host s ea ≡ some (some now)) × (verifier t now ≡ some true)

  verified-Reads :
      (s : S) (ea : ℕ) (t : T) (v : T → T → Option Bool)
      → verified host s ea t v ≡ true
      → Reads s ea t v
  unfolding verified
  verified-Reads s ea t v h = elim (Option-cases (read_type host s ea)) [
    | inl e ↦ absurd (ground arith)
    | inr (none, e) ↦ absurd (ground arith)
    | inr (some now, e) ↦ (now, e, ground arith)
  ]

  conclude-applied :
      (s : S) (ea : ℕ) (t : T) (v : T → T → Option Bool) (tr : Transaction) (prior : Option T)
      (m : Metadata) (p : Prepared)
      → (conclude host s ea t v tr prior m p).0 ≡ applied
      → Reads ((conclude host s ea t v tr prior m p).1) ea t v
  unfolding conclude
  conclude-applied s ea t v tr prior m p h =
      let f = finish_application_verification tr (verified host s ea t v) in
      elim (Bool-cases f.0) [
        | inl e ↦ rw e (verified-Reads s ea t v (finish_done tr _ e))
        | inr e ↦ absurd (
            roll_back-failed s ea f.1 prior m p (
              subst
                (λ b. (if b then (applied, s) else roll_back host s ea f.1 prior m p).0 ≡ applied) e
                h))
      ]

  conclude-IsRestored :
      (s : S) (ea : ℕ) (t : T) (v : T → T → Option Bool) (tr : Transaction) (prior : Option T)
      (m : Metadata) (p : Prepared)
      → (m.item_head ≡ badaddr → m.head_flags ≡ 0)
      → (conclude host s ea t v tr prior m p).0 ≡ failed_restored
      → IsRestored ((conclude host s ea t v tr prior m p).1) ea prior m
  unfolding conclude
  conclude-IsRestored s ea t v tr prior m p z h =
      let f = finish_application_verification tr (verified host s ea t v) in
      elim (Bool-cases f.0) [
        | inl e ↦ absurd (ground arith)
        | inr e ↦ rw e (
            roll_back_sound s ea f.1 prior m p z (
              subst
                (λ b.
                  (if b then (applied, s) else roll_back host s ea f.1 prior m p).0
                  ≡ failed_restored)
                e h))
      ]

  -- An application that was not allowed to begin changes nothing; the others take the snapshot.
  apply-cases :
      (s : S) (ea : ℕ) (t : T) (v : T → T → Option Bool)
      → (apply_detailed host s ea t (some v) ≡ (failed_restored, s))
        ⊎ ((prior : Option T) × (m : Metadata) × (read_type host s ea ≡ some prior)
            × (read_item host s ea ≡ some m)
            × (apply_detailed host s ea t (some v) ≡ transact host s ea t v prior m))
  unfolding apply_detailed
  apply-cases s ea t v = elim (Bool-cases (ea == badaddr || host.is_empty t)) [
    | inl e ↦ inl (rw e refl)
    | inr e ↦ elim (Bool-cases (not (host.is_main_thread s))) [
      | inl f ↦ inl (rw (e, f) refl)
      | inr f ↦ elim (Bool-cases (not (preparation_allowed host s ea t))) [
        | inl g ↦ inl (rw (e, f, g) refl)
        | inr g ↦ elim (Option-cases (read_type host s ea)) [
          | inl k ↦ inl (rw (e, f, g, k) refl)
          | inr (prior, k) ↦ elim (Option-cases (read_item host s ea)) [
            | inl l ↦ inl (rw (e, f, g, k, l) refl)
            | inr (m, l) ↦ inr (prior, m, k, l, rw (e, f, g, k, l) refl)
          ]
        ]
      ]
    ]
  ]

  -- The transaction reports success only where a type is read back from the resulting database that
  -- the verifier accepts for the requested one, whatever the writing of the type returned.
  pub apply_applied :
      (s : S) (ea : ℕ) (t : T) (v : T → T → Option Bool)
      → (apply_detailed host s ea t (some v)).0 ≡ applied
      → Reads ((apply_detailed host s ea t (some v)).1) ea t v
  unfolding transact
  apply_applied s ea t v h = elim (apply-cases s ea t v) [
    | inl e ↦ absurd (failed-applied (sym (ap (λ r. r.0) e) ∙ h))
    | inr (prior, m, k, l, e) ↦
        subst (λ r. r.0 ≡ applied → Reads r.1 ea t v) (sym e)
          (conclude-applied _ ea t v _ prior m _) h
  ]

  -- Where the transaction reports a failure that it restored, either the database is untouched, or
  -- its item's metadata is read as before and its type is read equal to the prior one, or absent as
  -- before.
  pub apply_failed_restored :
      (s : S) (ea : ℕ) (t : T) (v : T → T → Option Bool)
      → (apply_detailed host s ea t (some v)).0 ≡ failed_restored
      → ((apply_detailed host s ea t (some v)).1 ≡ s)
        ⊎ ((prior : Option T) × (m : Metadata) × (read_type host s ea ≡ some prior)
            × (read_item host s ea ≡ some m)
            × IsRestored ((apply_detailed host s ea t (some v)).1) ea prior m)
  unfolding transact
  apply_failed_restored s ea t v h = elim (apply-cases s ea t v) [
    | inl e ↦ inl (ap (λ r. r.1) e)
    | inr (prior, m, k, l, e) ↦ inr (
      prior,
      m,
      k,
      l,
      subst (λ r. r.0 ≡ failed_restored → IsRestored r.1 ea prior m) (sym e)
          (conclude-IsRestored _ ea t v _ prior m _ (read_item-flags s ea m l)) h,
    )
  ]
