-- ===== src/Host/Tinfo.antt =====
-- Applying a type to an address as one verified transaction
-- (include/structor/global_tinfo_transaction.hpp).
pub mod Policy
pub mod Database
pub mod Restore
use ida_structor.Prelude.{
  ℕ, Bool, true, false, not, ◌&&◌, ◌||◌, ◌==◌, ltb, ◌-◌, if◌then◌else◌, Option, none, some,
}
use ida_structor.Host.Tinfo.Policy.{
  Transaction, begin, record_temporary_data_item, finish_application_verification, rollback_plan,
  RollbackPlan, finish_rollback_verification,
}
use ida_structor.Host.Tinfo.Database.{
  HostDatabase, badaddr, Metadata, read_item, read_type, Prepared, untouched, prepare,
  preparation_allowed, item_restored, flags_restored,
}

pub data ApplyResult : Type 0 where
  applied failed_restored rollback_failed : ApplyResult

abbrev pub answer : Bool → ApplyResult
answer true = failed_restored
answer false = rollback_failed

module _ {S T : Type 0} (host : HostDatabase S T) where
  -- What is read back is not empty and passes the verifier; a throw is a failure.
  unfoldable pub verified : S → ℕ → T → (T → T → Option Bool) → Bool
  unfolding read_type
  verified s ea t verifier = elim (read_type host s ea) [
    | some (some observed) ↦ elim (verifier t observed) [ some true ↦ true | _ ↦ false ]
    | _ ↦ false
  ]

  unfoldable pub after_clearing : Bool × S → (S → Bool × S) → Bool × S
  after_clearing (true, s) next = next s
  after_clearing (false, s) next = (false, s)

  abbrev restore_prior : ℕ → RollbackPlan → Option T → S → Bool × S
  restore_prior ea plan none s = (true, s)
  restore_prior ea plan (some prior) s =
      if plan.restore_prior_tinfo then host.set_tinfo s ea prior else (true, s)

  abbrev remove_item : ℕ → RollbackPlan → ℕ → S → Bool × S
  remove_item ea plan size s =
      if plan.remove_temporary_data_item && not (size == 0)
      then host.del_items s ea size
      else (true, s)

  abbrev remove_type : ℕ → RollbackPlan → S → Bool × S
  remove_type ea plan s = if plan.remove_requested_tinfo then host.del_tinfo s ea else (true, s)

  -- The changes of the rollback in order, up to the first that throws.
  unfoldable pub undo : S → ℕ → RollbackPlan → ℕ → Option T → Bool × S
  unfolding after_clearing
  undo s ea plan size prior =
      after_clearing (after_clearing (remove_type ea plan s) (remove_item ea plan size))
        (restore_prior ea plan prior)

  -- `tinfo_restored`, from the type before and the type read back.
  abbrev pub type_restored : Option T → Option T → Bool
  type_restored none none = true
  type_restored none (some now) = false
  type_restored (some prior) none = false
  type_restored (some prior) (some now) = host.equals_to now prior

  -- The three readings after the rollback; `none` where one throws.
  unfoldable pub restored :
      S → ℕ → RollbackPlan → Option T → Metadata → Prepared → Option (Bool × Bool)
  unfolding read_type item_restored flags_restored
  restored s ea plan prior metadata prepared = elim (read_type host s ea) [
    | none ↦ none
    | some now ↦ elim (item_restored host s ea metadata) [
      | none ↦ none
      | some item ↦
          if item && plan.remove_temporary_data_item
          then elim (flags_restored host s ea prepared.flags) [
            | none ↦ none
            | some same ↦ some (type_restored prior now, same)
          ]
          else some (type_restored prior now, item)
    ]
  ]

  abbrev both_or_false : Option (Bool × Bool) → Bool × Bool
  both_or_false none = (false, false)
  both_or_false (some b) = b

  -- A change that threw leaves both flags false.
  unfoldable pub checked :
      Bool × S → ℕ → RollbackPlan → Option T → Metadata → Prepared → Bool × Bool
  unfolding restored
  checked (true, s) ea plan prior metadata prepared =
      both_or_false (restored s ea plan prior metadata prepared)
  checked (false, s) ea plan prior metadata prepared = (false, false)

  unfoldable pub roll_back : S → ℕ → Transaction → Option T → Metadata → Prepared → ApplyResult × S
  unfolding undo checked rollback_plan finish_rollback_verification
  roll_back s ea transaction prior metadata prepared =
      let plan = rollback_plan transaction in
      let undone = undo s ea plan prepared.size prior in
      let (type_same, item_same) = checked undone ea plan prior metadata prepared in
      (answer ((finish_rollback_verification transaction type_same item_same).0), undone.1)

  abbrev is_present : Option T → Bool
  is_present none = false
  is_present (some t) = true

  abbrev noted : Prepared → Transaction → Transaction
  noted p transaction = if p.temporary then record_temporary_data_item transaction else transaction

  -- From the verification of what was written on.
  unfoldable pub conclude :
      S
      → ℕ
      → T
      → (T → T → Option Bool)
      → Transaction
      → Option T
      → Metadata
      → Prepared
      → ApplyResult × S
  unfolding verified roll_back finish_application_verification
  conclude s ea t verifier transaction prior metadata prepared =
      let (done, transaction') =
        finish_application_verification transaction (verified s ea t verifier) in
      if done then (applied, s) else roll_back s ea transaction' prior metadata prepared

  -- From the snapshot on.
  unfoldable pub transact :
      S → ℕ → T → (T → T → Option Bool) → Option T → Metadata → ApplyResult × S
  unfolding prepare conclude
  transact s ea t verifier prior metadata =
      let (prepared, s') = if host.is_pointer t then prepare host s ea else (untouched, s) in
      conclude ((host.set_tinfo s' ea t).1) ea t verifier
        (noted prepared (begin (is_present prior))) prior metadata prepared

  -- `apply_global_tinfo_transaction_detailed`, without the test build's branch; `none` is a null
  -- verifier.
  unfoldable pub apply_detailed : S → ℕ → T → Option (T → T → Option Bool) → ApplyResult × S
  unfolding preparation_allowed read_type read_item transact
  apply_detailed s ea t none = (failed_restored, s)
  apply_detailed s ea t (some verifier) =
      if ea == badaddr || host.is_empty t
      then (failed_restored, s)
      else if not (host.is_main_thread s)
      then (failed_restored, s)
      else if not (preparation_allowed host s ea t)
      then (failed_restored, s)
      else elim (read_type host s ea) [
        | none ↦ (failed_restored, s)
        | some prior ↦ elim (read_item host s ea) [
          | none ↦ (failed_restored, s)
          | some metadata ↦ transact s ea t verifier prior metadata
        ]
      ]

  abbrev pub is_applied : ApplyResult → Bool
  is_applied applied = true
  is_applied _ = false

  abbrev pub apply_transaction : S → ℕ → T → Option (T → T → Option Bool) → Bool × S
  apply_transaction s ea t verifier =
      let (r, s') = apply_detailed s ea t verifier in (is_applied r, s')
