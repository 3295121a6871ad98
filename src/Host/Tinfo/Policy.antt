-- ===== src/Host/Tinfo/Policy.antt =====
-- `GlobalTinfoTransactionState`, the part of the transaction that knows no database.
use ida_structor.Prelude.{Bool, true, false, ◌&&◌, if◌then◌else◌}

pub data Phase : Type 0 where
  pending committed rollback_required rolled_back rollback_failed : Phase

pub record RollbackPlan : Type 0 where
  pub remove_requested_tinfo : Bool
  pub remove_temporary_data_item : Bool
  pub restore_prior_tinfo : Bool

pub record Transaction : Type 0 where
  pub had_prior_tinfo : Bool
  pub temporary_data_item : Bool
  pub phase : Phase

abbrev pub begin : Bool → Transaction
begin had_prior = record {
  had_prior_tinfo = had_prior;
  temporary_data_item = false;
  phase = Phase.pending;
}

abbrev pub record_temporary_data_item : Transaction → Transaction
record_temporary_data_item t = record t { temporary_data_item = true }

unfoldable pub finish_application_verification : Transaction → Bool → Bool × Transaction
finish_application_verification t exact = elim t.phase [
  | pending ↦
      (exact, record t { phase = if exact then Phase.committed else Phase.rollback_required })
  | _ ↦ (false, t)
]

abbrev pub no_plan : RollbackPlan
no_plan = record {
  remove_requested_tinfo = false;
  remove_temporary_data_item = false;
  restore_prior_tinfo = false;
}

unfoldable pub rollback_plan : Transaction → RollbackPlan
rollback_plan t = elim t.phase [
  | rollback_required ↦ record {
    remove_requested_tinfo = true;
    remove_temporary_data_item = t.temporary_data_item;
    restore_prior_tinfo = t.had_prior_tinfo;
  }
  | _ ↦ no_plan
]

unfoldable pub finish_rollback_verification : Transaction → Bool → Bool → Bool × Transaction
finish_rollback_verification t tinfo_restored data_item_restored = elim t.phase [
  | rollback_required ↦
      let restored = tinfo_restored && data_item_restored in
      (restored, record t { phase = if restored then Phase.rolled_back else Phase.rollback_failed })
  | _ ↦ (false, t)
]
