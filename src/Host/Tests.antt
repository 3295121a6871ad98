-- ===== src/Host/Tests.antt =====
-- The theorems on the host's policies at concrete inputs.
use ida_structor.Prelude.{ℕ, ◌≡◌, ◌⊎◌, refl, Bool, true, false, ◌==◌, [], ◌∷◌, Option, none, some}
use ida_structor.Host.Journal.{
  Entry, Journal, new_journal, stage, lookup, add_entry, emplace, mark_mutated, mutated_at,
  rollback_order, size, History, here, further, stages, marks,
}
use ida_structor.Host.Journal.Indexed.{IsIndexed}
use ida_structor.Host.Journal.Rollback.{elem, descends, rollback_order_lem}
use ida_structor.Host.Journal.Touch.{new_journal-IsIndexed, History-IsIndexed, stage_again}
use ida_structor.Host.Lifecycle.{
  HostHookLifecycle, install, uninstall, run, is_shutdown, is_hooked, mark_installed,
  shutdown_terminal,
}
use ida_structor.Host.Tinfo.{
  apply_detailed, transact, conclude, verified, roll_back, undo, after_clearing, checked, restored,
}
use ida_structor.Host.Tinfo.Policy.{
  finish_application_verification, finish_rollback_verification, rollback_plan,
}
use ida_structor.Host.Tinfo.Database.{
  HostDatabase, Metadata, read_item, read_type, preparation_allowed, prepare, item_restored,
  flags_restored, all_mapped, read_flags,
}
use ida_structor.Host.Tinfo.Restore.{Reads, IsRestored, apply_applied, apply_failed_restored}

abbrev first : Entry
first = record {
  name = "node";
  existed_before = true;
  original_identity = 7;
  current_identity = 0;
  mutated = false;
}

abbrev one_entry : Journal
one_entry = record { entries = first ∷ []; indices = ("node", 0) ∷ [] }

abbrev marked_entry : Journal
marked_entry = (mark_mutated one_entry 0 9).1

staging : History new_journal one_entry
unfolding stage lookup add_entry emplace
staging = further (stages new_journal "node" true 7) (here one_entry)

marking : History one_entry marked_entry
marking = further (marks one_entry 0 9) (here marked_entry)

one_entry-IsIndexed : IsIndexed one_entry
one_entry-IsIndexed = History-IsIndexed staging new_journal-IsIndexed

History-IsIndexed_example : IsIndexed marked_entry
History-IsIndexed_example = History-IsIndexed marking one_entry-IsIndexed

stage_again_example : stage marked_entry "node" false 3 ≡ (some 0, marked_entry)
unfolding lookup marking
stage_again_example = stage_again one_entry-IsIndexed marking refl "node" 0 refl false 3

rollback_order_lem_example :
    (descends (size marked_entry) (rollback_order marked_entry) ≡ true)
    × (elem 0 (rollback_order marked_entry) ≡ mutated_at marked_entry.entries 0)
rollback_order_lem_example = rollback_order_lem marked_entry 0

abbrev closed : HostHookLifecycle
closed = record { hooked = false; shutdown = true }

shutdown_terminal_example :
    (is_shutdown (run closed (install ∷ uninstall ∷ [])) ≡ true)
    × (is_hooked (run closed (install ∷ uninstall ∷ [])) ≡ false)
    × ((mark_installed (run closed (install ∷ uninstall ∷ []))).0 ≡ false)
shutdown_terminal_example = shutdown_terminal closed (install ∷ uninstall ∷ []) refl refl

-- A database of one type, numbered, on one item; type 1 is a pointer.
abbrev database : HostDatabase (Option ℕ) ℕ
database = record {
  is_main_thread = λ s. true;
  is_mapped = λ s ea. some true;
  get_ptr_size = λ s. some 8;
  get_tinfo = λ s ea. some s;
  get_item_head = λ s ea. some 16;
  get_item_size = λ s ea. some 8;
  get_flags = λ s ea. some 0;
  is_unknown = λ f. false;
  create_qword = λ s ea n. (some true, s);
  create_dword = λ s ea n. (some true, s);
  set_tinfo = λ s ea t. (true, some t);
  del_tinfo = λ s ea. (true, none);
  del_items = λ s ea n. (true, s);
  is_empty = λ t. t == 0;
  is_pointer = λ t. t == 1;
  equals_to = λ t u. t == u;
}

abbrev exactly : ℕ → ℕ → Option Bool
exactly t u = some (t == u)

abbrev never : ℕ → ℕ → Option Bool
never t u = some false

apply_applied_example :
    Reads database (apply_detailed database none 16 1 (some exactly)).1 16 1 exactly
unfolding apply_detailed transact conclude verified preparation_allowed prepare read_type read_item
    all_mapped read_flags finish_application_verification
apply_applied_example = apply_applied database none 16 1 exactly refl

apply_failed_restored_example :
    ((apply_detailed database (some 3) 16 2 (some never)).1 ≡ some 3)
    ⊎ ((prior : Option ℕ) × (m : Metadata) × (read_type database (some 3) 16 ≡ some prior)
        × (read_item database (some 3) 16 ≡ some m)
        × IsRestored database (apply_detailed database (some 3) 16 2 (some never)).1 16 prior m)
unfolding apply_detailed transact conclude verified preparation_allowed prepare read_type read_item
    all_mapped read_flags finish_application_verification roll_back undo after_clearing checked
    restored item_restored flags_restored rollback_plan finish_rollback_verification
apply_failed_restored_example = apply_failed_restored database (some 3) 16 2 never refl
