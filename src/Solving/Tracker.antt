-- ===== src/Solving/Tracker.antt =====
-- `ConstraintTracker` (src/z3/constraint_tracker.cpp). A tracking literal is the number in its name;
-- a solver or optimizer is the list of what was added to it, for any type of expressions.
pub mod Aligned
pub mod Misaligned
use ida_structor.Prelude.{
  ℕ, zero, suc, ◌+◌, ◌%◌, ◌^◌, Bool, true, false, if◌then◌else◌, List, [], ◌∷◌, ◌++◌, Option, none,
  some, length, get_elem?, String,
}
use ida_structor.Prelude.Int.{ℤ}
use ida_structor.Prelude.Maps.{Map, empty_map, assign}
use ida_structor.Types.Solver.{to_int32}

pub data Kind : Type 0 where
  coverage non_overlap alignment type_match size_match array_detection other : Kind

pub record ConstraintProvenance : Type 0 where
  pub func_ea : ℕ
  pub insn_ea : ℕ
  pub access_idx : ℤ
  pub description : String
  pub is_soft : Bool
  pub weight : ℤ
  pub tracking_literal : Option ℕ
  pub kind : Kind

pub data Assertion (E : Type 0) : Type 0 where
  plain : E → Assertion E
  weighted : E → ℕ → Assertion E
  implied_by : ℕ → E → Assertion E
  tracked : ℕ → Assertion E

pub record ConstraintTracker : Type 0 where
  pub provenance_map : Map ConstraintProvenance
  pub expr_to_id : Map ℕ
  pub hard_constraint_ids : List ℕ
  pub soft_constraint_ids : List ℕ
  pub tracking_exprs : List ℕ
  pub next_id : ℕ

-- A new tracker, and what `clear` leaves.
abbrev pub new_tracker : ConstraintTracker
new_tracker = record {
  provenance_map = empty_map;
  expr_to_id = empty_map;
  hard_constraint_ids = [];
  soft_constraint_ids = [];
  tracking_exprs = [];
  next_id = 0;
}

abbrev pub take_id : ConstraintTracker → ConstraintProvenance → ConstraintTracker
take_id t p = record t {
  next_id = (t.next_id + 1) % 2 ^ 32;
  provenance_map = assign t.provenance_map t.next_id p;
}

abbrev pub make_tracking_literal : ConstraintTracker → ℕ → ConstraintTracker
make_tracking_literal t id = record t {
  tracking_exprs = t.tracking_exprs ++ (id ∷ []);
  expr_to_id = assign t.expr_to_id id id;
}

abbrev pub keep_id : ConstraintTracker → ℕ → Bool → ConstraintTracker
keep_id t id is_soft = record t {
  hard_constraint_ids =
      if is_soft then t.hard_constraint_ids else t.hard_constraint_ids ++ (id ∷ []);
  soft_constraint_ids =
      if is_soft then t.soft_constraint_ids ++ (id ∷ []) else t.soft_constraint_ids;
}

module _ {E : Type 0} where
  -- The tracker, the solver and the literal.
  unfoldable pub add_tracked :
      ConstraintTracker
      → List (Assertion E)
      → E
      → ConstraintProvenance
      → ConstraintTracker × List (Assertion E) × ℕ
  add_tracked t solver c p = (
    keep_id (make_tracking_literal (take_id t p) t.next_id) t.next_id p.is_soft,
    solver ++ (implied_by t.next_id c ∷ []),
    t.next_id,
  )

  unfoldable pub add_hard :
      ConstraintTracker
      → List (Assertion E)
      → E
      → ConstraintProvenance
      → ConstraintTracker × List (Assertion E)
  unfolding add_tracked
  add_hard t solver c p =
      let r = add_tracked t solver c (record p { is_soft = false }) in (r.0, r.1)

  unfoldable pub add_soft :
      ConstraintTracker
      → List (Assertion E)
      → E
      → ConstraintProvenance
      → ℤ
      → ConstraintTracker × List (Assertion E)
  unfolding add_tracked
  add_soft t solver c p weight =
      let r = add_tracked t solver c (record p { is_soft = true; weight = weight }) in (r.0, r.1)

  unfoldable pub add_to_optimizer :
      ConstraintTracker
      → List (Assertion E)
      → E
      → ConstraintProvenance
      → ConstraintTracker × List (Assertion E)
  add_to_optimizer t opt c p = (
    (let s = take_id t p in
        record s { hard_constraint_ids = s.hard_constraint_ids ++ (t.next_id ∷ []) }),
    opt ++ (plain c ∷ []),
  )

  unfoldable pub add_soft_to_optimizer :
      ConstraintTracker
      → List (Assertion E)
      → E
      → ConstraintProvenance
      → ℕ
      → ConstraintTracker × List (Assertion E)
  add_soft_to_optimizer t opt c p weight = (
    (let s = take_id t (record p { is_soft = true; weight = to_int32 weight }) in
        record s { soft_constraint_ids = s.soft_constraint_ids ++ (t.next_id ∷ []) }),
    opt ++ (weighted c weight ∷ []),
  )

abbrev pub or_skip : Option ℕ → List ℕ → List ℕ
or_skip none rest = rest
or_skip (some e) rest = e ∷ rest

-- The ids that are in range, by the expressions at them.
unfoldable pub literals_at : List ℕ → List ℕ → List ℕ
literals_at exprs [] = []
literals_at exprs (id ∷ ids) = or_skip (get_elem? exprs id) (literals_at exprs ids)

unfoldable pub get_soft_literals : ConstraintTracker → List ℕ
unfolding literals_at
get_soft_literals t = literals_at t.tracking_exprs t.soft_constraint_ids

unfoldable pub get_hard_literals : ConstraintTracker → List ℕ
unfolding literals_at
get_hard_literals t = literals_at t.tracking_exprs t.hard_constraint_ids

abbrev pub get_all_literals : ConstraintTracker → List ℕ
get_all_literals t = t.tracking_exprs

unfoldable pub all_tracked : {E : Type 0} → List ℕ → List (Assertion E)
all_tracked [] = []
all_tracked (l ∷ ls) = tracked l ∷ all_tracked ls

unfoldable pub add_hard_literals_to_optimizer :
    {E : Type 0} → ConstraintTracker → List (Assertion E) → List (Assertion E) × List ℕ
unfolding get_hard_literals all_tracked
add_hard_literals_to_optimizer t opt =
    (opt ++ all_tracked (get_hard_literals t), get_hard_literals t)

abbrev pub look_up : ConstraintTracker → Option ℕ → Option ConstraintProvenance
look_up t none = none
look_up t (some id) = t.provenance_map id

unfoldable pub get_provenance : ConstraintTracker → ℕ → Option ConstraintProvenance
get_provenance t literal = look_up t (t.expr_to_id literal)

abbrev pub with_literal :
    Option ConstraintProvenance → ℕ → List ConstraintProvenance → List ConstraintProvenance
with_literal none literal rest = rest
with_literal (some p) literal rest = record p { tracking_literal = some literal } ∷ rest

unfoldable pub analyze_unsat_core : ConstraintTracker → List ℕ → List ConstraintProvenance
unfolding get_provenance
analyze_unsat_core t [] = []
analyze_unsat_core t (l ∷ core) = with_literal (get_provenance t l) l (analyze_unsat_core t core)
