-- ===== src/Host/Journal.antt =====
-- `PersistenceTransactionJournal` (include/structor/persistence_transaction.hpp).
pub mod Indexed
pub mod Rollback
pub mod Touch
use Prim.Native.String.{String}
use text.Mathlib.Text.{◌==◌ as str_eq}
use ida_structor.Prelude.{
  ℕ, zero, suc, Bool, true, false, not, ◌||◌, ◌==◌, leb, if◌then◌else◌, List, [], ◌∷◌, ◌++◌, Option,
  none, some, length, get_elem?, set,
}

pub record Entry : Type 0 where
  pub name : String
  pub existed_before : Bool
  pub original_identity : ℕ
  pub current_identity : ℕ
  pub mutated : Bool

-- `entries_`, and `indices_` as an association list.
pub record Journal : Type 0 where
  pub entries : List Entry
  pub indices : List (String × ℕ)

abbrev pub new_journal : Journal
new_journal = record { entries = []; indices = [] }

unfoldable pub lookup : List (String × ℕ) → String → Option ℕ
lookup [] n = none
lookup ((m, i) ∷ rest) n = let found = lookup rest n in if str_eq m n then some i else found

-- `emplace`; `none` where the key is there already.
unfoldable pub emplace : List (String × ℕ) → String → ℕ → Option (List (String × ℕ))
unfolding lookup
emplace m n i = elim (lookup m n) [ some _ ↦ none | none ↦ some ((n, i) ∷ m) ]

-- The new entry goes at the end, and is taken back where its index cannot be recorded.
unfoldable pub add_entry : Journal → Entry → Option ℕ × Journal
unfolding emplace
add_entry j e = elim (emplace j.indices e.name (length j.entries)) [
  | none ↦ (none, j)
  | some m ↦ (some (length j.entries), record { entries = j.entries ++ (e ∷ []); indices = m })
]

unfoldable pub stage : Journal → String → Bool → ℕ → Option ℕ × Journal
unfolding add_entry lookup
stage j n existed identity = if str_eq n "" then (none, j) else elim (lookup j.indices n) [
  | some i ↦ (some i, j)
  | none ↦ add_entry j (record {
    name = n;
    existed_before = existed;
    original_identity = identity;
    current_identity = 0;
    mutated = false;
  })
]

abbrev pub find : Journal → String → Option ℕ
find j n = lookup j.indices n

abbrev pub entry : Journal → ℕ → Option Entry
entry j i = get_elem? j.entries i

abbrev pub marked : Entry → ℕ → Entry
marked e identity = record e { current_identity = identity; mutated = true }

unfoldable pub mark_mutated : Journal → ℕ → ℕ → Bool × Journal
mark_mutated j i identity = if identity == 0 then (false, j) else elim (get_elem? j.entries i) [
  | none ↦ (false, j)
  | some e ↦ (true, record j { entries = set j.entries i (marked e identity) })
]

-- `entries_[i].mutated`, false where there is no entry.
abbrev pub mutated_at : List Entry → ℕ → Bool
mutated_at [] i = false
mutated_at (e ∷ es) zero = e.mutated
mutated_at (e ∷ es) (suc i) = mutated_at es i

-- The loop of `rollback_order`, from `n` down.
unfoldable pub rollback_below : List Entry → ℕ → List ℕ
rollback_below es zero = []
rollback_below es (suc i) =
    let rest = rollback_below es i in if mutated_at es i then i ∷ rest else rest

unfoldable pub rollback_order : Journal → List ℕ
unfolding rollback_below
rollback_order j = rollback_below j.entries (length j.entries)

abbrev pub size : Journal → ℕ
size j = length j.entries

abbrev pub clear : Journal → Journal
clear j = record { entries = []; indices = [] }

-- One call that changes a journal, and any number of them in order.
pub data JournalStep : Journal → Journal → Type 0 where
  stages :
      (j : Journal) (n : String) (existed : Bool) (identity : ℕ)
      → JournalStep j ((stage j n existed identity).1)
  marks : (j : Journal) (i identity : ℕ) → JournalStep j ((mark_mutated j i identity).1)
  clears : (j : Journal) → JournalStep j (clear j)

pub data History : Journal → Journal → Type 0 where
  here : (j : Journal) → History j j
  further : {j k l : Journal} → JournalStep j k → History k l → History j l

abbrev pub is_clear : {j k : Journal} → JournalStep j k → Bool
is_clear (stages j n existed identity) = false
is_clear (marks j i identity) = false
is_clear (clears j) = true

-- Whether `clear` is among the calls.
abbrev pub was_cleared : {j k : Journal} → History j k → Bool
was_cleared (here j) = false
was_cleared (further s h) = is_clear s || was_cleared h
