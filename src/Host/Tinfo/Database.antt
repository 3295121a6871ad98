-- ===== src/Host/Tinfo/Database.antt =====
-- The host database's calls that the transaction makes, and what it reads through them.
use ida_structor.Prelude.{
  ℕ, zero, suc, ◌-◌, ◌^◌, Bool, true, false, not, ◌&&◌, ◌||◌, ◌==◌, ltb, if◌then◌else◌, List, [],
  ◌∷◌, Option, none, some,
}

-- The functions of the host's SDK over a database state. A reading leaves the state as it is and
-- is `none` where it throws; a change returns whether it returned without a throw, and the state
-- it leaves.
pub record HostDatabase (S T : Type 0) : Type 0 where
  pub is_main_thread : S → Bool
  pub is_mapped : S → ℕ → Option Bool
  pub get_ptr_size : S → Option ℕ
  -- `none` inside for a type that is not there.
  pub get_tinfo : S → ℕ → Option (Option T)
  pub get_item_head : S → ℕ → Option ℕ
  pub get_item_size : S → ℕ → Option ℕ
  pub get_flags : S → ℕ → Option ℕ
  pub is_unknown : ℕ → Bool
  -- `create_qword` and `create_dword`; `none` is a throw.
  pub create_qword : S → ℕ → ℕ → Option Bool × S
  pub create_dword : S → ℕ → ℕ → Option Bool × S
  pub set_tinfo : S → ℕ → T → Bool × S
  pub del_tinfo : S → ℕ → Bool × S
  pub del_items : S → ℕ → ℕ → Bool × S
  pub is_empty : T → Bool
  -- `is_ptr() || is_funcptr()`.
  pub is_pointer : T → Bool
  pub equals_to : T → T → Bool

-- `BADADDR`.
abbrev pub badaddr : ℕ
badaddr = 2 ^ 64 - 1

pub record Metadata : Type 0 where
  pub item_head : ℕ
  pub item_size : ℕ
  pub address_flags : ℕ
  pub head_flags : ℕ

-- `preparation_size`, `preparation_flags`, and whether a data item was created.
pub record Prepared : Type 0 where
  pub size : ℕ
  pub flags : List ℕ
  pub temporary : Bool

abbrev pub untouched : Prepared
untouched = record { size = 0; flags = []; temporary = false }

infix 10 ◌>>=◌
abbrev ◌>>=◌ {ℓ} : {A B : Type ℓ} → Option A → (A → Option B) → Option B
none >>= f = none
some a >>= f = f a

module _ {S T : Type 0} (host : HostDatabase S T) where
  unfoldable pub read_type : S → ℕ → Option (Option T)
  read_type s ea = elim (host.get_tinfo s ea) [
    | none ↦ none
    | some none ↦ some none
    | some (some t) ↦ some (if host.is_empty t then none else some t)
  ]

  -- The size of the item, and the flags of its head; 0 without an item.
  abbrev size_of : S → ℕ → Option ℕ
  size_of s head = if head == badaddr then some 0 else host.get_item_size s head

  abbrev head_flags_of : S → ℕ → Option ℕ
  head_flags_of s head = if head == badaddr then some 0 else host.get_flags s head

  unfoldable pub read_item : S → ℕ → Option Metadata
  read_item s ea = do
    head ← host.get_item_head s ea
    size ← size_of s head
    flags ← host.get_flags s ea
    above ← head_flags_of s head
    some (record { item_head = head; item_size = size; address_flags = flags; head_flags = above })

  -- The comparison after the rollback, which stops at the first difference.
  unfoldable pub item_restored : S → ℕ → Metadata → Option Bool
  item_restored s ea m = do
    head ← host.get_item_head s ea
    size ← size_of s head
    if not (head == m.item_head) || not (size == m.item_size) then some false else do
      flags ← host.get_flags s ea
      if not (flags == m.address_flags)
          then some false
          else (if head == badaddr
              then some true
              else do above ← host.get_flags s head; some (above == m.head_flags))

  unfoldable pub flags_restored : S → ℕ → List ℕ → Option Bool
  flags_restored s ea [] = some true
  flags_restored s ea (f ∷ fs) =
      let rest = flags_restored s (suc ea) fs in
      elim (host.get_flags s ea) [ none ↦ none | some g ↦ if g == f then rest else some false ]

  -- `n` addresses from `ea` on are mapped.
  unfoldable pub all_mapped : S → ℕ → ℕ → Bool
  all_mapped s ea zero = true
  all_mapped s ea (suc n) =
      let rest = all_mapped s (suc ea) n in
      elim (host.is_mapped s ea) [ some true ↦ rest | _ ↦ false ]

  -- The first `try` block: whether it goes on.
  unfoldable pub preparation_allowed : S → ℕ → T → Bool
  unfolding all_mapped
  preparation_allowed s ea t = elim (host.is_mapped s ea) [
    | some true ↦ if not (host.is_pointer t) then true else elim (host.get_ptr_size s) [
      | none ↦ false
      | some size ↦
          if not (size == 4) && not (size == 8)
          then false
          else if ltb (badaddr - size) ea
          then false
          else all_mapped s ea size
    ]
    | _ ↦ false
  ]

  unfoldable pub read_flags : S → ℕ → ℕ → Option (List ℕ)
  read_flags s ea zero = some []
  read_flags s ea (suc n) =
      let rest = read_flags s (suc ea) n in
      elim (host.get_flags s ea) [
        | none ↦ none
        | some f ↦ elim rest [ none ↦ none | some fs ↦ some (f ∷ fs) ]
      ]

  abbrev all_unknown : List ℕ → Bool
  all_unknown [] = true
  all_unknown (f ∷ fs) = host.is_unknown f && all_unknown fs

  abbrev was_created : Option Bool → Bool
  was_created (some b) = b
  was_created none = false

  abbrev create : S → ℕ → ℕ → List ℕ → Prepared × S
  create s ea size flags =
      let (created, s') =
        if size == 8 then host.create_qword s ea size else host.create_dword s ea size in
      (record { size = size; flags = flags; temporary = was_created created }, s')

  -- The preparation of a pointer's storage; where a reading throws, nothing is created.
  unfoldable pub prepare : S → ℕ → Prepared × S
  unfolding read_flags
  prepare s ea = elim (host.get_ptr_size s) [
    | none ↦ (untouched, s)
    | some size ↦
        if not (size == 4) && not (size == 8) then (untouched, s) else elim (read_flags s ea size) [
          | none ↦ (record { size = size; flags = []; temporary = false }, s)
          | some flags ↦
              if all_unknown flags
              then create s ea size flags
              else (record { size = size; flags = flags; temporary = false }, s)
        ]
  ]
