-- ===== src/Prelude/Maps.antt =====
-- A hash map over numbers by what it finds.
use Prim.Native.Nat.{ℕ}
use mathlib.Core.Option.{Option, none, some}
use ida_structor.Prelude.Tests.{◌==◌, if◌then◌else◌}

abbrev pub Map : Type 0 → Type 0
Map A = ℕ → Option A

abbrev pub empty_map : {A : Type 0} → Map A
empty_map k = none

-- `m[key] = value`.
abbrev pub assign : {A : Type 0} → Map A → ℕ → A → Map A
assign m key value k = if k == key then some value else m k

-- `m.erase(key)`.
abbrev pub erase : {A : Type 0} → Map A → ℕ → Map A
erase m key k = if k == key then none else m k
