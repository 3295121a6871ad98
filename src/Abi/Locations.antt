-- ===== src/Abi/Locations.antt =====
-- `fixed_x64_parameter_locations`.
use Prim.Native.String.{String}
use ida_structor.Prelude.{
  ℕ, suc, ◌+◌, ◌-◌, ◌^◌, Bool, true, false, ◌&&◌, ◌||◌, ltb, ◌==◌, if◌then◌else◌, List, [], ◌∷◌,
  Option, none, some, get_or,
}
use ida_structor.Abi.{CallingConvention, ParameterPassingMode}

pub data AbiArgumentClass : Type 0 where
  unsupported integer_or_pointer floating : AbiArgumentClass

pub record AbiArgument : Type 0 where
  pub kind : AbiArgumentClass
  pub size : ℕ

-- A register by its name, or bytes from the stack pointer at the callee's entry.
pub data AbiParameterLocation : Type 0 where
  in_register : String → AbiParameterLocation
  on_stack : ℕ → AbiParameterLocation

-- The test of the first loop.
unfoldable pub is_supported : AbiArgument → Bool
is_supported a = elim a.kind [
  | unsupported ↦ false
  | integer_or_pointer ↦ a.size == 1 || a.size == 2 || a.size == 4 || a.size == 8
  | floating ↦ a.size == 4 || a.size == 8
]

unfoldable pub all_supported : List AbiArgument → Bool
unfolding is_supported
all_supported [] = true
all_supported (a ∷ rest) = is_supported a && all_supported rest

abbrev pub sysv_integer : List String
sysv_integer = "rdi" ∷ "rsi" ∷ "rdx" ∷ "rcx" ∷ "r8" ∷ "r9" ∷ []

abbrev pub microsoft_integer : List String
microsoft_integer = "rcx" ∷ "rdx" ∷ "r8" ∷ "r9" ∷ []

abbrev pub floating_names : List String
floating_names = "xmm0" ∷ "xmm1" ∷ "xmm2" ∷ "xmm3" ∷ "xmm4" ∷ "xmm5" ∷ "xmm6" ∷ "xmm7" ∷ []

-- The loop's variables: the argument's index, the two register indices and the stack offset.
pub record Cursor : Type 0 where
  pub index : ℕ
  pub integer_index : ℕ
  pub floating_index : ℕ
  pub stack_offset : ℕ

-- `stack_offset += 8`, and `none` where that would leave the 64-bit range.
abbrev pub push_stack : Cursor → Option (AbiParameterLocation × Cursor)
push_stack c =
    if ltb (2 ^ 63 - 1 - 8) c.stack_offset
    then none
    else some (
      on_stack c.stack_offset,
      record c { index = suc c.index; stack_offset = c.stack_offset + 8 },
    )

unfoldable pub place_microsoft : Cursor → AbiArgument → Option (AbiParameterLocation × Cursor)
place_microsoft c a =
    if ltb c.index 4
    then some (
      in_register (elim a.kind [
        | floating ↦ get_or floating_names c.index ""
        | _ ↦ get_or microsoft_integer c.index ""
      ]),
      record c { index = suc c.index },
    )
    else push_stack c

unfoldable pub place_sysv_floating : Cursor → Option (AbiParameterLocation × Cursor)
place_sysv_floating c =
    if ltb c.floating_index 8
    then some (
      in_register (get_or floating_names c.floating_index ""),
      record c { index = suc c.index; floating_index = suc c.floating_index },
    )
    else push_stack c

unfoldable pub place_sysv_integer : Cursor → Option (AbiParameterLocation × Cursor)
place_sysv_integer c =
    if ltb c.integer_index 6
    then some (
      in_register (get_or sysv_integer c.integer_index ""),
      record c { index = suc c.index; integer_index = suc c.integer_index },
    )
    else push_stack c

unfoldable pub place_sysv : Cursor → AbiArgument → Option (AbiParameterLocation × Cursor)
unfolding place_sysv_floating place_sysv_integer
place_sysv c a = elim a.kind [ floating ↦ place_sysv_floating c | _ ↦ place_sysv_integer c ]

-- The loop over the arguments; `none` is the return of no locations.
unfoldable pub place_all :
    (Cursor → AbiArgument → Option (AbiParameterLocation × Cursor))
    → Cursor
    → List AbiArgument
    → Option (List AbiParameterLocation)
place_all place c [] = some []
place_all place c (a ∷ rest) = elim (place c a) [
  | none ↦ none
  | some (l, c') ↦ elim (place_all place c' rest) [ none ↦ none | some ls ↦ some (l ∷ ls) ]
]

abbrev pub start : ℕ → Cursor
start offset = record { index = 0; integer_index = 0; floating_index = 0; stack_offset = offset }

abbrev pub or_nothing : Option (List AbiParameterLocation) → List AbiParameterLocation
or_nothing none = []
or_nothing (some ls) = ls

-- The argument list of a fixed prototype, once the convention is known to be one of the two.
unfoldable pub located : CallingConvention → List AbiArgument → List AbiParameterLocation
unfolding all_supported place_microsoft place_sysv place_all
located CallingConvention.microsoft_x64 args =
    if all_supported args then or_nothing (place_all place_microsoft (start 40) args) else []
located CallingConvention.system_v_x64 args =
    if all_supported args then or_nothing (place_all place_sysv (start 8) args) else []
located _ args = []

unfoldable pub fixed_x64_parameter_locations :
    CallingConvention → List AbiArgument → ParameterPassingMode → List AbiParameterLocation
unfolding located
fixed_x64_parameter_locations c args ParameterPassingMode.fixed_prototype = located c args
fixed_x64_parameter_locations c args _ = []
