-- ===== src/Abi/Tests.antt =====
-- The theorems on calling conventions at concrete inputs.
use ida_structor.Prelude.{◌≡◌, refl, List, [], ◌∷◌, arith}
use ida_structor.Abi.{
  CallingConventionTarget, TargetMachine, TargetObjectFormat, system_v_x64, microsoft_x64,
  fixed_prototype,
}
use ida_structor.Abi.Locations.{
  AbiArgument, integer_or_pointer, floating, all_supported, is_supported,
  fixed_x64_parameter_locations, start,
}
use ida_structor.Abi.Assignment.{system_v_locations}
use ida_structor.Abi.Placement.{IsAssigned}
use ida_structor.Abi.Microsoft.{slots_from, microsoft_locations}

abbrev linux : CallingConventionTarget
linux = record {
  machine = TargetMachine.x86;
  bitness = 64;
  pointer_size = 8;
  format = TargetObjectFormat.elf;
  database_abi = "";
}

abbrev arguments : List AbiArgument
arguments =
    record { kind = integer_or_pointer; size = 8 }
    ∷ record { kind = floating; size = 8 }
    ∷ record { kind = integer_or_pointer; size = 4 }
    ∷ []

system_v_locations_example :
    IsAssigned
      (start 8)
      arguments
      (fixed_x64_parameter_locations system_v_x64 arguments fixed_prototype)
unfolding all_supported is_supported
system_v_locations_example = system_v_locations arguments refl (omega arith)

microsoft_locations_example :
    fixed_x64_parameter_locations microsoft_x64 arguments fixed_prototype ≡ slots_from 0 arguments
unfolding all_supported is_supported
microsoft_locations_example = microsoft_locations arguments refl (omega arith)
