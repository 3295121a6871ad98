-- ===== src/Abi.antt =====
-- Calling conventions (include/structor/z3/calling_convention_model.hpp).
pub mod Locations
pub mod Placement
pub mod Assignment
pub mod Microsoft
mod Tests
use Prim.Native.Char.{code}
use Prim.Native.String.{String}
use text.Mathlib.Text.{◌==◌ as str_eq}
use ida_structor.Prelude.{
  ℕ, ◌≡◌, refl, Bool, true, false, not, arith, Bool-cases, inl, inr, ◌&&◌, ◌||◌, ◌==◌,
  if◌then◌else◌, List, [], ◌∷◌,
}

pub data CallingConvention : Type 0 where
  unknown cdecl stdcall fastcall thiscall system_v_x64 microsoft_x64 arm_aapcs arm64_aapcs64 :
      CallingConvention

pub data ParameterPassingMode : Type 0 where
  unspecified fixed_prototype variadic unprototyped : ParameterPassingMode

pub data TargetMachine : Type 0 where
  unknown x86 arm : TargetMachine

pub data TargetObjectFormat : Type 0 where
  unknown pe elf mach_o : TargetObjectFormat

pub data SignatureConvention : Type 0 where
  default cdecl stdcall fastcall thiscall unsupported : SignatureConvention

pub record CallingConventionTarget : Type 0 where
  pub machine : TargetMachine
  pub bitness : ℕ
  pub pointer_size : ℕ
  pub format : TargetObjectFormat
  pub database_abi : String

-- `database_abi.substr(0, database_abi.find('-'))`.
pub before_dash : String → String
before_dash String.[] = String.[]
before_dash (String.◌∷◌ c s) = if code c == b'-' then String.[] else String.◌∷◌ c (before_dash s)

abbrev pub is_elf : TargetObjectFormat → Bool
is_elf TargetObjectFormat.elf = true
is_elf _ = false

abbrev pub is_mach_o : TargetObjectFormat → Bool
is_mach_o TargetObjectFormat.mach_o = true
is_mach_o _ = false

abbrev pub x86_convention : SignatureConvention → CallingConvention
x86_convention SignatureConvention.cdecl = CallingConvention.cdecl
x86_convention SignatureConvention.stdcall = CallingConvention.stdcall
x86_convention SignatureConvention.fastcall = CallingConvention.fastcall
x86_convention SignatureConvention.thiscall = CallingConvention.thiscall
x86_convention _ = CallingConvention.unknown

abbrev pub x64_convention : TargetObjectFormat → CallingConvention
x64_convention TargetObjectFormat.pe = CallingConvention.microsoft_x64
x64_convention TargetObjectFormat.elf = CallingConvention.system_v_x64
x64_convention TargetObjectFormat.mach_o = CallingConvention.system_v_x64
x64_convention _ = CallingConvention.unknown

-- The branch of `TargetMachine::X86`.
pub select_x86 : CallingConventionTarget → SignatureConvention → CallingConvention
select_x86 t s =
    let apple_x64 = t.bitness == 64 && is_mach_o t.format && str_eq t.database_abi "osx" in
    if not (str_eq t.database_abi "") && not apple_x64
    then CallingConvention.unknown
    else if t.bitness == 32 && t.pointer_size == 4
    then x86_convention s
    else if not (t.bitness == 64) || not (t.pointer_size == 8)
    then CallingConvention.unknown
    else x64_convention t.format

abbrev pub is_stdcall_or_thiscall : SignatureConvention → Bool
is_stdcall_or_thiscall SignatureConvention.stdcall = true
is_stdcall_or_thiscall SignatureConvention.thiscall = true
is_stdcall_or_thiscall _ = false

-- The branch of `TargetMachine::Arm` and what follows it.
pub select_arm : CallingConventionTarget → SignatureConvention → CallingConvention
unfolding before_dash
select_arm t s =
    let abi_base = before_dash t.database_abi in
    if not (is_elf t.format)
    then CallingConvention.unknown
    else if is_stdcall_or_thiscall s
    then CallingConvention.unknown
    else if t.bitness == 32 && t.pointer_size == 4 && str_eq abi_base "eabi"
    then CallingConvention.arm_aapcs
    else if t.bitness == 64
        && t.pointer_size == 8
        && (str_eq abi_base "" || str_eq abi_base "eabi" || str_eq abi_base "aapcs64")
    then CallingConvention.arm64_aapcs64
    else CallingConvention.unknown

abbrev pub select_machine :
    TargetMachine → CallingConventionTarget → SignatureConvention → CallingConvention
select_machine TargetMachine.x86 t s = select_x86 t s
select_machine TargetMachine.arm t s = select_arm t s
select_machine TargetMachine.unknown t s = CallingConvention.unknown

pub select_calling_convention : CallingConventionTarget → SignatureConvention → CallingConvention
unfolding select_x86 select_arm
select_calling_convention t SignatureConvention.unsupported = CallingConvention.unknown
select_calling_convention t s = select_machine t.machine t s

-- What the convention found says of the target.
pub sizes_agree : CallingConvention → CallingConventionTarget → Bool
sizes_agree CallingConvention.unknown t = true
sizes_agree CallingConvention.cdecl t = t.bitness == 32 && t.pointer_size == 4
sizes_agree CallingConvention.stdcall t = t.bitness == 32 && t.pointer_size == 4
sizes_agree CallingConvention.fastcall t = t.bitness == 32 && t.pointer_size == 4
sizes_agree CallingConvention.thiscall t = t.bitness == 32 && t.pointer_size == 4
sizes_agree CallingConvention.arm_aapcs t = t.bitness == 32 && t.pointer_size == 4
sizes_agree CallingConvention.system_v_x64 t = t.bitness == 64 && t.pointer_size == 8
sizes_agree CallingConvention.microsoft_x64 t = t.bitness == 64 && t.pointer_size == 8
sizes_agree CallingConvention.arm64_aapcs64 t = t.bitness == 64 && t.pointer_size == 8

x86_sizes :
    (t : CallingConventionTarget) (s : SignatureConvention) → sizes_agree (select_x86 t s) t ≡ true
unfolding select_x86 sizes_agree
x86_sizes t s = elim (Bool-cases (t.bitness == 32 && t.pointer_size == 4)) [
  | inl e ↦ ground arith
  | inr e ↦ ground arith
]

arm_sizes :
    (t : CallingConventionTarget) (s : SignatureConvention) → sizes_agree (select_arm t s) t ≡ true
unfolding select_arm sizes_agree
arm_sizes t s = ground arith

machine_sizes :
    (m : TargetMachine) (t : CallingConventionTarget) (s : SignatureConvention)
    → sizes_agree (select_machine m t s) t ≡ true
unfolding sizes_agree
machine_sizes TargetMachine.x86 t s = x86_sizes t s
machine_sizes TargetMachine.arm t s = arm_sizes t s
machine_sizes TargetMachine.unknown t s = refl

-- A convention is only ever selected for a target of its bitness and pointer size: 32 and 4 or 64
-- and 8.
pub select_calling_convention_sizes :
    (t : CallingConventionTarget) (s : SignatureConvention)
    → sizes_agree (select_calling_convention t s) t ≡ true
unfolding select_calling_convention sizes_agree
select_calling_convention_sizes t SignatureConvention.unsupported = refl
select_calling_convention_sizes t s = machine_sizes t.machine t s
