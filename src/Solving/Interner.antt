-- ===== src/Solving/Interner.antt =====
-- Identities of type variables (include/structor/z3/type_variable_identity.hpp).
pub mod Exact
pub mod Stable
use Prim.Native.String.{String}
use text.Mathlib.Text.{◌==◌ as str_eq}
use ida_structor.Prelude.{
  ℕ, zero, suc, ◌+◌, ◌-◌, ◌^◌, Bool, true, false, not, ◌&&◌, ◌||◌, ◌==◌, ltb, if◌then◌else◌, Option,
  none, some,
}
use ida_structor.Prelude.Int.{ℤ}
use ida_structor.Solving.Signature.{int_eq}

pub record TypeVariableIdentity : Type 0 where
  pub module_token : ℕ
  pub scope : ℕ
  pub ordinal : ℕ

abbrev pub is_valid : TypeVariableIdentity → Bool
is_valid v = not (v.module_token == 0) && not (v.scope == 0) && not (v.ordinal == 0)

-- `TypeVariableKey`; the node of an expression is its address.
pub data TypeVariableKey : Type 0 where
  local : ℕ → ℤ → ℤ → TypeVariableKey
  memory : ℕ → ℤ → ℕ → TypeVariableKey
  named : ℕ → String → TypeVariableKey
  expression : ℕ → ℕ → TypeVariableKey

-- The equality of complete tagged keys.
abbrev pub key_eq : TypeVariableKey → TypeVariableKey → Bool
key_eq (local f i v) (local g j w) = f == g && int_eq i j && int_eq v w
key_eq (memory b o n) (memory c p m) = b == c && int_eq o p && n == m
key_eq (named f s) (named g t) = f == g && str_eq s t
key_eq (expression f m) (expression g n) = f == g && m == n
key_eq _ _ = false

pub data Failure : Type 0 where
  overflow invalid_argument logic_error : Failure

pub data Result (A : Type 0) : Type 0 where
  ok : A → Result A
  err : Failure → Result A

abbrev max_u64 : ℕ
max_u64 = 2 ^ 64 - 1

-- `allocate_type_variable_scope` on the shared counter, whose address is the module's token; the
-- exchange that succeeds.
unfoldable pub allocate_scope : ℕ → Result ℕ × ℕ
allocate_scope next = if next == max_u64 then (err overflow, next) else (ok next, next + 1)

abbrev first_of : ℕ → Result ℕ → Result TypeVariableIdentity
first_of token (ok scope) = ok (record { module_token = token; scope = scope; ordinal = 1 })
first_of token (err e) = err e

unfoldable pub fresh_identity : ℕ → ℕ → Result TypeVariableIdentity × ℕ
unfolding allocate_scope
fresh_identity token next =
    let (scope, next') = allocate_scope next in (first_of token scope, next')

abbrev pub Registry : Type 0
Registry = TypeVariableKey → Option TypeVariableIdentity

abbrev pub emplace : Registry → TypeVariableKey → TypeVariableIdentity → Registry
emplace r key v k = if key_eq k key then some v else r k

-- The two registries by what they find, and their sizes.
pub record Interner : Type 0 where
  pub module_token : ℕ
  pub scope : ℕ
  pub ordinal : ℕ
  pub generation : ℕ
  pub expression_pass_active : Bool
  pub persistent : Registry
  pub expressions : Registry
  pub persistent_size : ℕ
  pub expressions_size : ℕ

abbrev pub new_interner : ℕ → ℕ → Interner
new_interner token scope = record {
  module_token = token;
  scope = scope;
  ordinal = 0;
  generation = 0;
  expression_pass_active = false;
  persistent = λ k. none;
  expressions = λ k. none;
  persistent_size = 0;
  expressions_size = 0;
}

abbrev pub next_identity : Interner → TypeVariableIdentity
next_identity x = record { module_token = x.module_token; scope = x.scope; ordinal = suc x.ordinal }

-- `intern` in the persistent registry.
unfoldable pub intern : Interner → TypeVariableKey → Result TypeVariableIdentity × Interner
intern x key = elim (x.persistent key) [
  | some v ↦ (ok v, x)
  | none ↦ if x.ordinal == max_u64 then (err overflow, x) else (
    ok (next_identity x),
    record x {
      ordinal = suc x.ordinal;
      persistent = emplace x.persistent key (next_identity x);
      persistent_size = suc x.persistent_size;
    },
  )
]

-- `intern` in the registry of the expression pass.
unfoldable pub intern_expression :
    Interner → TypeVariableKey → Result TypeVariableIdentity × Interner
intern_expression x key = elim (x.expressions key) [
  | some v ↦ (ok v, x)
  | none ↦ if x.ordinal == max_u64 then (err overflow, x) else (
    ok (next_identity x),
    record x {
      ordinal = suc x.ordinal;
      expressions = emplace x.expressions key (next_identity x);
      expressions_size = suc x.expressions_size;
    },
  )
]

abbrev pub local_variable : Interner → ℕ → ℤ → ℤ → Result TypeVariableIdentity × Interner
local_variable x f i v = intern x (local f i v)

abbrev pub memory_variable : Interner → ℕ → ℤ → ℕ → Result TypeVariableIdentity × Interner
memory_variable x b o n = intern x (memory b o n)

abbrev pub named_variable : Interner → ℕ → String → Result TypeVariableIdentity × Interner
named_variable x f s = intern x (named f s)

unfoldable pub begin_expression_pass : Interner → Result (Unit {0}) × Interner
begin_expression_pass x = if x.generation == max_u64 then (err overflow, x) else (
  ok tt,
  record x {
    generation = x.generation + 1;
    expressions = λ k. none;
    expressions_size = 0;
    expression_pass_active = true;
  },
)

unfoldable pub end_expression_pass : Interner → Interner
end_expression_pass x = record x {
  expressions = λ k. none;
  expressions_size = 0;
  expression_pass_active = false;
}

-- A null node is address 0.
unfoldable pub expression_variable : Interner → ℕ → Result TypeVariableIdentity × Interner
unfolding intern_expression
expression_variable x node =
    if node == 0
    then (err invalid_argument, x)
    else if not x.expression_pass_active
    then (err logic_error, x)
    else intern_expression x (expression x.generation node)

abbrev pub size : Interner → ℕ
size x = x.persistent_size + x.expressions_size

-- One call, and any number of them.
pub data InternerStep : Interner → Interner → Type 0 where
  interns : (x : Interner) (k : TypeVariableKey) → InternerStep x (intern x k).1
  begins : (x : Interner) → InternerStep x (begin_expression_pass x).1
  ends : (x : Interner) → InternerStep x (end_expression_pass x)
  visits : (x : Interner) (node : ℕ) → InternerStep x (expression_variable x node).1

pub data Calls : Interner → Interner → Type 0 where
  stop : (x : Interner) → Calls x x
  next : {x y z : Interner} → InternerStep x y → Calls y z → Calls x z
