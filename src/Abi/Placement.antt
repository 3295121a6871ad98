-- ===== src/Abi/Placement.antt =====
-- How the System V loop places one argument, and what it promises of all.
use Prim.Native.String.{String}
use ida_structor.Prelude.{
  ℕ, zero, suc, ◌+◌, ◌-◌, ◌*◌, ◌^◌, ◌≤◌, ◌<◌, ◌≡◌, refl, ap, true, false, ltb, List, [], ◌∷◌,
  Option, some, get_or, take, drop, length, arith,
}
use ida_structor.Abi.Locations.{
  integer_or_pointer, floating, AbiArgument, AbiParameterLocation, in_register, on_stack,
  sysv_integer, floating_names, Cursor, place_sysv, place_sysv_integer, place_sysv_floating,
  place_all,
}

-- The arguments that are not floating, and those that are.
abbrev pub integers : List AbiArgument → ℕ
integers [] = 0
integers (a ∷ rest) = elim a.kind [ floating ↦ integers rest | _ ↦ suc (integers rest) ]

abbrev pub floats : List AbiArgument → ℕ
floats [] = 0
floats (a ∷ rest) = elim a.kind [ floating ↦ suc (floats rest) | _ ↦ floats rest ]

abbrev pub keep_register : AbiParameterLocation → List String → List String
keep_register (in_register r) rs = r ∷ rs
keep_register (on_stack o) rs = rs

-- The registers of the arguments that are not floating, in order, and of those that are.
abbrev pub integer_registers : List AbiArgument → List AbiParameterLocation → List String
integer_registers (a ∷ rest) (l ∷ ls) =
    let rs = integer_registers rest ls in elim a.kind [ floating ↦ rs | _ ↦ keep_register l rs ]
integer_registers _ _ = []

abbrev pub floating_registers : List AbiArgument → List AbiParameterLocation → List String
floating_registers (a ∷ rest) (l ∷ ls) =
    let rs = floating_registers rest ls in elim a.kind [ floating ↦ keep_register l rs | _ ↦ rs ]
floating_registers _ _ = []

-- The stack offsets, in order.
abbrev pub stack_offsets : List AbiParameterLocation → List ℕ
stack_offsets [] = []
stack_offsets (in_register r ∷ ls) = stack_offsets ls
stack_offsets (on_stack o ∷ ls) = o ∷ stack_offsets ls

-- `n` slots of eight bytes from `o` on.
abbrev pub slots : ℕ → ℕ → List ℕ
slots o zero = []
slots o (suc n) = o ∷ slots (o + 8) n

pub take-drop {ℓ} :
    {A : Type ℓ} (n i : ℕ) (xs : List A) (d : A)
    → i < length xs
    → take (suc n) (drop i xs) ≡ get_or xs i d ∷ take n (drop (suc i) xs)
take-drop n zero [] d h = absurd (omega arith)
take-drop n (suc i) [] d h = absurd (omega arith)
take-drop n zero (x ∷ xs) d h = refl
take-drop n (suc i) (x ∷ xs) d h = take-drop n i xs d (omega arith)

pub drop_all {ℓ} : {A : Type ℓ} (n i : ℕ) (xs : List A) → length xs ≤ i → take n (drop i xs) ≡ []
drop_all zero i xs h = refl
drop_all (suc n) zero [] h = refl
drop_all (suc n) (suc i) [] h = refl
drop_all (suc n) zero (x ∷ xs) h = absurd (omega arith)
drop_all (suc n) (suc i) (x ∷ xs) h = drop_all (suc n) i xs (omega arith)

-- What the loop returns from the cursor `c`.
pub record IsAssigned (c : Cursor) (args : List AbiArgument) (ls : List AbiParameterLocation)
    : Type 0 where
  pub count : length ls ≡ length args
  pub in_integers :
      integer_registers args ls ≡ take (integers args) (drop c.integer_index sysv_integer)
  pub in_floats :
      floating_registers args ls ≡ take (floats args) (drop c.floating_index floating_names)
  pub in_stack :
      stack_offsets ls
      ≡ slots c.stack_offset
          ((integers args - (6 - c.integer_index)) + (floats args - (8 - c.floating_index)))

abbrev pub Assigns : Cursor → List AbiArgument → Type 0
Assigns c args =
    (ls : List AbiParameterLocation) × (place_all place_sysv c args ≡ some ls)
    × IsAssigned c args ls

abbrev pub Fits : Cursor → List AbiArgument → Type 0
Fits c args = c.stack_offset + 8 * length args ≤ 2 ^ 63 - 1

pub slots_cong : (o n m : ℕ) → n ≡ m → slots o n ≡ slots o m
slots_cong o n m e = ap (slots o) e

-- A cursor below the limit can push.
pub Fits-push :
    (c : Cursor) (a : AbiArgument) (rest : List AbiArgument)
    → Fits c (a ∷ rest)
    → ltb (2 ^ 63 - 1 - 8) c.stack_offset ≡ false
Fits-push c a rest h = ground arith

pub placed :
    (place : Cursor → AbiArgument → Option (AbiParameterLocation × Cursor)) (c c' : Cursor)
    (a : AbiArgument) (rest : List AbiArgument) (l : AbiParameterLocation)
    (ls : List AbiParameterLocation)
    → place c a ≡ some (l, c')
    → place_all place c' rest ≡ some ls
    → place_all place c (a ∷ rest) ≡ some (l ∷ ls)
unfolding place_all
placed place c c' a rest l ls p r = ground arith

pub push_integer :
    (c : Cursor) (a : AbiArgument)
    → a.kind ≡ integer_or_pointer
    → ltb c.integer_index 6 ≡ false
    → ltb (2 ^ 63 - 1 - 8) c.stack_offset ≡ false
    → place_sysv c a
      ≡ some (
        on_stack c.stack_offset,
        record c { index = suc c.index; stack_offset = c.stack_offset + 8 },
      )
unfolding place_sysv place_sysv_integer
push_integer c a e f g = rw (e, f, g)

pub name_integer :
    (c : Cursor) (a : AbiArgument)
    → a.kind ≡ integer_or_pointer
    → ltb c.integer_index 6 ≡ true
    → place_sysv c a
      ≡ some (
        in_register (get_or sysv_integer c.integer_index ""),
        record c { index = suc c.index; integer_index = suc c.integer_index },
      )
unfolding place_sysv place_sysv_integer
name_integer c a e f = rw (e, f)

pub push_floating :
    (c : Cursor) (a : AbiArgument)
    → a.kind ≡ floating
    → ltb c.floating_index 8 ≡ false
    → ltb (2 ^ 63 - 1 - 8) c.stack_offset ≡ false
    → place_sysv c a
      ≡ some (
        on_stack c.stack_offset,
        record c { index = suc c.index; stack_offset = c.stack_offset + 8 },
      )
unfolding place_sysv place_sysv_floating
push_floating c a e f g = rw (e, f, g)

pub name_floating :
    (c : Cursor) (a : AbiArgument)
    → a.kind ≡ floating
    → ltb c.floating_index 8 ≡ true
    → place_sysv c a
      ≡ some (
        in_register (get_or floating_names c.floating_index ""),
        record c { index = suc c.index; floating_index = suc c.floating_index },
      )
unfolding place_sysv place_sysv_floating
name_floating c a e f = rw (e, f)
