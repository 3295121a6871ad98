-- ===== src/Abi/Microsoft.antt =====
-- Where `fixed_x64_parameter_locations` puts the arguments of a Microsoft x64 call.
use ida_structor.Prelude.{
  ℕ, suc, ◌+◌, ◌-◌, ◌*◌, ◌^◌, ◌≤◌, ◌≡◌, refl, true, false, ltb, ltb→lt, if◌then◌else◌, List, [],
  ◌∷◌, Option, some, get_or, length, arith, Bool-cases, inl, inr,
}
use ida_structor.Abi.{microsoft_x64, fixed_prototype}
use ida_structor.Abi.Locations.{
  floating, AbiArgument, AbiParameterLocation, in_register, on_stack, all_supported,
  microsoft_integer, floating_names, Cursor, place_microsoft, place_all, start,
  fixed_x64_parameter_locations, located,
}

-- The convention's slot of position `i`, of which the class of the argument selects the register.
pub slot : ℕ → AbiArgument → AbiParameterLocation
slot i a =
    if ltb i 4
    then in_register
        (elim a.kind [ floating ↦ get_or floating_names i "" | _ ↦ get_or microsoft_integer i "" ])
    else on_stack (40 + 8 * (i - 4))

abbrev pub slots_from : ℕ → List AbiArgument → List AbiParameterLocation
slots_from i [] = []
slots_from i (a ∷ rest) = slot i a ∷ slots_from (suc i) rest

placed :
    (place : Cursor → AbiArgument → Option (AbiParameterLocation × Cursor)) (c c' : Cursor)
    (a : AbiArgument) (rest : List AbiArgument) (l : AbiParameterLocation)
    (ls : List AbiParameterLocation)
    → place c a ≡ some (l, c')
    → place_all place c' rest ≡ some ls
    → place_all place c (a ∷ rest) ≡ some (l ∷ ls)
unfolding place_all
placed place c c' a rest l ls p r = ground arith

in_slot :
    (c : Cursor) (a : AbiArgument)
    → ltb c.index 4 ≡ true
    → place_microsoft c a ≡ some (slot c.index a, record c { index = suc c.index })
unfolding place_microsoft slot
in_slot c a f = rw f

pushed :
    (c : Cursor) (a : AbiArgument)
    → c.stack_offset ≡ 40 + 8 * (c.index - 4)
    → ltb c.index 4 ≡ false
    → ltb (2 ^ 63 - 1 - 8) c.stack_offset ≡ false
    → place_microsoft c a
      ≡ some (slot c.index a, record c { index = suc c.index; stack_offset = c.stack_offset + 8 })
unfolding place_microsoft slot
pushed c a o f g = rw (f, g, o)

fits : (o n : ℕ) → o + 8 * suc n ≤ 2 ^ 63 - 1 → ltb (2 ^ 63 - 1 - 8) o ≡ false
fits o n h = ground arith

placements :
    (c : Cursor) (args : List AbiArgument)
    → c.stack_offset ≡ 40 + 8 * (c.index - 4)
    → c.stack_offset + 8 * length args ≤ 2 ^ 63 - 1
    → place_all place_microsoft c args ≡ some (slots_from c.index args)
unfolding place_all
placements c [] o h = refl
placements c (a ∷ rest) o h = elim (Bool-cases (ltb c.index 4)) [
  | inl f ↦
      let lt = ltb→lt _ _ f in
      placed place_microsoft c (record c { index = suc c.index }) a rest _ _ (in_slot c a f)
        (placements (record c { index = suc c.index }) rest (omega arith) (omega arith))
  | inr f ↦
      let le : 4 ≤ c.index = ground arith in
      placed place_microsoft c (record c { index = suc c.index; stack_offset = c.stack_offset + 8 })
        a rest _ _ (pushed c a o f (fits c.stack_offset (length rest) h))
        (placements (record c { index = suc c.index; stack_offset = c.stack_offset + 8 }) rest
          (omega arith) (omega arith))
]

-- For a fixed Microsoft x64 prototype of supported arguments whose stack arguments would fit below
-- 2^63, the argument at position i is in the i-th register of its class while i < 4, and from then
-- on at offset 40 + 8 (i - 4), above the return address and the 32 bytes of home space.
pub microsoft_locations :
    (args : List AbiArgument)
    → all_supported args ≡ true
    → 40 + 8 * length args ≤ 2 ^ 63 - 1
    → fixed_x64_parameter_locations microsoft_x64 args fixed_prototype ≡ slots_from 0 args
unfolding fixed_x64_parameter_locations located
microsoft_locations args s h = rw (s, placements (start 40) args refl h)
