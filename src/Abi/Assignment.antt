-- ===== src/Abi/Assignment.antt =====
-- Where `fixed_x64_parameter_locations` puts the arguments of a System V call.
use ida_structor.Prelude.{
  suc, ◌+◌, ◌-◌, ◌*◌, ◌^◌, ◌≤◌, ◌≡◌, refl, ap, sym, ◌∙◌, true, ltb, ltb→lt, List, [], ◌∷◌, get_or,
  length, arith, Bool-cases, &&_iff, inl, inr, ◌⊎◌,
}
use ida_structor.Abi.{system_v_x64, fixed_prototype}
use ida_structor.Abi.Locations.{
  integer_or_pointer, floating, AbiArgument, in_register, on_stack, is_supported, all_supported,
  sysv_integer, floating_names, Cursor, place_sysv, place_all, start, fixed_x64_parameter_locations,
  located,
}
use ida_structor.Abi.Placement.{
  integers, floats, take-drop, drop_all, IsAssigned, Assigns, Fits, slots_cong, Fits-push, placed,
  push_integer, name_integer, push_floating, name_floating,
}

integer_step :
    (c : Cursor) (a : AbiArgument) (rest : List AbiArgument)
    → ((c' : Cursor) → Fits c' rest → Assigns c' rest)
    → a.kind ≡ integer_or_pointer
    → Fits c (a ∷ rest)
    → Assigns c (a ∷ rest)
integer_step c a rest ih e h = elim (Bool-cases (ltb c.integer_index 6)) [
  | inl f ↦
      let c' = record c { index = suc c.index; integer_index = suc c.integer_index } in
      let (ls, r, w) = ih c' (omega arith) in
      let lt = ltb→lt _ _ f in
      (
        in_register (get_or sysv_integer c.integer_index "") ∷ ls,
        placed place_sysv c c' a rest _ ls (name_integer c a e f) r,
        record {
          count = ap suc w.count;
          in_integers = rw e (
              ap (◌∷◌ (get_or sysv_integer c.integer_index "")) w.in_integers
              ∙ sym (take-drop (integers rest) c.integer_index sysv_integer "" lt));
          in_floats = rw e w.in_floats;
          in_stack = rw e (w.in_stack ∙ slots_cong _ _ _ (omega arith));
        },
      )
  | inr f ↦
      let c' = record c { index = suc c.index; stack_offset = c.stack_offset + 8 } in
      let (ls, r, w) = ih c' (omega arith) in
      let g = Fits-push c a rest h in
      let le : 6 ≤ c.integer_index = ground arith in
      (
        on_stack c.stack_offset ∷ ls,
        placed place_sysv c c' a rest _ ls (push_integer c a e f g) r,
        record {
          count = ap suc w.count;
          in_integers = rw e (
              w.in_integers
              ∙ drop_all (integers rest) c.integer_index sysv_integer le
              ∙ sym (drop_all (suc (integers rest)) c.integer_index sysv_integer le));
          in_floats = rw e w.in_floats;
          in_stack = rw e (
              ap (◌∷◌ c.stack_offset) w.in_stack
              ∙ slots_cong c.stack_offset
                  (suc (
                    (integers rest - (6 - c.integer_index))
                    + (floats rest - (8 - c.floating_index))))
                  _ (omega arith));
        },
      )
]

floating_step :
    (c : Cursor) (a : AbiArgument) (rest : List AbiArgument)
    → ((c' : Cursor) → Fits c' rest → Assigns c' rest)
    → a.kind ≡ floating
    → Fits c (a ∷ rest)
    → Assigns c (a ∷ rest)
floating_step c a rest ih e h = elim (Bool-cases (ltb c.floating_index 8)) [
  | inl f ↦
      let c' = record c { index = suc c.index; floating_index = suc c.floating_index } in
      let (ls, r, w) = ih c' (omega arith) in
      let lt = ltb→lt _ _ f in
      (
        in_register (get_or floating_names c.floating_index "") ∷ ls,
        placed place_sysv c c' a rest _ ls (name_floating c a e f) r,
        record {
          count = ap suc w.count;
          in_integers = rw e w.in_integers;
          in_floats = rw e (
              ap (◌∷◌ (get_or floating_names c.floating_index "")) w.in_floats
              ∙ sym (take-drop (floats rest) c.floating_index floating_names "" lt));
          in_stack = rw e (w.in_stack ∙ slots_cong _ _ _ (omega arith));
        },
      )
  | inr f ↦
      let c' = record c { index = suc c.index; stack_offset = c.stack_offset + 8 } in
      let (ls, r, w) = ih c' (omega arith) in
      let g = Fits-push c a rest h in
      let le : 8 ≤ c.floating_index = ground arith in
      (
        on_stack c.stack_offset ∷ ls,
        placed place_sysv c c' a rest _ ls (push_floating c a e f g) r,
        record {
          count = ap suc w.count;
          in_integers = rw e w.in_integers;
          in_floats = rw e (
              w.in_floats
              ∙ drop_all (floats rest) c.floating_index floating_names le
              ∙ sym (drop_all (suc (floats rest)) c.floating_index floating_names le));
          in_stack = rw e (
              ap (◌∷◌ c.stack_offset) w.in_stack
              ∙ slots_cong c.stack_offset
                  (suc (
                    (integers rest - (6 - c.integer_index))
                    + (floats rest - (8 - c.floating_index))))
                  _ (omega arith));
        },
      )
]

kind-cases :
    (a : AbiArgument) → is_supported a ≡ true → (a.kind ≡ integer_or_pointer) ⊎ (a.kind ≡ floating)
unfolding is_supported
kind-cases a s = ground arith

-- The loop succeeds on supported arguments, from any cursor with room on the stack.
assigns :
    (c : Cursor) (args : List AbiArgument)
    → all_supported args ≡ true
    → Fits c args
    → Assigns c args
unfolding all_supported is_supported place_all
assigns c [] s h = (
  [],
  refl,
  record {
    count = refl;
    in_integers = refl;
    in_floats = refl;
    in_stack = slots_cong c.stack_offset 0 _ (omega arith);
  },
)
assigns c (a ∷ rest) s h =
    let ih = λ (c' : Cursor) (f : Fits c' rest). assigns c' rest (((&&_iff _ _).0 s).1) f in
    elim (kind-cases a (((&&_iff _ _).0 s).0)) [
      | inl e ↦ integer_step c a rest ih e h
      | inr e ↦ floating_step c a rest ih e h
    ]

-- For a fixed System V prototype of supported arguments whose stack arguments would fit below 2^63,
-- each argument has a location, the integer arguments take the integer registers in order, the
-- floating ones the vector registers in order, and the arguments that find no register take the
-- consecutive eight-byte slots from offset 8 on.
pub system_v_locations :
    (args : List AbiArgument)
    → all_supported args ≡ true
    → 8 + 8 * length args ≤ 2 ^ 63 - 1
    → IsAssigned (start 8) args (fixed_x64_parameter_locations system_v_x64 args fixed_prototype)
unfolding fixed_x64_parameter_locations located
system_v_locations args s h = let (ls, r, w) = assigns (start 8) args s h in rw (s, r) w
