-- ===== src/Analysis/RewriteIndex/Heads.antt =====
-- Which slot a head address finds.
use ida_structor.Prelude.{
  ℕ, suc, ◌+◌, ◌≡◌, refl, ◌∙◌, ◌&&◌, ◌==◌, ==_iff, if◌then◌else◌, List, [], ◌∷◌, Option, none, some,
  arith, Bool-cases, inl, inr,
}
use ida_structor.Prelude.Maps.{Map, empty_map}
use ida_structor.Analysis.RewriteIndex.{rebuild_step, rebuild_from, rebuild_head_index, count_of}

-- How many slots have the head, and the first of them counted from `slot`.
abbrev pub holders : ℕ → List (Option ℕ) → ℕ
holders a [] = 0
holders a (none ∷ rest) = holders a rest
holders a (some h ∷ rest) = if a == h then suc (holders a rest) else holders a rest

abbrev pub first_holder : ℕ → ℕ → List (Option ℕ) → Option ℕ
first_holder a slot [] = none
first_holder a slot (none ∷ rest) = first_holder a (suc slot) rest
first_holder a slot (some h ∷ rest) = if a == h then some slot else first_holder a (suc slot) rest

-- What the loop makes of one address.
abbrev track : ℕ → Option ℕ → ℕ → ℕ → List (Option ℕ) → Option ℕ
track a found count slot [] = found
track a found count slot (none ∷ rest) = track a found count (suc slot) rest
track a found count slot (some h ∷ rest) =
    track a (if a == h then (if count == 0 then some slot else none) else found)
      (if a == h then count + 1 else count) (suc slot) rest

step_index :
    (m k : Map ℕ) (slot h a : ℕ)
    → (rebuild_step (m, k) slot h).0 a
      ≡ (if a == h then (if count_of (k a) == 0 then some slot else none) else m a)
unfolding rebuild_step
step_index m k slot h a = elim (Bool-cases (a == h)) [
  | inl e ↦ rw ((==_iff a h).0 e) (ground arith)
  | inr e ↦ ground arith
]

step_counts :
    (m k : Map ℕ) (slot h a : ℕ)
    → count_of ((rebuild_step (m, k) slot h).1 a)
      ≡ (if a == h then count_of (k a) + 1 else count_of (k a))
unfolding rebuild_step
step_counts m k slot h a = elim (Bool-cases (a == h)) [
  | inl e ↦ rw ((==_iff a h).0 e) (ground arith)
  | inr e ↦ ground arith
]

rebuild_from-track :
    (m k : Map ℕ) (slot : ℕ) (hs : List (Option ℕ)) (a : ℕ)
    → rebuild_from (m, k) slot hs a ≡ track a (m a) (count_of (k a)) slot hs
unfolding rebuild_from
rebuild_from-track m k slot [] a = refl
rebuild_from-track m k slot (none ∷ rest) a = rebuild_from-track m k (suc slot) rest a
rebuild_from-track m k slot (some h ∷ rest) a =
    rebuild_from-track (rebuild_step (m, k) slot h).0 (rebuild_step (m, k) slot h).1 (suc slot) rest
      a
    ∙ rw (step_index m k slot h a, step_counts m k slot h a)

track_lem :
    (a : ℕ) (found : Option ℕ) (count slot : ℕ) (hs : List (Option ℕ))
    → track a found count slot hs ≡ (
        if holders a hs == 0
        then found
        else (if count == 0 && holders a hs == 1 then first_holder a slot hs else none))
track_lem a found count slot [] = refl
track_lem a found count slot (none ∷ rest) = track_lem a found count (suc slot) rest
track_lem a found count slot (some h ∷ rest) = elim (Bool-cases (a == h)) [
  | inl e ↦ rw e (
      track_lem a (if count == 0 then some slot else none) (count + 1) (suc slot) rest
      ∙ ground arith)
  | inr e ↦ rw e (track_lem a found count (suc slot) rest)
]

-- A head address finds a slot exactly where one slot and no other has that head.
pub rebuild_head_index_lem :
    (hs : List (Option ℕ)) (a : ℕ)
    → rebuild_head_index hs a ≡ (if holders a hs == 1 then first_holder a 0 hs else none)
unfolding rebuild_head_index
rebuild_head_index_lem hs a =
    rebuild_from-track empty_map empty_map 0 hs a ∙ track_lem a none 0 0 hs ∙ ground arith
