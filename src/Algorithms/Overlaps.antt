-- ===== src/Algorithms/Overlaps.antt =====
-- `find_overlapping_pairs` and `detect_overlaps`.
pub mod Keys
pub mod Active
pub mod Order
pub mod Sweep
pub mod Pairs
pub mod Quadratic
pub mod Ranges
use ida_structor.Prelude.{
  ℕ, zero, suc, ◌^◌, ◌-◌, Bool, true, false, not, ◌&&◌, ◌||◌, ◌==◌, ltb, leb, if◌then◌else◌, List,
  [], ◌∷◌, ◌++◌, map, Option, none, some, length, get_or,
}
use ida_structor.Prelude.Int.{ℤ, pos, negsuc, ◌+ℤ◌, ltb_ℤ, leb_ℤ, ◌==ℤ◌, min_ℤ, max_ℤ}
use ida_structor.Prelude.Sorting.{sort_by, unique_by}

pub record Interval : Type 0 where
  pub start : ℤ
  pub end : ℤ
  pub id : ℤ

-- The default constructor.
abbrev pub no_interval : Interval
no_interval = record { start = pos 0; end = pos 0; id = negsuc 0 }

abbrev pub is_empty : Interval → Bool
is_empty v = leb_ℤ v.end v.start

abbrev pub overlaps : Interval → Interval → Bool
overlaps v w =
    if is_empty v || is_empty w then false else ltb_ℤ v.start w.end && ltb_ℤ w.start v.end

pub record Event : Type 0 where
  pub point : ℤ
  pub is_start : Bool
  pub interval_index : ℕ

abbrev pub event_less : Event → Event → Bool
event_less a b =
    if not (a.point ==ℤ b.point)
    then ltb_ℤ a.point b.point
    else if (a.is_start && not b.is_start) || (not a.is_start && b.is_start)
    then not a.is_start
    else ltb a.interval_index b.interval_index

abbrev pub two_events : ℕ → Interval → List Event → List Event
two_events i v rest =
    if is_empty v
    then rest
    else record { point = v.start; is_start = true; interval_index = i }
      ∷ record { point = v.end; is_start = false; interval_index = i }
      ∷ rest

-- The loop that builds the events, from index `i` on.
unfoldable pub events_from : ℕ → List Interval → List Event
events_from i [] = []
events_from i (v ∷ vs) = let rest = events_from (suc i) vs in two_events i v rest

abbrev pub id_at : List Interval → ℕ → ℤ
id_at vs i = (get_or vs i no_interval).id

abbrev pub ordered : ℤ → ℤ → ℤ × ℤ
ordered a b = (min_ℤ a b, max_ℤ a b)

abbrev pub reports : List Interval → ℕ → List ℕ → List (ℤ × ℤ)
reports vs j active = map (λ i. ordered (id_at vs i) (id_at vs j)) active

-- `active.back()` and `pop_back`.
abbrev pub last_or : ℕ → List ℕ → ℕ
last_or d [] = d
last_or d (x ∷ xs) = last_or x xs

abbrev pub without_last : List ℕ → List ℕ
without_last [] = []
without_last (x ∷ []) = []
without_last (x ∷ y ∷ ys) = x ∷ without_last (y ∷ ys)

-- The first entry that is `i` is overwritten by the last, which is then dropped.
unfoldable pub swap_out : ℕ → List ℕ → List ℕ
swap_out i [] = []
swap_out i (x ∷ []) = if x == i then [] else x ∷ []
swap_out i (x ∷ y ∷ ys) =
    let rest = swap_out i (y ∷ ys) in
    if x == i then last_or y ys ∷ without_last (y ∷ ys) else x ∷ rest

unfoldable pub sweep : List Interval → List ℕ → List Event → List (ℤ × ℤ)
unfolding swap_out
sweep vs active [] = []
sweep vs active (e ∷ es) =
    let started =
      reports vs e.interval_index active ++ sweep vs (active ++ (e.interval_index ∷ [])) es in
    let ended = sweep vs (swap_out e.interval_index active) es in
    if e.is_start then started else ended

abbrev pub pair_less : ℤ × ℤ → ℤ × ℤ → Bool
pair_less p q = ltb_ℤ p.0 q.0 || (p.0 ==ℤ q.0 && ltb_ℤ p.1 q.1)

abbrev pub pair_eq : ℤ × ℤ → ℤ × ℤ → Bool
pair_eq p q = p.0 ==ℤ q.0 && p.1 ==ℤ q.1

unfoldable pub find_overlapping_pairs : List Interval → List (ℤ × ℤ)
unfolding sweep events_from sort_by unique_by
find_overlapping_pairs vs =
    if ltb (length vs) 2
    then []
    else unique_by pair_eq (sort_by pair_less (sweep vs [] (sort_by event_less (events_from 0 vs))))

-- A candidate's offset and size.
pub record Range : Type 0 where
  pub offset : ℤ
  pub size : ℕ

abbrev pub int64_max : ℤ
int64_max = pos (2 ^ 63 - 1)

-- `offset > max - size`, where the size fits.
abbrev pub end_overflows : Range → Bool
end_overflows r = ltb_ℤ int64_max (r.offset +ℤ pos r.size)

abbrev pub is_skipped : Range → Bool
is_skipped r = r.size == 0 || ltb (2 ^ 63 - 1) r.size || end_overflows r

-- The inner loop of the quadratic branch, from `j` on.
unfoldable pub pairs_with : ℕ → Range → ℕ → List Range → List (ℕ × ℕ)
pairs_with i a j [] = []
pairs_with i a j (b ∷ rest) =
    let others = pairs_with i a (suc j) rest in
    if is_skipped b
    then others
    else if ltb_ℤ a.offset (b.offset +ℤ pos b.size) && ltb_ℤ b.offset (a.offset +ℤ pos a.size)
    then (i, j) ∷ others
    else others

unfoldable pub all_pairs : ℕ → List Range → List (ℕ × ℕ)
unfolding pairs_with
all_pairs i [] = []
all_pairs i (a ∷ rest) =
    let others = all_pairs (suc i) rest in
    if is_skipped a then others else pairs_with i a (suc i) rest ++ others

-- The intervals of the sweeping branch.
abbrev pub to_interval : ℕ → Range → Interval
to_interval i r =
    if ltb (2 ^ 63 - 1) r.size || end_overflows r
    then record { start = r.offset; end = r.offset; id = pos i }
    else record { start = r.offset; end = r.offset +ℤ pos r.size; id = pos i }

abbrev pub intervals_from : ℕ → List Range → List Interval
intervals_from i [] = []
intervals_from i (r ∷ rest) = to_interval i r ∷ intervals_from (suc i) rest

abbrev pub as_pair : ℕ × ℕ → ℤ × ℤ
as_pair p = (pos p.0, pos p.1)

-- `none` is the exception on too many candidates.
unfoldable pub detect_overlaps : List Range → ℕ → Option (List (ℤ × ℤ))
unfolding all_pairs find_overlapping_pairs
detect_overlaps rs threshold =
    if ltb (length rs) 2
    then some []
    else if ltb (2 ^ 31 - 1) (length rs)
    then none
    else if leb (length rs) threshold
    then some (map as_pair (all_pairs 0 rs))
    else some (find_overlapping_pairs (intervals_from 0 rs))
