-- ===== src/Algorithms/Overlaps/Keys.antt =====
-- The events as keys, of which the interval gives the point, and their order.
use ida_structor.Prelude.{
  ℕ, suc, ◌+◌, ◌≡◌, refl, ap, ◌∙◌, Bool, true, false, not, ◌&&◌, ◌||◌, ◌==◌, if◌then◌else◌, List,
  [], ◌∷◌, map, get_or, arith, Bool-cases, inl, inr,
}
use ida_structor.Algorithms.Overlaps.{
  Interval, no_interval, is_empty, Event, event_less, events_from,
}

-- Whether it is a start, and the index of the interval.
abbrev pub Key : Type 0
Key = Bool × ℕ

abbrev pub is_solid : List Interval → ℕ → Bool
is_solid vs i = not (is_empty (get_or vs i no_interval))

abbrev pub event_of : List Interval → Key → Event
event_of vs k = record {
  point = if k.0 then (get_or vs k.1 no_interval).start else (get_or vs k.1 no_interval).end;
  is_start = k.0;
  interval_index = k.1;
}

-- The order of the events, on their keys; two keys are the same.
unfoldable pub key_less : List Interval → Key → Key → Bool
key_less vs k l = event_less (event_of vs k) (event_of vs l)

abbrev pub bool_eq : Bool → Bool → Bool
bool_eq true b = b
bool_eq false b = not b

abbrev pub key_eq : Key → Key → Bool
key_eq k l = bool_eq k.0 l.0 && k.1 == l.1

-- The event of the key is still to come.
abbrev pub is_pending : Key → List Key → Bool
is_pending k [] = false
is_pending k (l ∷ ls) = key_eq k l || is_pending k ls

abbrev pub keys_from : ℕ → List Interval → List Key
keys_from i [] = []
keys_from i (v ∷ vs) =
    let rest = keys_from (suc i) vs in if is_empty v then rest else (true, i) ∷ (false, i) ∷ rest

pub events_from-map :
    (vs ws : List Interval) (n : ℕ)
    → ((k : ℕ) → get_or ws k no_interval ≡ get_or vs (n + k) no_interval)
    → events_from n ws ≡ map (event_of vs) (keys_from n ws)
unfolding events_from
events_from-map vs [] n h = refl
events_from-map vs (v ∷ ws) n h =
    let head : v ≡ get_or vs n no_interval =
      h 0 ∙ ap (λ m. get_or vs m no_interval) (omega arith) in
    let r =
      events_from-map vs ws (suc n)
        (λ k. h (suc k) ∙ ap (λ m. get_or vs m no_interval) (omega arith)) in
    elim (Bool-cases (is_empty v)) [ inl e ↦ rw (e, r) | inr e ↦ rw (e, r, ← head) ]

module _ (vs : List Interval) where
  pub key_less_irrefl : (k : Key) → key_less vs k k ≡ false
  unfolding key_less
  key_less_irrefl (true, i) = ground arith
  key_less_irrefl (false, i) = ground arith

  pub key_less_asym : (k l : Key) → key_less vs k l ≡ true → key_less vs l k ≡ false
  unfolding key_less
  key_less_asym (true, i) (true, j) h = ground arith
  key_less_asym (true, i) (false, j) h = ground arith
  key_less_asym (false, i) (true, j) h = ground arith
  key_less_asym (false, i) (false, j) h = ground arith

  pub key_less_trans :
      (k l m : Key) → key_less vs k l ≡ true → key_less vs l m ≡ true → key_less vs k m ≡ true
  unfolding key_less
  key_less_trans (true, i) (true, j) (true, o) h g = ground arith
  key_less_trans (true, i) (true, j) (false, o) h g = ground arith
  key_less_trans (true, i) (false, j) (true, o) h g = ground arith
  key_less_trans (true, i) (false, j) (false, o) h g = ground arith
  key_less_trans (false, i) (true, j) (true, o) h g = ground arith
  key_less_trans (false, i) (true, j) (false, o) h g = ground arith
  key_less_trans (false, i) (false, j) (true, o) h g = ground arith
  key_less_trans (false, i) (false, j) (false, o) h g = ground arith

  pub key_less_total :
      (k l : Key) → key_less vs k l ≡ false → key_eq k l ≡ false → key_less vs l k ≡ true
  unfolding key_less
  key_less_total (true, i) (true, j) h g = ground arith
  key_less_total (true, i) (false, j) h g = ground arith
  key_less_total (false, i) (true, j) h g = ground arith
  key_less_total (false, i) (false, j) h g = ground arith

  pub start_before_end : (i : ℕ) → is_solid vs i ≡ true → key_less vs (true, i) (false, i) ≡ true
  unfolding key_less
  start_before_end i h = ground arith
