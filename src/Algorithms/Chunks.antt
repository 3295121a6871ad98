-- ===== src/Algorithms/Chunks.antt =====
-- How work is cut into ranges: `parallel_for_chunks`, by the ranges that its function is called on,
-- and `partition_for_parallel`. The number of hardware threads is an argument.
use native.Mathlib.Nat.{div-lt_iff_lt-mul}
use ida_structor.Prelude.{
  ℕ, zero, suc, ◌+◌, ◌-◌, ◌*◌, ◌/◌, ◌%◌, ◌^◌, ◌≤◌, ◌<◌, ◌≡◌, refl, subst, false, ◌||◌, ◌==◌, ltb,
  ltb→lt, leb, if◌then◌else◌, Bool-cases, inl, inr, min, max, List, [], ◌∷◌, Option, none, some,
  arith,
}

abbrev pub word : ℕ → ℕ
word n = n % 2 ^ 64

-- `(n + d - 1) / d` on 64-bit numbers.
abbrev pub divide_up : ℕ → ℕ → ℕ
divide_up n d = word (word (n + d) + (2 ^ 64 - 1)) / d

unfoldable pub default_parallel_worker_count : ℕ → ℕ → ℕ → ℕ
default_parallel_worker_count hardware item_count min_items =
    let least = max 1 min_items in
    if ltb item_count (word (least * 2))
    then 1
    else max 1 (min (if hardware == 0 then 2 else hardware) (divide_up item_count least))

-- The rounds of the loop over the workers but one, and the rest for this thread.
unfoldable pub chunks_from : ℕ → ℕ → ℕ → ℕ → List (ℕ × ℕ)
chunks_from zero start size count = if ltb start count then (start, count) ∷ [] else []
chunks_from (suc rounds) start size count =
    let rest =
      (start, min (word (start + size)) count)
      ∷ chunks_from rounds (min (word (start + size)) count) size count in
    if ltb start count then rest else []

unfoldable pub parallel_for_chunks : ℕ → ℕ → ℕ → List (ℕ × ℕ)
parallel_for_chunks hardware item_count min_items =
    let workers = default_parallel_worker_count hardware item_count min_items in
    if leb workers 1
    then (0, item_count) ∷ []
    else chunks_from (workers - 1) 0 (divide_up item_count workers) item_count

abbrev pub before : ℕ × ℕ → Option (List (ℕ × ℕ)) → Option (List (ℕ × ℕ))
before r none = none
before r (some l) = some (r ∷ l)

-- The `for` loop; `none` is a loop that has not ended.
unfoldable pub partitions_from : ℕ → ℕ → ℕ → ℕ → Option (List (ℕ × ℕ))
partitions_from zero start size count = none
partitions_from (suc f) start size count =
    let rest =
      before (start, min (word (start + size)) count)
        (partitions_from f (word (start + size)) size count) in
    if ltb start count then rest else some []

unfoldable pub partition_for_parallel : ℕ → ℕ → ℕ → Option (List (ℕ × ℕ))
partition_for_parallel elements_per_line count num_threads =
    if count == 0 || num_threads == 0
    then some []
    else partitions_from (suc count) 0 (max (divide_up count num_threads) elements_per_line) count

-- Ranges that are not empty, each where the one before ends, from `a` to `b`.
abbrev pub Tiles : ℕ → ℕ → List (ℕ × ℕ) → Type 0
Tiles a b [] = a ≡ b
Tiles a b (r ∷ rest) = (r.0 ≡ a) × (r.0 < r.1) × Tiles r.1 b rest

chunks_from-Tiles :
    (rounds start size count : ℕ)
    → 0 < size
    → start ≤ count
    → count + size < 2 ^ 64
    → Tiles start count (chunks_from rounds start size count)
unfolding chunks_from
chunks_from-Tiles zero start size count h g k = elim (Bool-cases (ltb start count)) [
  | inl e ↦ rw e (refl, ground arith, refl)
  | inr e ↦ rw e (ground arith)
]
chunks_from-Tiles (suc rounds) start size count h g k = elim (Bool-cases (ltb start count)) [
  | inl e ↦ rw e (
    refl,
    ground arith,
    chunks_from-Tiles rounds (min (word (start + size)) count) size count h (ground arith) k,
  )
  | inr e ↦ rw e (ground arith)
]

divide_up_bounds :
    (n d : ℕ) → 0 < n → 0 < d → n + d < 2 ^ 64 → (0 < divide_up n d) × (divide_up n d ≤ n)
divide_up_bounds n d h g k =
    let total : word (word (n + d) + (2 ^ 64 - 1)) ≡ n + d - 1 = omega arith in
    let low : (n + d - 1) / d < 1 → n + d - 1 < 1 * d = (div-lt_iff_lt-mul g).0 in
    let high : n + d - 1 < suc n * d → (n + d - 1) / d < suc n = (div-lt_iff_lt-mul g).1 in
    let more : n + d - 1 < suc n * d = grind arith in
    rw total (at_least low, ground (arith, high more))
  where
    at_least : ((n + d - 1) / d < 1 → n + d - 1 < 1 * d) → 0 < (n + d - 1) / d
    at_least f = elim (Bool-cases (ltb ((n + d - 1) / d) 1)) [
      | inl e ↦ let q = f (ltb→lt ((n + d - 1) / d) 1 e) in absurd (omega arith)
      | inr e ↦ ground arith
    ]

workers_bound :
    (hardware item_count min_items : ℕ)
    → hardware < 2 ^ 32
    → default_parallel_worker_count hardware item_count min_items < 2 ^ 32
unfolding default_parallel_worker_count
workers_bound hardware item_count min_items h = ground arith

-- With at least one item and fewer than 2^62, and fewer than 2^32 hardware threads, the calls cover
-- the items from the first to the last, each once and in order, and no call is on an empty range.
pub parallel_for_chunks-Tiles :
    (hardware item_count min_items : ℕ)
    → 0 < item_count
    → item_count < 2 ^ 62
    → hardware < 2 ^ 32
    → Tiles 0 item_count (parallel_for_chunks hardware item_count min_items)
unfolding parallel_for_chunks
parallel_for_chunks-Tiles hardware item_count min_items h g k =
    elim (Bool-cases (leb (default_parallel_worker_count hardware item_count min_items) 1)) [
      | inl e ↦ rw e (refl, h, refl)
      | inr e ↦
          let workers = default_parallel_worker_count hardware item_count min_items in
          let few = workers_bound hardware item_count min_items k in
          let some_ : 0 < workers = ground arith in
          let size = divide_up_bounds item_count workers h some_ (omega arith) in
          rw e (
            chunks_from-Tiles (workers - 1) 0 (divide_up item_count workers) item_count size.0
              (omega arith) (omega arith))
    ]

partitions_from-Tiles :
    (f start size count : ℕ)
    → 0 < size
    → start ≤ count + size
    → count + size + size < 2 ^ 64
    → 0 < f
    → count < start + f
    → (l : List (ℕ × ℕ)) × (partitions_from f start size count ≡ some l)
      × Tiles (min start count) count l
unfolding partitions_from
partitions_from-Tiles zero start size count h g k z b = absurd (omega arith)
partitions_from-Tiles (suc f) start size count h g k z b = elim (Bool-cases (ltb start count)) [
  | inl e ↦
      let (l, r, t) =
        partitions_from-Tiles f (word (start + size)) size count h (ground arith) k (ground arith)
          (ground arith) in
      (
        (start, min (word (start + size)) count) ∷ l,
        rw (e, r) refl,
        (ground arith, ground arith, t),
      )
  | inr e ↦ ([], rw e refl, ground arith)
]

-- With at least one thread and fewer than 2^32, fewer than 2^61 elements, and fewer than 2^32
-- elements in a cache line, the loop ends, and the partitions cover the elements from the first to
-- the last, each once and in order, and none is empty.
pub partition_for_parallel-Tiles :
    (elements_per_line count num_threads : ℕ)
    → 0 < num_threads
    → count < 2 ^ 61
    → num_threads < 2 ^ 32
    → elements_per_line < 2 ^ 32
    → (l : List (ℕ × ℕ)) × (partition_for_parallel elements_per_line count num_threads ≡ some l)
      × Tiles 0 count l
unfolding partition_for_parallel
partition_for_parallel-Tiles elements_per_line zero num_threads h g k e = ([], refl, refl)
partition_for_parallel-Tiles elements_per_line (suc c) num_threads h g k e =
    let count = suc c in
    let size = divide_up_bounds count num_threads (omega arith) h (omega arith) in
    let thread : (num_threads == 0) ≡ false = ground arith in
    let item : (suc c == 0) ≡ false = ground arith in
    let (l, r, t) =
      partitions_from-Tiles (suc count) 0 (max (divide_up count num_threads) elements_per_line)
        count (omega arith) (omega arith) (omega arith) (omega arith) (omega arith) in
    (l, rw (item, thread) r, subst (λ m. Tiles m count l) (from_zero count) t)
  where
    from_zero : (n : ℕ) → min 0 n ≡ 0
    from_zero n = omega arith
