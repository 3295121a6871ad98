-- ===== src/Analysis/RewriteIndex/Roots.antt =====
-- The slots of the canonical roots.
use ida_structor.Prelude.{
  ℕ, suc, ◌<◌, ◌≡◌, refl, sym, ap, ◌∙◌, ◌==◌, ==_iff, if◌then◌else◌, List, [], ◌∷◌, ◌++◌, Option,
  none, some, arith, Bool-cases, Option-cases, inl, inr, length, length-set, length-append,
}
use ida_structor.Prelude.Maps.{Map, assign}
use ida_structor.Analysis.RewriteIndex.{
  Index, empty_index, erase_slot, upsert, rebuild_head_index, reused, added, assign_all,
}

-- Every slot in use is below `next`, roots do not share a slot, and the heads are those of the
-- slots.
pub record IsIndex (x : Index) : Type 0 where
  pub roots_bound : (k i : ℕ) → x.canonical k ≡ some i → i < x.next
  pub roots_apart : (k l i : ℕ) → x.canonical k ≡ some i → x.canonical l ≡ some i → k ≡ l
  pub aliases_bound : (k i : ℕ) → x.aliases k ≡ some i → i < x.next
  pub slots : length x.slot_heads ≡ x.next
  pub rebuilt : x.heads ≡ rebuild_head_index x.slot_heads

abbrev slot_or : ℕ → Option ℕ → ℕ
slot_or n none = n
slot_or n (some i) = i

-- The slot that `upsert` returns.
abbrev pub slot_of : Index → ℕ → ℕ
slot_of x root = slot_or x.next (x.canonical root)

erase_slot-roots :
    (x : Index)
    → IsIndex x
    → (root index : ℕ) → x.canonical root ≡ some index
    → (k : ℕ)
    → assign (erase_slot x.canonical index) root index k
      ≡ (if k == root then some index else x.canonical k)
erase_slot-roots x w root index h k = elim (Bool-cases (k == root)) [
  | inl e ↦ rw e refl
  | inr e ↦ elim (Option-cases (x.canonical k)) [
    | inl f ↦ rw (e, f) refl
    | inr (i, f) ↦ elim (Bool-cases (i == index)) [
      | inl g ↦
          let same = w.roots_apart k root index (f ∙ ap some ((==_iff i index).0 g)) h in
          absurd (ground arith)
      | inr g ↦ rw (e, f, g) refl
    ]
  ]
]

-- Re-registering a root keeps its slot and a new root gets the next one; no other root moves.
pub upsert-canonical :
    (x : Index) (root : ℕ) (head : Option ℕ) (aliases : List ℕ)
    → IsIndex x
    → (k : ℕ)
    → ((upsert x root head aliases).0.0 ≡ slot_of x root)
      × ((upsert x root head aliases).1.canonical k
          ≡ (if k == root then some (slot_of x root) else x.canonical k))
unfolding upsert
upsert-canonical x root head aliases w k = elim (Option-cases (x.canonical root)) [
  | inl e ↦ rw (e, upsert) (refl, refl)
  | inr (i, e) ↦ rw (e, upsert) (refl, erase_slot-roots x w root i e k)
]

abbrev Bounded : Map ℕ → ℕ → Type 0
Bounded m n = (k i : ℕ) → m k ≡ some i → i < n

assign-Bounded : (m : Map ℕ) (a i n : ℕ) → i < n → Bounded m n → Bounded (assign m a i) n
assign-Bounded m a i n l h k j e = elim (Bool-cases (k == a)) [
  | inl f ↦ ground arith
  | inr f ↦ h k j (ground arith)
]

assign_all-Bounded :
    (m : Map ℕ) (addresses : List ℕ) (i n : ℕ)
    → i < n
    → Bounded m n
    → Bounded (assign_all m addresses i) n
assign_all-Bounded m [] i n l h = h
assign_all-Bounded m (a ∷ rest) i n l h =
    assign_all-Bounded (assign m a i) rest i n l (assign-Bounded m a i n l h)

erase_slot-some : (m : Map ℕ) (slot k i : ℕ) → erase_slot m slot k ≡ some i → m k ≡ some i
erase_slot-some m slot k i h = ground arith

erase_slot-Bounded : (m : Map ℕ) (slot n : ℕ) → Bounded m n → Bounded (erase_slot m slot) n
erase_slot-Bounded m slot n h k i e = h k i (erase_slot-some m slot k i e)

reused-IsIndex :
    (x : Index) (root index : ℕ) (head : Option ℕ) (aliases : List ℕ)
    → IsIndex x
    → x.canonical root ≡ some index
    → IsIndex (reused x index root head aliases)
reused-IsIndex x root index head aliases w h =
    let bound = w.roots_bound root index h in
    record {
      roots_bound =
          assign-Bounded (erase_slot x.canonical index) root index x.next bound
            (erase_slot-Bounded x.canonical index x.next w.roots_bound);
      roots_apart = λ k l i e f.
          apart k l i (sym (erase_slot-roots x w root index h k) ∙ e)
            (sym (erase_slot-roots x w root index h l) ∙ f);
      aliases_bound =
          assign_all-Bounded (erase_slot x.aliases index) aliases index x.next bound
            (erase_slot-Bounded x.aliases index x.next w.aliases_bound);
      slots = length-set x.slot_heads index head ∙ w.slots;
      rebuilt = refl;
    }
  where
    apart :
        (k l i : ℕ)
        → (if k == root then some index else x.canonical k) ≡ some i
        → (if l == root then some index else x.canonical l) ≡ some i
        → k ≡ l
    apart k l i e f =
        ground (arith, w.roots_apart k l i, w.roots_apart k root i, w.roots_apart root l i)

added-apart :
    (x : Index) (root : ℕ)
    → IsIndex x
    → (k l i : ℕ) → assign x.canonical root x.next k ≡ some i
    → assign x.canonical root x.next l ≡ some i
    → k ≡ l
added-apart x root w k l i e f =
    ground (arith, w.roots_apart k l i, w.roots_bound k i, w.roots_bound l i)

more-Bounded : (m : Map ℕ) (n : ℕ) → Bounded m n → Bounded m (suc n)
more-Bounded m n h k i e = let l = h k i e in omega arith

added-IsIndex :
    (x : Index) (root : ℕ) (head : Option ℕ) (aliases : List ℕ)
    → IsIndex x
    → IsIndex (added x root head aliases)
added-IsIndex x root head aliases w = record {
  roots_bound =
      assign-Bounded x.canonical root x.next (suc x.next) (omega arith)
        (more-Bounded x.canonical x.next w.roots_bound);
  roots_apart = added-apart x root w;
  aliases_bound =
      assign_all-Bounded x.aliases aliases x.next (suc x.next) (omega arith)
        (more-Bounded x.aliases x.next w.aliases_bound);
  slots =
      length-set (x.slot_heads ++ (none ∷ [])) x.next head
      ∙ length-append x.slot_heads (none ∷ [])
      ∙ omega (arith, w.slots);
  rebuilt = refl;
}

-- Registering a root keeps the index well formed: slots below `next`, no slot shared by two roots,
-- one head entry for each slot and the head map rebuilt from them.
pub upsert-IsIndex :
    (x : Index) (root : ℕ) (head : Option ℕ) (aliases : List ℕ)
    → IsIndex x
    → IsIndex (upsert x root head aliases).1
unfolding upsert
upsert-IsIndex x root head aliases w = elim (Option-cases (x.canonical root)) [
  | inl e ↦ rw (e, upsert) (added-IsIndex x root head aliases w)
  | inr (i, e) ↦ rw (e, upsert) (reused-IsIndex x root i head aliases w e)
]

pub empty_index-IsIndex : IsIndex empty_index
unfolding rebuild_head_index
empty_index-IsIndex = record {
  roots_bound = λ k i e. absurd (ground arith);
  roots_apart = λ k l i e f. absurd (ground arith);
  aliases_bound = λ k i e. absurd (ground arith);
  slots = refl;
  rebuilt = refl;
}
