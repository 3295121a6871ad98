-- ===== src/Host/Journal/Touch.antt =====
-- The journal over a history of calls: its index, and the first state observed of a name.
use Prim.Native.String.{String}
use text.Mathlib.Text.{◌==◌ as str_eq}
use text.Mathlib.TextEquality.{eq_iff}
use ida_structor.Prelude.{
  ℕ, suc, ◌<◌, ◌≡◌, ◌⊎◌, refl, sym, ap, subst, ◌∙◌, Bool, false, ◌||◌, ◌==◌, arith, List, [], ◌∷◌,
  length, get_elem?, set, zero, Bool-cases, Option-cases, inl, inr, none, some, get_elem?-set_self,
  get_elem?-set_ne, ℕ_discrete,
}
use ida_structor.Host.Journal.{
  Entry, Journal, lookup, stage, mark_mutated, marked, find, new_journal, JournalStep, stages,
  marks, clears, History, here, further, is_clear, was_cleared,
}
use ida_structor.Host.Journal.Indexed.{
  IsIndexed, IsSameOrigin, get_elem?-append, stage-cases, stage-IsIndexed, stage_found, none≢some,
}

abbrev with_mark : Journal → ℕ → Entry → ℕ → Journal
with_mark j i e identity = record j { entries = set j.entries i (marked e identity) }

mark-cases :
    (j : Journal) (i identity : ℕ)
    → ((mark_mutated j i identity).1 ≡ j)
      ⊎ ((e : Entry) × (get_elem? j.entries i ≡ some e)
          × ((mark_mutated j i identity).1 ≡ with_mark j i e identity))
unfolding mark_mutated
mark-cases j i identity = elim (Bool-cases (identity == 0)) [
  | inl z ↦ inl (rw z refl)
  | inr z ↦ elim (Option-cases (get_elem? j.entries i)) [
    | inl f ↦ inl (rw (z, f) refl)
    | inr (e, f) ↦ inr (e, f, rw (z, f) refl)
  ]
]

get_elem?_lt : (es : List Entry) (i : ℕ) (e : Entry) → get_elem? es i ≡ some e → i < length es
get_elem?_lt [] i e h = absurd (ground arith)
get_elem?_lt (x ∷ es) zero e h = omega arith
get_elem?_lt (x ∷ es) (suc i) e h = let r = get_elem?_lt es i e h in omega arith

entry_inj : {e f : Entry} → some e ≡ some f → e ≡ f
entry_inj {e} h = ap (λ o. elim o [ none ↦ e | some x ↦ x ]) h

set-some :
    (es : List Entry) (i m : ℕ) (v x : Entry)
    → get_elem? (set es i v) m ≡ some x
    → (y : Entry) × (get_elem? es m ≡ some y)
set-some [] i m v x h = absurd (ground arith)
set-some (e ∷ es) zero zero v x h = (e, refl)
set-some (e ∷ es) zero (suc m) v x h = (x, h)
set-some (e ∷ es) (suc i) zero v x h = (e, refl)
set-some (e ∷ es) (suc i) (suc m) v x h = set-some es i m v x h

same_refl : (e : Entry) → IsSameOrigin e e
same_refl e = record { name = refl; existed_before = refl; original_identity = refl }

abbrev pub Kept : Journal → ℕ → Entry → Type 0
Kept k i e = (f : Entry) × (get_elem? k.entries i ≡ some f) × IsSameOrigin e f

with_mark-Kept :
    (j : Journal) (i : ℕ) (e : Entry) (identity : ℕ)
    → get_elem? j.entries i ≡ some e
    → (n : ℕ) (x : Entry) → get_elem? j.entries n ≡ some x
    → Kept (with_mark j i e identity) n x
with_mark-Kept j i e identity h n x g = elim (ℕ_discrete i n) [
  | yes s ↦
      let same : e ≡ x = entry_inj (sym h ∙ ap (get_elem? j.entries) s ∙ g) in
      subst (λ y. Kept (with_mark j i e identity) n y) same
        (subst (λ m. Kept (with_mark j i e identity) m e) s
          (
            marked e identity,
            get_elem?-set_self j.entries i (marked e identity) (get_elem?_lt j.entries i e h),
            record { name = refl; existed_before = refl; original_identity = refl },
          ))
  | no s ↦ (x, get_elem?-set_ne j.entries (marked e identity) s ∙ g, same_refl x)
]

step-Kept :
    {j k : Journal} (s : JournalStep j k)
    → is_clear s ≡ false
    → (i : ℕ) (e : Entry) → get_elem? j.entries i ≡ some e
    → Kept k i e
step-Kept (stages j n existed identity) z i e h = elim (stage-cases j n existed identity) [
  | inl s ↦ subst (λ k. Kept k i e) (sym s) (e, h, same_refl e)
  | inr (s, t, u) ↦
      subst (λ k. Kept k i e) (sym u) (e, get_elem?-append j.entries _ i e h, same_refl e)
]
step-Kept (clears j) z i e h = absurd (ground arith)
step-Kept (marks j m identity) z i e h = elim (mark-cases j m identity) [
  | inl s ↦ subst (λ k. Kept k i e) (sym s) (e, h, same_refl e)
  | inr (x, t, u) ↦ subst (λ k. Kept k i e) (sym u) (with_mark-Kept j m x identity t i e h)
]

with_mark-IsIndexed :
    (j : Journal) (i : ℕ) (e : Entry) (identity : ℕ)
    → get_elem? j.entries i ≡ some e
    → IsIndexed j
    → IsIndexed (with_mark j i e identity)
with_mark-IsIndexed j i e identity h w = record {
  sound = λ n m g.
      let (x, a, b) = w.sound n m g in
      let (y, c, d) = with_mark-Kept j i e identity h m x a in (y, c, sym d.name ∙ b);
  complete = λ m x g.
      let (y, a) = set-some j.entries i m (marked e identity) x g in
      let (z, c, d) = with_mark-Kept j i e identity h m y a in
      let name : y.name ≡ x.name = d.name ∙ ap (λ f. f.name) (entry_inj (sym c ∙ g)) in
      ap (lookup j.indices) (sym name) ∙ w.complete m y a;
  named = w.named;
}

pub new_journal-IsIndexed : IsIndexed new_journal
unfolding lookup
new_journal-IsIndexed = record {
  sound = λ n i g. absurd (none≢some g);
  complete = λ i e g. absurd (ground arith);
  named = refl;
}

step-IsIndexed : {j k : Journal} → JournalStep j k → IsIndexed j → IsIndexed k
step-IsIndexed (stages j n existed identity) w = stage-IsIndexed j n existed identity w
step-IsIndexed (clears j) w = new_journal-IsIndexed
step-IsIndexed (marks j m identity) w = elim (mark-cases j m identity) [
  | inl s ↦ subst IsIndexed (sym s) w
  | inr (x, t, u) ↦ subst IsIndexed (sym u) (with_mark-IsIndexed j m x identity t w)
]

-- The journal's index agrees with its entries after any calls of `stage`, `mark_mutated` and
-- `clear` on a journal where it agrees: each entry is found under its name and each found index
-- holds it.
pub History-IsIndexed : {j k : Journal} → History j k → IsIndexed j → IsIndexed k
History-IsIndexed (here j) w = w
History-IsIndexed (further s h) w = History-IsIndexed h (step-IsIndexed s w)

same_trans : {e f g : Entry} → IsSameOrigin e f → IsSameOrigin f g → IsSameOrigin e g
same_trans a b = record {
  name = a.name ∙ b.name;
  existed_before = a.existed_before ∙ b.existed_before;
  original_identity = a.original_identity ∙ b.original_identity;
}

-- The state first staged for a name is immutable: after any further calls without a `clear` the
-- entry at its index has the same name, existence and original identity.
pub History-Kept :
    {j k : Journal} (t : History j k)
    → was_cleared t ≡ false
    → (i : ℕ) (e : Entry) → get_elem? j.entries i ≡ some e
    → Kept k i e
History-Kept (here j) z i e h = (e, h, same_refl e)
History-Kept (further s t) z i e h =
    let (y, z') = neither _ _ z in
    let (f, a, b) = step-Kept s y i e h in
    let (g, c, d) = History-Kept t z' i f a in (g, c, same_trans b d)
  where
    neither : (a b : Bool) → (a || b) ≡ false → (a ≡ false) × (b ≡ false)
    neither a b h = ground arith

-- A name once staged stays staged until a `clear`: on a journal whose index agrees with its entries
-- and where the name is found at an index, after any further calls of `stage` and `mark_mutated`
-- and none of `clear`, staging the name again returns that index and changes nothing, whatever
-- state is passed.
pub stage_again :
    {j k : Journal}
    → IsIndexed j
    → (t : History j k) → was_cleared t ≡ false
    → (n : String) (i : ℕ) → find j n ≡ some i
    → (existed : Bool) (identity : ℕ) → stage k n existed identity ≡ (some i, k)
stage_again {j} {k} w t z n i h existed identity =
    let (e, a, b) = w.sound n i h in
    let (f, c, d) = History-Kept t z i e a in
    let v = History-IsIndexed t w in
    let found : lookup k.indices n ≡ some i =
      ap (lookup k.indices) (sym b ∙ d.name) ∙ v.complete i f c in
    elim (Bool-cases (str_eq n "")) [
      | inl y ↦
          absurd (none≢some (sym v.named ∙ ap (lookup k.indices) (sym ((eq_iff n "").0 y)) ∙ found))
      | inr y ↦ stage_found k n existed identity i y found
    ]
