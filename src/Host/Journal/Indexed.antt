-- ===== src/Host/Journal/Indexed.antt =====
-- The index of the journal, and what no later call changes.
use Prim.Native.String.{String}
use text.Mathlib.Text.{◌==◌ as str_eq}
use text.Mathlib.TextEquality.{eq_iff}
use ida_structor.Prelude.{
  ℕ, zero, suc, ◌≡◌, ◌≢◌, ◌⊎◌, refl, sym, ap, subst, ◌∙◌, Bool, true, false, arith, List, [], ◌∷◌,
  ◌++◌, length, get_elem?, Bool-cases, Option-cases, inl, inr, none, some,
}
use ida_structor.Host.Journal.{Entry, Journal, lookup, emplace, add_entry, stage}

-- A name is recorded at an index exactly where the entry there has that name, and no entry has
-- the empty name.
pub record IsIndexed (j : Journal) : Type 0 where
  pub sound :
      (n : String) (i : ℕ)
      → lookup j.indices n ≡ some i
      → (e : Entry) × (get_elem? j.entries i ≡ some e) × (e.name ≡ n)
  pub complete :
      (i : ℕ) (e : Entry) → get_elem? j.entries i ≡ some e → lookup j.indices e.name ≡ some i
  pub named : lookup j.indices "" ≡ none

-- What the journal keeps of an entry.
pub record IsSameOrigin (e f : Entry) : Type 0 where
  pub name : e.name ≡ f.name
  pub existed_before : e.existed_before ≡ f.existed_before
  pub original_identity : e.original_identity ≡ f.original_identity

pub get_elem?-append :
    (es fs : List Entry) (i : ℕ) (e : Entry)
    → get_elem? es i ≡ some e
    → get_elem? (es ++ fs) i ≡ some e
get_elem?-append [] fs i e h = absurd (ground arith)
get_elem?-append (x ∷ es) fs zero e h = h
get_elem?-append (x ∷ es) fs (suc i) e h = get_elem?-append es fs i e h

get_elem?_last : (es : List Entry) (e : Entry) → get_elem? (es ++ (e ∷ [])) (length es) ≡ some e
get_elem?_last [] e = refl
get_elem?_last (x ∷ es) e = get_elem?_last es e

get_elem?-append_cases :
    (es : List Entry) (e x : Entry) (i : ℕ)
    → get_elem? (es ++ (e ∷ [])) i ≡ some x
    → (get_elem? es i ≡ some x) ⊎ ((i ≡ length es) × (e ≡ x))
get_elem?-append_cases [] e x zero h = inr (refl, ground arith)
get_elem?-append_cases [] e x (suc i) h = absurd (ground arith)
get_elem?-append_cases (y ∷ es) e x zero h = inl h
get_elem?-append_cases (y ∷ es) e x (suc i) h = elim (get_elem?-append_cases es e x i h) [
  | inl k ↦ inl k
  | inr (k, l) ↦ inr (ap suc k, l)
]

pub none≢some : {i : ℕ} → none ≢ some i
none≢some h = ground arith

-- `stage` returns the index found, adds an entry, or refuses the empty name.
stage_empty :
    (j : Journal) (n : String) (existed : Bool) (identity : ℕ)
    → str_eq n "" ≡ true
    → stage j n existed identity ≡ (none, j)
unfolding stage
stage_empty j n existed identity h = rw h

pub stage_found :
    (j : Journal) (n : String) (existed : Bool) (identity : ℕ) (i : ℕ)
    → str_eq n "" ≡ false
    → lookup j.indices n ≡ some i
    → stage j n existed identity ≡ (some i, j)
unfolding stage
stage_found j n existed identity i h k = rw (h, k)

abbrev pub staged : String → Bool → ℕ → Entry
staged n existed identity = record {
  name = n;
  existed_before = existed;
  original_identity = identity;
  current_identity = 0;
  mutated = false;
}

abbrev pub with_entry : Journal → Entry → Journal
with_entry j e = record {
  entries = j.entries ++ (e ∷ []);
  indices = (e.name, length j.entries) ∷ j.indices;
}

add_new :
    (j : Journal) (e : Entry)
    → lookup j.indices e.name ≡ none
    → add_entry j e ≡ (some (length j.entries), with_entry j e)
unfolding add_entry emplace
add_new j e k = rw (k, add_entry)

stage_new :
    (j : Journal) (n : String) (existed : Bool) (identity : ℕ)
    → str_eq n "" ≡ false
    → lookup j.indices n ≡ none
    → stage j n existed identity
      ≡ (some (length j.entries), with_entry j (staged n existed identity))
unfolding stage
stage_new j n existed identity h k = rw (h, k, add_new j (staged n existed identity) k)

lookup_hit :
    (m n : String) (i : ℕ) (rest : List (String × ℕ))
    → str_eq m n ≡ true
    → lookup ((m, i) ∷ rest) n ≡ some i
unfolding lookup
lookup_hit m n i rest h = rw h

lookup_miss :
    (m n : String) (i : ℕ) (rest : List (String × ℕ))
    → str_eq m n ≡ false
    → lookup ((m, i) ∷ rest) n ≡ lookup rest n
unfolding lookup
lookup_miss m n i rest h = rw h

some_inj : {a b : ℕ} → some a ≡ some b → a ≡ b
some_inj h = ground arith

with_entry_sound :
    (j : Journal) (e : Entry)
    → IsIndexed j
    → (n : String) (i : ℕ) → lookup (with_entry j e).indices n ≡ some i
    → (x : Entry) × (get_elem? (with_entry j e).entries i ≡ some x) × (x.name ≡ n)
with_entry_sound j e w n i g = elim (Bool-cases (str_eq e.name n)) [
  | inl t ↦
      let q = some_inj (sym (lookup_hit e.name n (length j.entries) j.indices t) ∙ g) in
      (
        e,
        subst (λ k. get_elem? (j.entries ++ (e ∷ [])) k ≡ some e) q (get_elem?_last j.entries e),
        (eq_iff e.name n).0 t,
      )
  | inr t ↦
      let (x, a, b) = w.sound n i (sym (lookup_miss e.name n (length j.entries) j.indices t) ∙ g) in
      (x, get_elem?-append j.entries (e ∷ []) i x a, b)
]

with_entry_complete :
    (j : Journal) (e : Entry)
    → IsIndexed j
    → lookup j.indices e.name ≡ none
    → (i : ℕ) (x : Entry) → get_elem? (with_entry j e).entries i ≡ some x
    → lookup (with_entry j e).indices x.name ≡ some i
with_entry_complete j e w k i x g = elim (get_elem?-append_cases j.entries e x i g) [
  | inl t ↦
      let old = w.complete i x t in
      elim (Bool-cases (str_eq e.name x.name)) [
        | inl s ↦
            let same = (eq_iff e.name x.name).0 s in
            absurd (none≢some (sym k ∙ ap (lookup j.indices) same ∙ old))
        | inr s ↦ lookup_miss e.name x.name (length j.entries) j.indices s ∙ old
      ]
  | inr (t, u) ↦
      subst (λ y. lookup (with_entry j e).indices y.name ≡ some i) u
        (lookup_hit e.name e.name (length j.entries) j.indices ((eq_iff e.name e.name).1 refl)
          ∙ ap some (sym t))
]

with_entry-IsIndexed :
    (j : Journal) (e : Entry)
    → IsIndexed j
    → str_eq e.name "" ≡ false
    → lookup j.indices e.name ≡ none
    → IsIndexed (with_entry j e)
with_entry-IsIndexed j e w h k = record {
  sound = with_entry_sound j e w;
  complete = with_entry_complete j e w k;
  named = lookup_miss e.name "" (length j.entries) j.indices h ∙ w.named;
}

-- What `stage` does, split on its two tests.
pub stage-cases :
    (j : Journal) (n : String) (existed : Bool) (identity : ℕ)
    → ((stage j n existed identity).1 ≡ j)
      ⊎ ((str_eq n "" ≡ false)
          × (lookup j.indices n ≡ none)
          × ((stage j n existed identity).1 ≡ with_entry j (staged n existed identity)))
stage-cases j n existed identity = elim (Bool-cases (str_eq n "")) [
  | inl e ↦ inl (ap (λ r. r.1) (stage_empty j n existed identity e))
  | inr e ↦ elim (Option-cases (lookup j.indices n)) [
    | inl f ↦ inr (e, f, ap (λ r. r.1) (stage_new j n existed identity e f))
    | inr (i, f) ↦ inl (ap (λ r. r.1) (stage_found j n existed identity i e f))
  ]
]

pub stage-IsIndexed :
    (j : Journal) (n : String) (existed : Bool) (identity : ℕ)
    → IsIndexed j
    → IsIndexed ((stage j n existed identity).1)
stage-IsIndexed j n existed identity w = elim (stage-cases j n existed identity) [
  | inl e ↦ subst IsIndexed (sym e) w
  | inr (e, f, g) ↦
      subst IsIndexed (sym g) (with_entry-IsIndexed j (staged n existed identity) w e f)
]
