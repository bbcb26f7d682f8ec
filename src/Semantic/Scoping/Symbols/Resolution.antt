-- ===== src/Semantic/Scoping/Symbols/Resolution.antt =====
-- The libraries that crates/djls-semantic/src/scoping/symbols.rs names for a symbol that is not loaded.
use django_language_server.Base.{
  Bool, true, false, ◌||◌, ◌≡◌, ◌⊎◌, refl, sym, ◌∙◌, List, [], ◌∷◌, any, arith, Bool-cases, inl,
  inr,
}
use django_language_server.Base.Ordering.{Ordering, Ordering-cases, compare, then_with-eq}
use django_language_server.Base.Text.{Text, text_eq}
use django_language_server.Base.Text.Slices.{text_eq_iff}
use django_language_server.Python.Identity.{text_cmp, text-Lawful}
use django_language_server.Semantic.Scoping.Loads.{LoadState, is_symbol_available}
use django_language_server.Semantic.Scoping.Loads.Names.{includes}
use django_language_server.Semantic.Scoping.Symbols.{
  SymbolAvailability, AppTemplateSymbolLookup, requires_load, insert_text, sort_texts, dedup_after,
  dedup, unloaded_from, resolve_occurrence_availability,
}

-- The libraries that would have to be loaded.
abbrev pub names_of : SymbolAvailability → List Text
names_of SymbolAvailability.available = []
names_of (SymbolAvailability.unloaded library) = library ∷ []
names_of (SymbolAvailability.ambiguous_unloaded libraries) = libraries
names_of (SymbolAvailability.not_in_installed_apps app load_name) = []
names_of SymbolAvailability.inconclusive = []
names_of SymbolAvailability.unknown = []

names_of-unloaded_from : (names : List Text) → names_of (unloaded_from names) ≡ names
names_of-unloaded_from [] = refl
names_of-unloaded_from (x ∷ []) = refl
names_of-unloaded_from (x ∷ y ∷ names) = refl

text_cmp_eq : (s t : Text) → text_cmp s t ≡ Ordering.eq → s ≡ t
text_cmp_eq [] [] e = refl
text_cmp_eq [] (y ∷ t) e = cc
text_cmp_eq (x ∷ s) [] e = cc
text_cmp_eq (x ∷ s) (y ∷ t) e =
    let (head, tail) = then_with-eq (compare x y) (text_cmp s t) e in
    let same : x ≡ y = ground (arith, head) in let rest = text_cmp_eq s t tail in cc

-- No name is behind the next one, or each is before it.
abbrev Below : Text → List Text → Type 0
Below x [] = Unit
Below x (y ∷ names) = ¬ (text_cmp x y ≡ Ordering.gt)

abbrev Sorted : List Text → Type 0
Sorted [] = Unit
Sorted (x ∷ names) = Below x names × Sorted names

abbrev pub Before : Text → List Text → Type 0
Before x [] = Unit
Before x (y ∷ names) = text_cmp x y ≡ Ordering.lt

abbrev pub Increasing : List Text → Type 0
Increasing [] = Unit
Increasing (x ∷ names) = Before x names × Increasing names

swap_a_b_c : (x y z : Bool) → (x || (y || z)) ≡ (y || (x || z))
swap_a_b_c true true z = refl
swap_a_b_c true false z = refl
swap_a_b_c false y z = refl

includes-insert_text :
    (name library : Text) (names : List Text)
    → includes (insert_text name names) library ≡ (text_eq name library || includes names library)
includes-insert_text name library [] = refl
includes-insert_text name library (x ∷ names) = elim (Ordering-cases (text_cmp name x)) [
  | inl e ↦ rw (e, insert_text) refl
  | inr (inl e) ↦ rw (e, insert_text) refl
  | inr (inr e) ↦
      rw (e, insert_text)
        (rw (includes-insert_text name library names)
          (swap_a_b_c (text_eq x library) (text_eq name library) (includes names library)))
]

includes-sort_texts :
    (library : Text) (names : List Text)
    → includes (sort_texts names) library ≡ includes names library
includes-sort_texts library [] = refl
includes-sort_texts library (x ∷ names) =
    includes-insert_text x library (sort_texts names) ∙ rw (includes-sort_texts library names) refl

insert_text-Below :
    (x name : Text) (names : List Text)
    → ¬ (text_cmp x name ≡ Ordering.gt)
    → Below x names
    → Below x (insert_text name names)
insert_text-Below x name [] first below = first
insert_text-Below x name (y ∷ names) first below = elim (Ordering-cases (text_cmp name y)) [
  | inl e ↦ rw (e, insert_text) first
  | inr (inl e) ↦ rw (e, insert_text) first
  | inr (inr e) ↦ rw (e, insert_text) below
]

insert_text-Sorted :
    (name : Text) (names : List Text) → Sorted names → Sorted (insert_text name names)
insert_text-Sorted name [] sorted = (tt, tt)
insert_text-Sorted name (x ∷ names) sorted = elim (Ordering-cases (text_cmp name x)) [
  | inl e ↦ rw (e, insert_text) ((λ g. cc), sorted)
  | inr (inl e) ↦ rw (e, insert_text) ((λ g. cc), sorted)
  | inr (inr e) ↦
      let back = text-Lawful.swapped name x in
      rw (e, insert_text)
        (insert_text-Below x name names (λ g. cc) sorted.0, insert_text-Sorted name names sorted.1)
]

sort_texts-Sorted : (names : List Text) → Sorted (sort_texts names)
sort_texts-Sorted [] = tt
sort_texts-Sorted (x ∷ names) = insert_text-Sorted x (sort_texts names) (sort_texts-Sorted names)

absorbed : (x y : Bool) → (x || (x || y)) ≡ (x || y)
absorbed true y = refl
absorbed false y = refl

dedup_after-Increasing :
    (kept : Text) (names : List Text) (library : Text)
    → Sorted (kept ∷ names)
    → Increasing (kept ∷ dedup_after kept names)
      × (includes (kept ∷ dedup_after kept names) library ≡ includes (kept ∷ names) library)
dedup_after-Increasing kept [] library sorted = ((tt, tt), refl)
dedup_after-Increasing kept (x ∷ names) library sorted = elim (Bool-cases (text_eq kept x)) [
  | inl same ↦
      let kept_x : kept ≡ x = (text_eq_iff kept x).0 same in
      let (increasing, all) = dedup_after-Increasing kept names library (rw kept_x sorted.1) in
      rw (same, dedup_after)
        (increasing, all ∙ rw kept_x (sym (absorbed (text_eq x library) (includes names library))))
  | inr other ↦
      let (increasing, all) = dedup_after-Increasing x names library sorted.1 in
      rw (other, dedup_after) ((first sorted.0 other, increasing), rw all refl)
]
  where
    first :
        ¬ (text_cmp kept x ≡ Ordering.gt) → text_eq kept x ≡ false → text_cmp kept x ≡ Ordering.lt
    first below other = elim (Ordering-cases (text_cmp kept x)) [
      | inl e ↦ e
      | inr (inl e) ↦ let same = (text_eq_iff kept x).1 (text_cmp_eq kept x e) in cc
      | inr (inr e) ↦ absurd (below e)
    ]

dedup-sort_texts :
    (names : List Text) (library : Text)
    → Increasing (dedup (sort_texts names))
      × (includes (dedup (sort_texts names)) library ≡ includes names library)
dedup-sort_texts names library =
    let (increasing, all) = dedup-Sorted (sort_texts names) (sort_texts-Sorted names) in
    (increasing, all ∙ includes-sort_texts library names)
  where
    dedup-Sorted :
        (sorted : List Text)
        → Sorted sorted
        → Increasing (dedup sorted) × (includes (dedup sorted) library ≡ includes sorted library)
    dedup-Sorted [] h = (tt, refl)
    dedup-Sorted (x ∷ sorted) h = dedup_after-Increasing x sorted library h

-- A symbol that some libraries must be loaded for is available if one of them is in force and has it.
-- Otherwise the answer names, in strictly increasing order, exactly the libraries that are required.
pub resolve_occurrence_availability_lem :
    (required : List Text) (app : AppTemplateSymbolLookup) (state : LoadState) (name : Text)
    → ((any (λ library. is_symbol_available state library name) required ≡ true)
        × (resolve_occurrence_availability (requires_load required) app state name
            ≡ SymbolAvailability.available))
      ⊎ ((any (λ library. is_symbol_available state library name) required ≡ false)
          × Increasing
              (names_of (resolve_occurrence_availability (requires_load required) app state name))
          × ((library : Text)
              → includes
                  (names_of
                    (resolve_occurrence_availability (requires_load required) app state name))
                  library
                ≡ includes required library))
unfolding resolve_occurrence_availability
resolve_occurrence_availability_lem required app state name =
    elim (Bool-cases (any (λ library. is_symbol_available state library name) required)) [
      | inl e ↦ inl (e, rw (e, resolve_occurrence_availability) refl)
      | inr e ↦
          let names = names_of-unloaded_from (dedup (sort_texts required)) in
          rw (e, resolve_occurrence_availability, names)
            (inr (
              refl,
              (dedup-sort_texts required []).0,
              λ library. (dedup-sort_texts required library).1,
            ))
    ]
