-- ===== src/Semantic/Scoping/Loads/Availability.antt =====
-- What is loaded at an offset, in crates/djls-semantic/src/scoping/loads.rs: the index, the cursor and the
-- statements themselves agree.
use django_language_server.Base.Bools.{||-false, ||-assoc, &&-true, &&-false}
use django_language_server.Base.{
  ℕ, zero, suc, ◌-◌, ◌≤◌, Bool, false, ◌&&◌, ◌||◌, ◌≡◌, ◌↔◌, Option, none, some, ap, true, refl,
  sym, ◌∙◌, ltb, leb, List, [], ◌∷◌, any, arith, Bool-cases, inl, inr,
}
use django_language_server.Base.Search.{partition_point, leading, Partitioned, partition_point_lem}
use django_language_server.Base.Text.{Text}
use django_language_server.Source.Position.{span_end}
use django_language_server.Semantic.Scoping.Loads.{
  LoadStatement, LoadIndex, empty_index, build_from, add_statement, take, new_loaded, ends_by,
  in_order, indexed, LoadedLibraries, available_at, is_symbol_available,
}
use django_language_server.Semantic.Scoping.Loads.Index.{
  provides, shown, add_statement-AddsStatement,
}
use django_language_server.Semantic.Scoping.Loads.Entries.{Bounded, Bounded-suc, empty-Bounded}

take_nil {ℓ} : {A : Type ℓ} (n : ℕ) → take {A = A} n [] ≡ []
take_nil zero = refl
take_nil (suc n) = refl

-- The statement provides the symbol of the library.
abbrev pub offers : Text → Text → LoadStatement → Bool
offers library symbol statement = provides library symbol statement.kind

shown-build_from :
    (library symbol : Text) (end : ℕ) (statements : List LoadStatement) (i : ℕ) (index : LoadIndex)
    → Bounded i index
    → shown (build_from i index statements) library symbol end
      ≡ (shown index library symbol end || any (offers library symbol) (take (end - i) statements))
shown-build_from library symbol end [] i index bounded =
    rw (take_nil {A = LoadStatement} (end - i)) (sym (||-false _))
shown-build_from library symbol end (s ∷ statements) i index bounded =
    let step = add_statement-AddsStatement i index s.kind bounded in
    let next = add_statement i index s.kind in
    let rest =
      shown-build_from library symbol end statements (suc i) next
        (Bounded-suc i next step.bounded) in
    let before = shown index library symbol end in
    elim (Bool-cases (ltb i end)) [
      | inl inside ↦
          let n : end - i ≡ suc (end - suc i) = ground (arith, inside) in
          rw (n, rest, step.adds library symbol end, inside, &&-true (offers library symbol s))
            (||-assoc before (offers library symbol s) _)
      | inr outside ↦
          let n : end - i ≡ 0 = ground (arith, outside) in
          let m : end - suc i ≡ 0 = ground (arith, outside) in
          rw (n, rest, step.adds library symbol end, outside, m, &&-false (offers library symbol s))
            (||-false _)
    ]

-- The statements end in the order in which they stand.
abbrev Follows : LoadStatement → List LoadStatement → Type 0
Follows s [] = Unit
Follows s (t ∷ statements) = span_end s.span ≤ span_end t.span

abbrev pub InOrder : List LoadStatement → Type 0
InOrder [] = Unit
InOrder (s ∷ statements) = Follows s statements × InOrder statements

none_later :
    (position : ℕ) (s : LoadStatement) (statements : List LoadStatement)
    → InOrder (s ∷ statements)
    → ends_by position s ≡ false
    → (q : LoadStatement → Bool) → any (λ t. ends_by position t && q t) statements ≡ false
none_later position s [] ordered e q = refl
none_later position s (t ∷ statements) ordered e q =
    let behind : ends_by position t ≡ false = ground (arith, ordered.0, e) in
    rw behind (none_later position t statements ordered.1 behind q)

ends_by-Partitioned :
    (position : ℕ) (statements : List LoadStatement)
    → InOrder statements
    → Partitioned (ends_by position) statements
ends_by-Partitioned position [] ordered = tt
ends_by-Partitioned position (s ∷ statements) ordered =
    (behind position s statements ordered, ends_by-Partitioned position statements ordered.1)
  where
    behind :
        (position : ℕ) (s : LoadStatement) (statements : List LoadStatement)
        → InOrder (s ∷ statements)
        → ends_by position s ≡ false
        → any (ends_by position) statements ≡ false
    behind position s [] ordered e = refl
    behind position s (t ∷ statements) ordered e =
        let later : ends_by position t ≡ false = ground (arith, ordered.0, e) in
        rw later (behind position t statements ordered.1 later)

-- On statements in order, the search finds how many end at or before the offset.
pub partition_point-leading :
    (position : ℕ) (statements : List LoadStatement)
    → InOrder statements
    → partition_point (ends_by position) statements ≡ leading (ends_by position) statements
partition_point-leading position statements ordered =
    partition_point_lem (ends_by position) statements
      (ends_by-Partitioned position statements ordered)

-- The assertion is that the statements are in order.
pub in_order_iff :
    (statements : List LoadStatement) → (in_order statements ≡ true) ↔ InOrder statements
in_order_iff [] = (λ e. tt, λ h. refl)
in_order_iff (s ∷ []) = (λ e. (tt, tt), λ h. refl)
in_order_iff (s ∷ t ∷ statements) = ground (arith, in_order_iff (t ∷ statements))

-- What passes the assertion.
pub new_loaded-indexed :
    (statements : List LoadStatement) (loaded : LoadedLibraries)
    → new_loaded statements ≡ some loaded
    → InOrder statements × (indexed statements ≡ loaded)
unfolding new_loaded
new_loaded-indexed statements loaded e = elim (Bool-cases (in_order statements)) [
  | inl ordered ↦
      let made : some (indexed statements) ≡ some loaded = rw ordered at e in
      ((in_order_iff statements).0 ordered, cc)
  | inr other ↦ let f : ◌≡◌ {A = Option LoadedLibraries} none (some loaded) = rw other at e in cc
]

leading-any :
    (position : ℕ) (q : LoadStatement → Bool) (statements : List LoadStatement)
    → InOrder statements
    → any q (take (leading (ends_by position) statements) statements)
      ≡ any (λ t. ends_by position t && q t) statements
leading-any position q [] ordered = refl
leading-any position q (s ∷ statements) ordered = elim (Bool-cases (ends_by position s)) [
  | inl e ↦ rw (e, leading) (rw (leading-any position q statements ordered.1) refl)
  | inr e ↦ rw (e, leading) (sym (none_later position s statements ordered e q))
]

pub any-partition :
    (position : ℕ) (q : LoadStatement → Bool) (statements : List LoadStatement)
    → InOrder statements
    → any q (take (partition_point (ends_by position) statements) statements)
      ≡ any (λ t. ends_by position t && q t) statements
any-partition position q statements ordered =
    ap (λ n. any q (take n statements)) (partition_point-leading position statements ordered)
    ∙ leading-any position q statements ordered

pub indexed_available :
    (statements : List LoadStatement) (position : ℕ) (library symbol : Text)
    → InOrder statements
    → is_symbol_available (available_at (indexed statements) position) library symbol
      ≡ any (λ s. leb (span_end s.span) position && offers library symbol s) statements
unfolding is_symbol_available available_at indexed
indexed_available statements position library symbol ordered =
    let end = partition_point (ends_by position) statements in
    let all : end - 0 ≡ end = omega arith in
    shown-build_from library symbol end statements 0 empty_index empty-Bounded
    ∙ rw all (any-partition position (offers library symbol) statements ordered)

-- Load statements in order of their ends pass the assertion; then, at an offset, a symbol of a library
-- is available, by their index, exactly if a statement that ends at or before the offset provides it: one
-- that loads the library, or that imports the symbol from it.
pub is_symbol_available_lem :
    (statements : List LoadStatement) (position : ℕ) (library symbol : Text)
    → InOrder statements
    → (loaded : LoadedLibraries) × (new_loaded statements ≡ some loaded)
      × (is_symbol_available (available_at loaded position) library symbol
          ≡ any (λ s. leb (span_end s.span) position && offers library symbol s) statements)
unfolding new_loaded
is_symbol_available_lem statements position library symbol ordered = (
  indexed statements,
  rw ((in_order_iff statements).1 ordered) refl,
  indexed_available statements position library symbol ordered,
)
