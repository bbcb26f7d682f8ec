-- ===== src/Semantic/Scoping/Loads/Index.antt =====
-- `LoadIndex::build` of crates/djls-semantic/src/scoping/loads.rs: which statements the index knows.
use django_language_server.Base.Bools.{||-false}
use django_language_server.Base.{
  ℕ, Bool, true, false, ◌&&◌, ◌||◌, ◌≡◌, refl, sym, ◌∙◌, ltb, unwrap_or, List, [], ◌∷◌, any,
  Bool-cases, inl, inr,
}
use django_language_server.Base.Text.{Text, text_eq}
use django_language_server.Semantic.Scoping.Maps.{get, entry}
use django_language_server.Semantic.Scoping.Loads.{
  LoadArgument, LoadKind, full_load, selective_import, LoadIndex, push, add_full, add_selective,
  for_arguments, add_statement, has_statement_before, get_in,
}
use django_language_server.Semantic.Scoping.Loads.Entries.{
  full_of, selective_of, Noted, Bounded, entry-Noted, has-entry, get_in-entry, get_in-unwrap_or,
}

-- Statement `i` is noted for the libraries and symbols that are mentioned.
record Adds (i : ℕ) (index next : LoadIndex) (full : Text → Bool) (selective : Text → Text → Bool)
    : Type 0 where
  full_adds :
      (library : Text) (end : ℕ)
      → has_statement_before (full_of next library) end
        ≡ (has_statement_before (full_of index library) end || (full library && ltb i end))
  selective_adds :
      (library symbol : Text) (end : ℕ)
      → has_statement_before (selective_of next library symbol) end ≡ (
          has_statement_before (selective_of index library symbol) end
          || (selective library symbol && ltb i end))
  pub bounded : Bounded i next

add_full-Adds :
    (i : ℕ) (index : LoadIndex) (name : Text)
    → Bounded i index
    → Adds i index
        (add_full i index name)
        (λ library. text_eq name library)
        (λ library symbol. false)
add_full-Adds i index name bounded = record {
  full_adds = λ library end.
      has-entry i end index.full_statements_by_library name library (bounded.full library);
  selective_adds = λ library symbol end. sym (||-false _);
  bounded = record {
    full = λ library.
        entry-Noted i index.full_statements_by_library name library (bounded.full library);
    selective = bounded.selective;
  };
}

add_selective-Adds :
    (i : ℕ) (library : Text) (index : LoadIndex) (name : Text)
    → Bounded i index
    → Adds i index
        (add_selective i library index name)
        (λ key. false)
        (λ key symbol. text_eq library key && text_eq name symbol)
add_selective-Adds i library index name bounded = record {
  full_adds = λ key end. sym (||-false _);
  selective_adds = selective_adds;
  bounded = record { full = bounded.full; selective = selective };
}
  where
    selective_adds :
        (key symbol : Text) (end : ℕ)
        → has_statement_before
            (get_in
              (get
                (entry index.selective_statements_by_library_symbol library []
                  (λ symbols. entry symbols name [] (push i)))
                key)
              symbol)
            end
          ≡ (has_statement_before (selective_of index key symbol) end
              || ((text_eq library key && text_eq name symbol) && ltb i end))
    selective_adds key symbol end =
        let before =
          get_in-unwrap_or (get index.selective_statements_by_library_symbol key) symbol in
        let known : Noted i
            (get (unwrap_or (get index.selective_statements_by_library_symbol key) []) symbol) =
          rw before (bounded.selective key symbol) in
        rw (get_in-entry i index.selective_statements_by_library_symbol library name key symbol)
          (elim (Bool-cases (text_eq library key)) [
            | inl same ↦ rw same (
                has-entry i end
                  (unwrap_or (get index.selective_statements_by_library_symbol key) []) name symbol
                  known
                ∙ rw before refl)
            | inr other ↦ rw other (sym (||-false _))
          ])

    selective :
        (key symbol : Text) → Noted i (selective_of (add_selective i library index name) key symbol)
    selective key symbol =
        let before =
          get_in-unwrap_or (get index.selective_statements_by_library_symbol key) symbol in
        rw (get_in-entry i index.selective_statements_by_library_symbol library name key symbol)
          (elim (Bool-cases (text_eq library key)) [
            | inl same ↦ rw same (
                entry-Noted i (unwrap_or (get index.selective_statements_by_library_symbol key) [])
                  name symbol (rw before (bounded.selective key symbol)))
            | inr other ↦ rw other (bounded.selective key symbol)
          ])

Adds-nothing :
    (i : ℕ) (index : LoadIndex)
    → Bounded i index
    → Adds i index index (λ library. false) (λ library symbol. false)
Adds-nothing i index bounded = record {
  full_adds = λ library end. sym (||-false _);
  selective_adds = λ library symbol end. sym (||-false _);
  bounded = bounded;
}

or_both : (x y z e : Bool) → ((x || (y && e)) || (z && e)) ≡ (x || ((y || z) && e))
or_both true y z e = refl
or_both false true z true = refl
or_both false true true false = refl
or_both false true false false = refl
or_both false false z e = refl

-- A loop of steps that each add.
for_arguments-Adds :
    (i : ℕ) (step : LoadIndex → Text → LoadIndex) (full : Text → Text → Bool)
    (selective : Text → Text → Text → Bool)
    → ((index : LoadIndex) (name : Text)
        → Bounded i index
        → Adds i index (step index name) (full name) (selective name))
    → (arguments : List LoadArgument) (index : LoadIndex) → Bounded i index
    → Adds i index
        (for_arguments step index arguments)
        (λ library. any (λ a. full a.name library) arguments)
        (λ library symbol. any (λ a. selective a.name library symbol) arguments)
for_arguments-Adds i step full selective each [] index bounded = Adds-nothing i index bounded
for_arguments-Adds i step full selective each (a ∷ arguments) index bounded =
    let first = each index a.name bounded in
    let rest =
      for_arguments-Adds i step full selective each arguments (step index a.name) first.bounded in
    record {
      full_adds = λ library end.
          rest.full_adds library end
          ∙ rw (first.full_adds library end) (
              or_both (has_statement_before (full_of index library) end) (full a.name library)
                (any (λ b. full b.name library) arguments) (ltb i end));
      selective_adds = λ library symbol end.
          rest.selective_adds library symbol end
          ∙ rw (first.selective_adds library symbol end) (
              or_both (has_statement_before (selective_of index library symbol) end)
                (selective a.name library symbol)
                (any (λ b. selective b.name library symbol) arguments) (ltb i end));
      bounded = rest.bounded;
    }

-- The statement makes the symbol of the library available.
abbrev pub provides : Text → Text → LoadKind → Bool
provides library symbol (full_load libraries) = any (λ a. text_eq a.name library) libraries
provides library symbol (selective_import symbols from) =
    text_eq from.name library && any (λ a. text_eq a.name symbol) symbols

-- A noted statement before `end` makes it available.
abbrev pub shown : LoadIndex → Text → Text → ℕ → Bool
shown index library symbol end =
    has_statement_before (full_of index library) end
    || has_statement_before (selective_of index library symbol) end

any-false : (xs : List LoadArgument) → any (λ a. false) xs ≡ false
any-false [] = refl
any-false (x ∷ xs) = any-false xs

any_and :
    (b : Bool) (p : LoadArgument → Bool) (xs : List LoadArgument)
    → any (λ a. b && p a) xs ≡ (b && any p xs)
any_and true p xs = refl
any_and false p xs = any-false xs

full_first : (h k f e : Bool) → ((h || (f && e)) || (k || (false && e))) ≡ ((h || k) || (f && e))
full_first true k f e = refl
full_first false true f true = ||-true f
  where
    ||-true : (x : Bool) → ((x && true) || true) ≡ true
    ||-true true = refl
    ||-true false = refl
full_first false true true false = refl
full_first false true false false = refl
full_first false false f e = ||-false _

selective_later :
    (h k f e : Bool) → ((h || (false && e)) || (k || (f && e))) ≡ ((h || k) || (f && e))
selective_later true k f e = refl
selective_later false k f e = refl

pub record AddsStatement (i : ℕ) (index next : LoadIndex) (kind : LoadKind) : Type 0 where
  pub adds :
      (library symbol : Text) (end : ℕ)
      → shown next library symbol end
        ≡ (shown index library symbol end || (provides library symbol kind && ltb i end))
  pub bounded : Bounded i next

pub add_statement-AddsStatement :
    (i : ℕ) (index : LoadIndex) (kind : LoadKind)
    → Bounded i index
    → AddsStatement i index (add_statement i index kind) kind
add_statement-AddsStatement i index (full_load libraries) bounded =
    let a =
      for_arguments-Adds i (add_full i) (λ name library. text_eq name library)
        (λ name library symbol. false) (λ x name b. add_full-Adds i x name b) libraries index
        bounded in
    record {
      adds = λ library symbol end.
          rw (a.full_adds library end, a.selective_adds library symbol end, any-false libraries)
            (full_first (has_statement_before (full_of index library) end)
              (has_statement_before (selective_of index library symbol) end)
              (any (λ b. text_eq b.name library) libraries) (ltb i end));
      bounded = a.bounded;
    }
add_statement-AddsStatement i index (selective_import symbols from) bounded =
    let a =
      for_arguments-Adds i (add_selective i from.name) (λ name library. false)
        (λ name library symbol. text_eq from.name library && text_eq name symbol)
        (λ x name b. add_selective-Adds i from.name x name b) symbols index bounded in
    record {
      adds = λ library symbol end.
          rw
            (
              a.full_adds library end,
              a.selective_adds library symbol end,
              any-false symbols,
              any_and (text_eq from.name library) (λ b. text_eq b.name symbol) symbols,
            )
            (selective_later (has_statement_before (full_of index library) end)
              (has_statement_before (selective_of index library symbol) end)
              (text_eq from.name library && any (λ b. text_eq b.name symbol) symbols) (ltb i end));
      bounded = a.bounded;
    }
