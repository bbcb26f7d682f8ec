-- ===== src/Semantic/Scoping/Loads.antt =====
-- crates/djls-semantic/src/scoping/loads.rs: the load statements of a template, and the prefix of them
-- that is in force at an offset. An assertion that fails is a missing result.
pub mod Entries
pub mod Index
pub mod Availability
pub mod Cursor
pub mod Names
mod Tests
use django_language_server.Base.{
  ℕ, zero, suc, ◌+◌, ◌≤◌, Bool, true, false, ◌&&◌, ◌||◌, ltb, leb, ◌==◌, if◌then◌else◌, Option,
  none, some, List, [], ◌∷◌, ◌++◌, map, length, get_elem?, last?, any,
}
use django_language_server.Base.Search.{partition_point}
use django_language_server.Base.Text.{Text, text_eq, text}
use django_language_server.Source.Position.{Span, span_end, span_of}
use django_language_server.Templates.Filters.{TagBit}
use django_language_server.Semantic.Scoping.Maps.{get, entry}

pub record LoadArgument : Type 0 where
  pub name : Text
  pub span : Span

-- `LoadArgument::from`.
abbrev pub argument_of_bit : TagBit → LoadArgument
argument_of_bit bit = record { name = bit.text; span = bit.span }

pub data LoadKind : Type 0 where
  full_load : (libraries : List LoadArgument) → LoadKind
  selective_import : (symbols : List LoadArgument) (library : LoadArgument) → LoadKind

-- `LoadKind::into_library_arguments`.
abbrev pub into_library_arguments : LoadKind → List LoadArgument
into_library_arguments (full_load libraries) = libraries
into_library_arguments (selective_import symbols library) = library ∷ []

pub record LoadStatement : Type 0 where
  pub span : Span
  pub kind : LoadKind

-- `Iterator::position` of `from`, `&bits[..i]` and `&bits[i..]`.
abbrev pub from_position : List TagBit → Option ℕ
from_position [] = none
from_position (bit ∷ bits) =
    let later = from_position bits in
    if text_eq bit.text (text "from")
    then some 0
    else elim later [ none ↦ none | some i ↦ some (suc i) ]

abbrev pub take {ℓ} : {A : Type ℓ} → ℕ → List A → List A
take zero xs = []
take (suc n) [] = []
take (suc n) (x ∷ xs) = x ∷ take n xs

abbrev pub drop {ℓ} : {A : Type ℓ} → ℕ → List A → List A
drop zero xs = xs
drop (suc n) [] = []
drop (suc n) (x ∷ xs) = drop n xs

-- What `load … from` imports: some symbols, and one library.
abbrev pub selective : List LoadArgument → List TagBit → Option LoadKind
selective (symbol ∷ symbols) (library ∷ []) =
    some (selective_import (symbol ∷ symbols) (argument_of_bit library))
selective _ _ = none

abbrev pub load_with : List TagBit → Option ℕ → Option LoadKind
load_with bits none = some (full_load (map argument_of_bit bits))
load_with bits (some i) = selective (map argument_of_bit (take i bits)) (drop (suc i) bits)

unfoldable pub parse_load_bits : List TagBit → Option LoadKind
parse_load_bits [] = none
parse_load_bits (bit ∷ bits) = load_with (bit ∷ bits) (from_position (bit ∷ bits))

-- `LoadStatement::from_loader_bits`.
unfoldable pub from_loader_bits : List TagBit → Span → Option LoadStatement
unfolding parse_load_bits
from_loader_bits bits span = elim (parse_load_bits bits) [
  | none ↦ none
  | some kind ↦ some (record { span = span; kind = kind })
]

pub record LoadIndex : Type 0 where
  pub full_statements_by_library : List (Text × List ℕ)
  pub selective_statements_by_library_symbol : List (Text × List (Text × List ℕ))

abbrev pub empty_index : LoadIndex
empty_index = record {
  full_statements_by_library = [];
  selective_statements_by_library_symbol = [];
}

-- `Vec::push`.
abbrev pub push : ℕ → List ℕ → List ℕ
push i indexes = indexes ++ i ∷ []

abbrev pub add_full : ℕ → LoadIndex → Text → LoadIndex
add_full i index library = record index {
  full_statements_by_library = entry index.full_statements_by_library library [] (push i);
}

abbrev pub add_selective : ℕ → Text → LoadIndex → Text → LoadIndex
add_selective i library index symbol = record index {
  selective_statements_by_library_symbol =
      entry index.selective_statements_by_library_symbol library []
        (λ symbols. entry symbols symbol [] (push i));
}

-- A loop over arguments.
abbrev pub for_arguments :
    (LoadIndex → Text → LoadIndex) → LoadIndex → List LoadArgument → LoadIndex
for_arguments step index [] = index
for_arguments step index (a ∷ arguments) = for_arguments step (step index a.name) arguments

abbrev pub add_statement : ℕ → LoadIndex → LoadKind → LoadIndex
add_statement i index (full_load libraries) = for_arguments (add_full i) index libraries
add_statement i index (selective_import symbols library) =
    for_arguments (add_selective i library.name) index symbols

-- The loop of `LoadIndex::build` over the statements from `i` on.
abbrev pub build_from : ℕ → LoadIndex → List LoadStatement → LoadIndex
build_from i index [] = index
build_from i index (statement ∷ statements) =
    build_from (suc i) (add_statement i index statement.kind) statements

unfoldable pub build : List LoadStatement → LoadIndex
build statements = build_from 0 empty_index statements

pub record LoadedLibraries : Type 0 where
  pub statements : List LoadStatement
  pub index : LoadIndex

-- The statements with their index.
unfoldable pub indexed : List LoadStatement → LoadedLibraries
unfolding build
indexed statements = record { statements = statements; index = build statements }

-- The assertion of `LoadedLibraries::new`: each statement ends at or before the end of the next.
abbrev pub in_order : List LoadStatement → Bool
in_order [] = true
in_order (s ∷ []) = true
in_order (s ∷ t ∷ statements) = leb (span_end s.span) (span_end t.span) && in_order (t ∷ statements)

-- `LoadedLibraries::new`: none where the assertion fails.
unfoldable pub new_loaded : List LoadStatement → Option LoadedLibraries
unfolding indexed
new_loaded statements = if in_order statements then some (indexed statements) else none

-- The statement ends at or before the offset.
abbrev pub ends_by : ℕ → LoadStatement → Bool
ends_by position statement = leb (span_end statement.span) position

unfoldable pub statement_end_before : LoadedLibraries → ℕ → ℕ
statement_end_before loaded position = partition_point (ends_by position) loaded.statements

pub record LoadState : Type 0 where
  pub loaded : LoadedLibraries
  pub statement_end : ℕ

unfoldable pub available_at : LoadedLibraries → ℕ → LoadState
unfolding statement_end_before
available_at loaded position = record {
  loaded = loaded;
  statement_end = statement_end_before loaded position;
}

abbrev pub has_statement_before : Option (List ℕ) → ℕ → Bool
has_statement_before none end = false
has_statement_before (some statements) end =
    ltb 0 (partition_point (λ index. ltb index end) statements)

-- `Option::and_then` with a lookup.
abbrev pub get_in : Option (List (Text × List ℕ)) → Text → Option (List ℕ)
get_in none symbol = none
get_in (some symbols) symbol = get symbols symbol

unfoldable pub is_symbol_available : LoadState → Text → Text → Bool
is_symbol_available state library symbol =
    let index = state.loaded.index in
    has_statement_before (get index.full_statements_by_library library) state.statement_end
    || has_statement_before
        (get_in (get index.selective_statements_by_library_symbol library) symbol)
        state.statement_end

-- `LoadState::statements`.
abbrev pub visible_statements : LoadState → List LoadStatement
visible_statements state = take state.statement_end state.loaded.statements

pub record LoadCursor : Type 0 where
  pub loaded : LoadedLibraries
  pub end : ℕ
  pub position : ℕ

-- `LoadedLibraries::cursor`.
unfoldable pub cursor : LoadedLibraries → LoadCursor
cursor loaded = record { loaded = loaded; end = 0; position = 0 }

-- The loop of `advance_to`, over the statements from `end` on.
abbrev pub advance_end : ℕ → List LoadStatement → ℕ → ℕ
advance_end end [] position = end
advance_end end (statement ∷ statements) position =
    let later = advance_end (suc end) statements position in
    if ends_by position statement then later else end

-- `LoadCursor::advance_to`: none where the assertion fails that the offset is not before the last one.
unfoldable pub advance_to : LoadCursor → ℕ → Option (LoadCursor × LoadState)
advance_to c position =
    let end = advance_end c.end (drop c.end c.loaded.statements) position in
    if leb c.position position
    then some (
      record { loaded = c.loaded; end = end; position = position },
      record { loaded = c.loaded; statement_end = end },
    )
    else none

-- A name is pushed, unless it is the last one.
abbrev pub push_new : Text → Option Text → List Text → List Text
push_new library none libraries = libraries ++ library ∷ []
push_new library (some last) libraries =
    if text_eq last library then libraries else libraries ++ library ∷ []

abbrev pub loading_step : Text → LoadKind → List Text → List Text
loading_step symbol (full_load loaded) libraries = libraries ++ map (λ a. a.name) loaded
loading_step symbol (selective_import symbols library) libraries =
    if any (λ a. text_eq a.name symbol) symbols
    then push_new library.name (last? libraries) libraries
    else libraries

-- The loop of `write_libraries_loading_symbol`.
abbrev pub loading : Text → List LoadStatement → List Text → List Text
loading symbol [] libraries = libraries
loading symbol (statement ∷ statements) libraries =
    loading symbol statements (loading_step symbol statement.kind libraries)

unfoldable pub libraries_loading_symbol : LoadState → Text → List Text
libraries_loading_symbol state symbol = loading symbol (visible_statements state) []

-- The lookup of a library by its load name, and whether what is found defines the symbol.
pub data LoadableLibraryLookup : Type 0 where
  found : (defines_symbol : Bool) → LoadableLibraryLookup
  ambiguous inconclusive absent : LoadableLibraryLookup

-- `fold_library` of `unknown_load_can_shadow_symbol`.
abbrev pub fold_library : LoadableLibraryLookup → Bool → Bool
fold_library inconclusive can_shadow = true
fold_library (found true) can_shadow = false
fold_library (found false) can_shadow = can_shadow
fold_library ambiguous can_shadow = can_shadow
fold_library absent can_shadow = can_shadow

abbrev pub fold_libraries : (Text → LoadableLibraryLookup) → List LoadArgument → Bool → Bool
fold_libraries lookup [] can_shadow = can_shadow
fold_libraries lookup (library ∷ libraries) can_shadow =
    fold_libraries lookup libraries (fold_library (lookup library.name) can_shadow)

abbrev pub shadow_step : (Text → LoadableLibraryLookup) → Text → LoadKind → Bool → Bool
shadow_step lookup symbol (full_load libraries) can_shadow =
    fold_libraries lookup libraries can_shadow
shadow_step lookup symbol (selective_import symbols library) can_shadow =
    if any (λ a. text_eq a.name symbol) symbols
    then fold_library (lookup library.name) can_shadow
    else can_shadow

abbrev pub shadows : (Text → LoadableLibraryLookup) → Text → List LoadStatement → Bool → Bool
shadows lookup symbol [] can_shadow = can_shadow
shadows lookup symbol (statement ∷ statements) can_shadow =
    shadows lookup symbol statements (shadow_step lookup symbol statement.kind can_shadow)

unfoldable pub unknown_load_can_shadow_symbol :
    (Text → LoadableLibraryLookup) → LoadState → Text → Bool
unknown_load_can_shadow_symbol lookup state symbol =
    shadows lookup symbol (visible_statements state) false
