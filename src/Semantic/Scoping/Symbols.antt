-- ===== src/Semantic/Scoping/Symbols.antt =====
-- crates/djls-semantic/src/scoping/symbols.rs: whether a tag or a filter is available. What the inventory of
-- the project answers is an argument.
pub mod Resolution
mod Tests
use django_language_server.Base.{Bool, true, false, if◌then◌else◌, List, [], ◌∷◌, any}
use django_language_server.Base.Ordering.{Ordering}
use django_language_server.Base.Text.{Text, text_eq}
use django_language_server.Python.Identity.{text_cmp}
use django_language_server.Semantic.Scoping.Loads.{LoadState, is_symbol_available}

pub data SymbolAvailability : Type 0 where
  available : SymbolAvailability
  unloaded : (library : Text) → SymbolAvailability
  ambiguous_unloaded : (libraries : List Text) → SymbolAvailability
  not_in_installed_apps : (app load_name : Text) → SymbolAvailability
  inconclusive unknown : SymbolAvailability

-- `ScopedTemplateSymbolLookup` and `AppTemplateSymbolLookup` of crates/djls-project.
pub data ScopedTemplateSymbolLookup : Type 0 where
  builtin : ScopedTemplateSymbolLookup
  requires_load : (required : List Text) → ScopedTemplateSymbolLookup
  inconclusive absent : ScopedTemplateSymbolLookup

pub data AppTemplateSymbolLookup : Type 0 where
  found_in_app : (app load_name : Text) → AppTemplateSymbolLookup
  absent inconclusive : AppTemplateSymbolLookup

-- `sort_unstable`, by insertion: equal texts cannot be told apart.
abbrev pub insert_text : Text → List Text → List Text
insert_text name [] = name ∷ []
insert_text name (other ∷ names) =
    let later = insert_text name names in
    elim (text_cmp name other) [ Ordering.gt ↦ other ∷ later | _ ↦ name ∷ other ∷ names ]

abbrev pub sort_texts : List Text → List Text
sort_texts [] = []
sort_texts (name ∷ names) = insert_text name (sort_texts names)

-- `Vec::dedup`: of equal neighbours the first is kept.
abbrev pub dedup_after : Text → List Text → List Text
dedup_after kept [] = []
dedup_after kept (name ∷ names) =
    let same = dedup_after kept names in
    let next = dedup_after name names in if text_eq kept name then same else name ∷ next

abbrev pub dedup : List Text → List Text
dedup [] = []
dedup (name ∷ names) = name ∷ dedup_after name names

abbrev pub unloaded_from : List Text → SymbolAvailability
unloaded_from [] = SymbolAvailability.unknown
unloaded_from (library ∷ []) = SymbolAvailability.unloaded library
unloaded_from (library ∷ other ∷ libraries) =
    SymbolAvailability.ambiguous_unloaded (library ∷ other ∷ libraries)

abbrev pub in_app : AppTemplateSymbolLookup → SymbolAvailability
in_app (found_in_app app load_name) = SymbolAvailability.not_in_installed_apps app load_name
in_app AppTemplateSymbolLookup.inconclusive = SymbolAvailability.inconclusive
in_app AppTemplateSymbolLookup.absent = SymbolAvailability.unknown

unfoldable pub resolve_occurrence_availability :
    ScopedTemplateSymbolLookup → AppTemplateSymbolLookup → LoadState → Text → SymbolAvailability
resolve_occurrence_availability builtin app state name = SymbolAvailability.available
resolve_occurrence_availability (requires_load required) app state name =
    if any (λ library. is_symbol_available state library name) required
    then SymbolAvailability.available
    else unloaded_from (dedup (sort_texts required))
resolve_occurrence_availability ScopedTemplateSymbolLookup.inconclusive app state name =
    SymbolAvailability.inconclusive
resolve_occurrence_availability ScopedTemplateSymbolLookup.absent app state name = in_app app
