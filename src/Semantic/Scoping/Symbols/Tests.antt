-- ===== src/Semantic/Scoping/Symbols/Tests.antt =====
-- The availability of crates/djls-semantic/src/scoping/symbols.rs at concrete symbols.
use django_language_server.Base.{true, false, ◌≡◌, ◌⊎◌, refl, List, [], ◌∷◌, any}
use django_language_server.Base.Text.{Text, text, text_eq}
use django_language_server.Source.Position.{span_of}
use django_language_server.Semantic.Scoping.Loads.{
  LoadState, full_load, indexed, available_at, is_symbol_available,
}
use django_language_server.Semantic.Scoping.Loads.Names.{includes}
use django_language_server.Semantic.Scoping.Symbols.{
  SymbolAvailability, AppTemplateSymbolLookup, requires_load, resolve_occurrence_availability,
}
use django_language_server.Semantic.Scoping.Symbols.Resolution.{
  names_of, Increasing, resolve_occurrence_availability_lem,
}

-- "{% load extras %}" to 20.
abbrev state : LoadState
state =
    available_at
      (indexed (
        (record {
          span = span_of 10 10;
          kind = full_load ((record { name = text "extras"; span = span_of 13 6 }) ∷ []);
        })
        ∷ []))
      20

abbrev required : List Text
required = text "z" ∷ text "a" ∷ text "z" ∷ []

names_sorted :
    resolve_occurrence_availability
      (requires_load required)
      AppTemplateSymbolLookup.absent
      state
      (text "custom")
    ≡ SymbolAvailability.ambiguous_unloaded (text "a" ∷ text "z" ∷ [])
unfolding resolve_occurrence_availability is_symbol_available available_at indexed text_eq
names_sorted = refl

loaded_available :
    resolve_occurrence_availability
      (requires_load (text "extras" ∷ []))
      AppTemplateSymbolLookup.absent
      state
      (text "custom")
    ≡ SymbolAvailability.available
unfolding resolve_occurrence_availability is_symbol_available available_at indexed text_eq
loaded_available = refl

resolve_occurrence_availability_lem_example :
    ((any (λ library. is_symbol_available state library (text "custom")) required ≡ true)
      × (resolve_occurrence_availability
            (requires_load required)
            AppTemplateSymbolLookup.absent
            state
            (text "custom")
          ≡ SymbolAvailability.available))
    ⊎ ((any (λ library. is_symbol_available state library (text "custom")) required ≡ false)
        × Increasing (
            names_of (
              resolve_occurrence_availability
                (requires_load required)
                AppTemplateSymbolLookup.absent
                state
                (text "custom")))
        × ((library : Text)
            → includes
                (names_of (
                  resolve_occurrence_availability
                    (requires_load required)
                    AppTemplateSymbolLookup.absent
                    state
                    (text "custom")))
                library
              ≡ includes required library))
resolve_occurrence_availability_lem_example =
    resolve_occurrence_availability_lem required AppTemplateSymbolLookup.absent state
      (text "custom")
