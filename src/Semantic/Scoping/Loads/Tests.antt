-- ===== src/Semantic/Scoping/Loads/Tests.antt =====
-- The load statements of crates/djls-semantic/src/scoping/loads.rs at concrete templates.
use django_language_server.Base.{
  true, false, ◌&&◌, ◌≡◌, refl, none, some, List, [], ◌∷◌, map, any, leb, arith,
}
use django_language_server.Base.Text.{Text, text, text_eq}
use django_language_server.Source.Position.{span_of, span_end}
use django_language_server.Templates.Filters.{TagBit}
use django_language_server.Semantic.Scoping.Loads.{
  indexed, LoadedLibraries, advance_to, LoadArgument, LoadStatement, full_load, selective_import,
  parse_load_bits, new_loaded, statement_end_before, available_at, is_symbol_available, cursor,
  inconclusive, unknown_load_can_shadow_symbol,
}
use django_language_server.Semantic.Scoping.Loads.Availability.{
  offers, InOrder, is_symbol_available_lem,
}
use django_language_server.Semantic.Scoping.Loads.Cursor.{walk, walk_lem}

abbrev bit_of : Text → TagBit
bit_of name = record { text = name; span = span_of 0 0 }

abbrev argument_of : Text → LoadArgument
argument_of name = record { name = name; span = span_of 0 0 }

-- "{% load i18n %}" to 20, and "{% load trans from tz %}" to 50.
abbrev statements : List LoadStatement
statements =
    (record { span = span_of 10 10; kind = full_load (argument_of (text "i18n") ∷ []) })
    ∷ (record {
      span = span_of 30 20;
      kind = selective_import (argument_of (text "trans") ∷ []) (argument_of (text "tz"));
    })
    ∷ []

statements-InOrder : InOrder statements
statements-InOrder = (omega arith, (tt, tt))

parse_selective :
    parse_load_bits (map bit_of (text "trans" ∷ text "from" ∷ text "i18n" ∷ []))
    ≡ some (selective_import (argument_of (text "trans") ∷ []) (argument_of (text "i18n")))
unfolding parse_load_bits text_eq
parse_selective = refl

parse_no_library : parse_load_bits (map bit_of (text "trans" ∷ text "from" ∷ [])) ≡ none
unfolding parse_load_bits text_eq
parse_no_library = refl

parse_no_symbols : parse_load_bits (map bit_of (text "from" ∷ [])) ≡ none
unfolding parse_load_bits text_eq
parse_no_symbols = refl

before_load :
    is_symbol_available (available_at (indexed statements) 19) (text "i18n") (text "trans") ≡ false
unfolding is_symbol_available available_at indexed text_eq
before_load = refl

after_load :
    is_symbol_available (available_at (indexed statements) 20) (text "i18n") (text "trans") ≡ true
unfolding is_symbol_available available_at indexed text_eq
after_load = refl

-- An unknown library may define the symbol; a known one that is loaded later, and has it, settles it.
unknown_shadows :
    unknown_load_can_shadow_symbol
      (λ name. inconclusive)
      (available_at (indexed statements) 20)
      (text "trans")
    ≡ true
unfolding unknown_load_can_shadow_symbol available_at indexed statement_end_before
unknown_shadows = refl

-- Statements whose ends are not in order fail the assertion, and so does a cursor that goes back.
not_in_order :
    new_loaded (
      (record { span = span_of 0 30; kind = full_load [] })
      ∷ (record { span = span_of 5 5; kind = full_load [] })
      ∷ [])
    ≡ none
unfolding new_loaded
not_in_order = refl

cursor_goes_back : walk (cursor (indexed statements)) (20 ∷ 5 ∷ []) ≡ none
unfolding cursor advance_to
cursor_goes_back = refl

is_symbol_available_lem_example :
    (loaded : LoadedLibraries) × (new_loaded statements ≡ some loaded)
    × (is_symbol_available (available_at loaded 50) (text "tz") (text "trans")
        ≡ any (λ s. leb (span_end s.span) 50 && offers (text "tz") (text "trans") s) statements)
is_symbol_available_lem_example =
    is_symbol_available_lem statements 50 (text "tz") (text "trans") statements-InOrder

statements_made : new_loaded statements ≡ some (indexed statements)
unfolding new_loaded
statements_made = refl

walk_lem_example :
    walk (cursor (indexed statements)) (5 ∷ 20 ∷ 60 ∷ [])
    ≡ some (map (available_at (indexed statements)) (5 ∷ 20 ∷ 60 ∷ []))
walk_lem_example =
    walk_lem statements (indexed statements) (5 ∷ 20 ∷ 60 ∷ []) statements_made
      (omega arith, (omega arith, (omega arith, tt)))
