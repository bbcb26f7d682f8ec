-- ===== src/Semantic/IfExpression/Tests.antt =====
-- Runs of crates/djls-semantic/src/validation/if_expressions.rs.
use django_language_server.Base.{◌≡◌, refl, Option, none, some, List, [], ◌∷◌, map}
use django_language_server.Base.Text.{Text, text, text_eq}
use django_language_server.Source.Position.{span_of}
use django_language_server.Templates.Filters.{TagBit}
use django_language_server.Semantic.IfExpression.{
  tokenize, validate_expression, unused, parse, expression,
}
use django_language_server.Semantic.IfExpression.Language.{an_operand, accepts}
use django_language_server.Semantic.IfExpression.Accepts.{is_none, validate_expression-accepts}

abbrev bit : Text → TagBit
bit t = record { text = t; span = span_of 0 0 }

-- "a is not b and not c", and "a b".
abbrev good : List TagBit
good =
    map bit (text "a" ∷ text "is" ∷ text "not" ∷ text "b" ∷ text "and" ∷ text "not" ∷ text "c" ∷ [])

abbrev bad : List TagBit
bad = map bit (text "a" ∷ text "b" ∷ [])

good_passes : validate_expression good ≡ some none
unfolding validate_expression parse expression tokenize text_eq
good_passes = refl

bad_fails : validate_expression bad ≡ some (some (unused (text "b")))
unfolding validate_expression parse expression tokenize text_eq
bad_fails = refl

validate_expression-accepts_example :
    (e : Option Text) × (validate_expression good ≡ some e)
    × (is_none e ≡ accepts an_operand (tokenize good))
validate_expression-accepts_example = validate_expression-accepts good
