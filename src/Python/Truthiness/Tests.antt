-- ===== src/Python/Truthiness/Tests.antt =====
-- The truth of crates/djls-project/src/python/evaluation/truthiness.rs at concrete expressions.
use django_language_server.Base.{Bool, true, false, ◌≡◌, refl, none, some, Option}
use django_language_server.Base.Text.{Text, text}
use django_language_server.Python.Truthiness.{
  Truthiness, falsy, truthy, Expr, name, boolean_literal, and_op, or_op, end, value, of_expr,
}
use django_language_server.Python.Truthiness.Sound.{Values, evaluate, Agrees, of_expr-Agrees}

abbrev nothing_known : Text → Option Truthiness
nothing_known n = none

abbrev unknown_and_false : Expr
unknown_and_false = and_op (name (text "unknown")) (value (boolean_literal false) end)

and_decided : of_expr nothing_known unknown_and_false ≡ some falsy
unfolding of_expr
and_decided = refl

and_open :
    of_expr nothing_known (and_op (name (text "unknown")) (value (boolean_literal true) end)) ≡ none
unfolding of_expr
and_open = refl

or_decided :
    of_expr nothing_known (or_op (name (text "unknown")) (value (boolean_literal true) end))
    ≡ some truthy
unfolding of_expr
or_decided = refl

-- Values that are their own truth.
abbrev booleans : Values Bool
booleans = record { truth = λ b. b; bool_value = λ b. b; truth-bool_value = λ b. refl }

of_expr-Agrees_example :
    Agrees
      (of_expr nothing_known unknown_and_false)
      (evaluate booleans (λ n. true) (λ n. true) unknown_and_false)
of_expr-Agrees_example =
    of_expr-Agrees booleans (λ n. true) (λ n. true) nothing_known (λ n. tt) unknown_and_false
