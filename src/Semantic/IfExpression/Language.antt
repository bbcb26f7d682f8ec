-- ===== src/Semantic/IfExpression/Language.antt =====
-- Which conditions crates/djls-semantic/src/validation/if_expressions.rs should let pass: operands
-- with an infix operator between each two of them, where an operand is a literal behind any number
-- of `not`.
use django_language_server.Base.{Bool, true, false, List, [], ◌∷◌}
use django_language_server.Semantic.IfExpression.{Operator, Token, literal, operator, end}

pub data Want : Type 0 where
  an_operand an_operator : Want

abbrev pub accepts : Want → List Token → Bool
accepts an_operand [] = false
accepts an_operand (literal s ∷ tokens) = accepts an_operator tokens
accepts an_operand (operator Operator.not ∷ tokens) = accepts an_operand tokens
accepts an_operand (operator op ∷ tokens) = false
accepts an_operand (end ∷ tokens) = false
accepts an_operator [] = true
accepts an_operator (operator Operator.not ∷ tokens) = false
accepts an_operator (operator op ∷ tokens) = accepts an_operand tokens
accepts an_operator (literal s ∷ tokens) = false
accepts an_operator (end ∷ tokens) = false
