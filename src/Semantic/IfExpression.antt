-- ===== src/Semantic/IfExpression.antt =====
-- crates/djls-semantic/src/validation/if_expressions.rs: the check of the condition of an `if` tag by
-- a Pratt parser. The parser is the token at hand and the tokens behind it (the source keeps all of
-- them and an index). It runs on fuel, one more than there are tokens; `none` is a run out of fuel.
pub mod Accepts
pub mod Language
mod Tests
use django_language_server.Base.{
  ℕ, zero, suc, ◌+◌, Bool, true, false, ◌&&◌, ltb, if◌then◌else◌, Option, none, some, List, [], ◌∷◌,
  ◌++◌, map, length,
}
use django_language_server.Base.Result.{Result, ok, err}
use django_language_server.Base.Text.{Text, text_eq, text as literal_text}
use django_language_server.Templates.Filters.{TagBit}

pub data Operator : Type 0 where
  or and not is_in not_in is is_not eq ne gt ge lt le : Operator

pub data Token : Type 0 where
  literal : Text → Token
  operator : Operator → Token
  end : Token

-- `Operator::lbp` and `Token::lbp`.
abbrev pub operator_lbp : Operator → ℕ
operator_lbp Operator.or = 6
operator_lbp Operator.and = 7
operator_lbp Operator.not = 8
operator_lbp Operator.is_in = 9
operator_lbp Operator.not_in = 9
operator_lbp Operator.is = 10
operator_lbp Operator.is_not = 10
operator_lbp Operator.eq = 10
operator_lbp Operator.ne = 10
operator_lbp Operator.gt = 10
operator_lbp Operator.ge = 10
operator_lbp Operator.lt = 10
operator_lbp Operator.le = 10

abbrev pub lbp : Token → ℕ
lbp (literal s) = 0
lbp (operator op) = operator_lbp op
lbp end = 0

-- `Operator::name` and `Token::display_name`.
abbrev pub operator_name : Operator → Text
operator_name Operator.or = literal_text "or"
operator_name Operator.and = literal_text "and"
operator_name Operator.not = literal_text "not"
operator_name Operator.is_in = literal_text "in"
operator_name Operator.not_in = literal_text "not in"
operator_name Operator.is = literal_text "is"
operator_name Operator.is_not = literal_text "is not"
operator_name Operator.eq = literal_text "=="
operator_name Operator.ne = literal_text "!="
operator_name Operator.gt = literal_text ">"
operator_name Operator.ge = literal_text ">="
operator_name Operator.lt = literal_text "<"
operator_name Operator.le = literal_text "<="

abbrev pub display_name : Token → Text
display_name (literal s) = s
display_name (operator op) = operator_name op
display_name end = literal_text "end"

abbrev pub is_prefix : Operator → Bool
is_prefix Operator.not = true
is_prefix op = false

abbrev pub is_infix : Operator → Bool
is_infix Operator.not = false
is_infix op = true

abbrev pub is_word : Text → Operator → Bool
is_word word op = text_eq word (operator_name op)

-- The arms of `tokenize` on one bit.
abbrev pub single : Text → Token
single word =
    if is_word word Operator.or
    then operator Operator.or
    else if is_word word Operator.and
    then operator Operator.and
    else if is_word word Operator.not
    then operator Operator.not
    else if is_word word Operator.is_in
    then operator Operator.is_in
    else if is_word word Operator.is
    then operator Operator.is
    else if is_word word Operator.eq
    then operator Operator.eq
    else if is_word word Operator.ne
    then operator Operator.ne
    else if is_word word Operator.gt
    then operator Operator.gt
    else if is_word word Operator.ge
    then operator Operator.ge
    else if is_word word Operator.lt
    then operator Operator.lt
    else if is_word word Operator.le
    then operator Operator.le
    else literal word

-- `tokenize`: `is not` and `not in` are one operator.
unfoldable pub tokenize : List TagBit → List Token
tokenize [] = []
tokenize (bit ∷ []) = single bit.text ∷ []
tokenize (bit ∷ next ∷ bits) =
    let rest = tokenize bits in
    let rest_with_next = tokenize (next ∷ bits) in
    if is_word bit.text Operator.is && is_word next.text Operator.not
    then operator Operator.is_not ∷ rest
    else if is_word bit.text Operator.not && is_word next.text Operator.is_in
    then operator Operator.not_in ∷ rest
    else single bit.text ∷ rest_with_next

pub record IfExpressionParser : Type 0 where
  pub current : Token
  pub rest : List Token

-- The parser before the tokens: `next_token` gives the first of them, or `End`.
abbrev pub at : List Token → IfExpressionParser
at [] = record { current = end; rest = [] }
at (token ∷ tokens) = record { current = token; rest = tokens }

-- `self.current = self.next_token()`.
abbrev pub advance : IfExpressionParser → IfExpressionParser
advance p = at p.rest

-- What `nud` and `led` do with a token: nothing more, an operand of some power, or an error.
pub data Step : Type 0 where
  accept : Step
  operand : ℕ → Step
  refuse : Text → Step

abbrev pub unexpected_end : Text
unexpected_end = literal_text "Unexpected end of expression in if tag."

abbrev pub unused : Text → Text
unused name = literal_text "Unused '" ++ name ++ literal_text "' at end of if expression."

abbrev pub nud : Token → Step
nud (literal s) = accept
nud (operator op) =
    if is_prefix op
    then operand (operator_lbp op)
    else refuse (
        literal_text "Not expecting '"
        ++ operator_name op
        ++ literal_text "' in this position in if tag.")
nud end = refuse unexpected_end

abbrev pub led : Token → Step
led (operator op) =
    if is_infix op
    then operand (operator_lbp op)
    else refuse (
        literal_text "Not expecting '"
        ++ operator_name op
        ++ literal_text "' as infix operator in if tag.")
led (literal s) = refuse (unused s)
led end = refuse unexpected_end

-- `expression` at its start, or in its loop.
pub data Phase : Type 0 where
  start loop : Phase

-- `?` on the result of an inner call.
abbrev pub and_then :
    Option (Result Text IfExpressionParser)
    → (IfExpressionParser → Option (Result Text IfExpressionParser))
    → Option (Result Text IfExpressionParser)
and_then none next = none
and_then (some (err message)) next = some (err message)
and_then (some (ok p)) next = next p

unfoldable pub expression :
    ℕ → Phase → ℕ → IfExpressionParser → Option (Result Text IfExpressionParser)
expression zero phase rbp p = none
expression (suc fuel) start rbp p = elim (nud p.current) [
  | accept ↦ expression fuel loop rbp (advance p)
  | refuse message ↦ some (err message)
  | operand power ↦
      and_then (expression fuel start power (advance p)) (λ p'. expression fuel loop rbp p')
]
expression (suc fuel) loop rbp p = elim (ltb rbp (lbp p.current)) [
  | false ↦ some (ok p)
  | true ↦ elim (led p.current) [
    | accept ↦ expression fuel loop rbp (advance p)
    | refuse message ↦ some (err message)
    | operand power ↦
        and_then (expression fuel start power (advance p)) (λ p'. expression fuel loop rbp p')
  ]
]

-- The end of `parse`, as the error if there is one.
abbrev pub at_end : IfExpressionParser → Option Text
at_end p = elim p.current [
  | end ↦ none
  | literal s ↦ some (unused s)
  | operator op ↦ some (unused (operator_name op))
]

abbrev pub parse_result : Option (Result Text IfExpressionParser) → Option (Option Text)
parse_result none = none
parse_result (some (err message)) = some (some message)
parse_result (some (ok p)) = some (at_end p)

-- `parse`: the error if there is one, or `none` for a run out of fuel.
unfoldable pub parse : List Token → Option (Option Text)
parse tokens = parse_result (expression (length tokens + 1) start 0 (at tokens))

unfoldable pub validate_expression : List TagBit → Option (Option Text)
validate_expression [] = some (some unexpected_end)
validate_expression (bit ∷ bits) = parse (tokenize (bit ∷ bits))
