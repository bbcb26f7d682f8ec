-- ===== src/Templates/Parser.antt =====
-- crates/djls-templates/src/parser.rs. A method gives its result and the parser behind it. Each loop
-- has as much fuel as there are tokens.
pub mod Grammar
pub mod Rounds
pub mod Refines
pub mod Outcome
pub mod TagArgs
mod Tests
use django_language_server.Base.{
  ℕ, zero, suc, ◌+◌, ◌-◌, ◌%◌, ◌^◌, max, Bool, true, false, ◌==◌, leb, if◌then◌else◌, Option, none,
  some, unwrap_or, List, [], ◌∷◌, ◌++◌, map, length, get_elem?,
}
use django_language_server.Base.Result.{Result, ok, err}
use django_language_server.Base.Text.{
  Text, byte_len, slice_to, trim_start, trim, floor_char_boundary, text as literal,
}
use django_language_server.Source.Position.{Span, span_of, span_end, saturating_from_parts_usize}
use django_language_server.Templates.Tokens.{
  TagDelimiter, Token, opener, closer, content, full_span, content_span_or_fallback,
  full_span_or_fallback, spans,
}
use django_language_server.Templates.Quotes.{Segment, split_on_unquoted_whitespace}
use django_language_server.Templates.Filters.{
  TagBit, Filter, FilterParseError, parse_filter, split_variable_expression,
}
use django_language_server.Templates.Nodes.{
  Node, ParseError, StreamError, empty_tag, unexpected_token_kind, malformed_construct,
  malformed_filter_expression, stream_error,
}

pub record Parser : Type 0 where
  pub tokens : List Token
  pub current : ℕ

-- `Parser::new`.
abbrev pub new : List Token → Parser
new tokens = record { tokens = tokens; current = 0 }

abbrev pub is_at_end : Parser → Bool
is_at_end p = leb (length p.tokens) (p.current + 1)

abbrev pub is_empty : List Token → Bool
is_empty [] = true
is_empty (t ∷ ts) = false

abbrev pub ok_or : Option Token → ParseError → Result ParseError Token
ok_or none e = err e
ok_or (some t) e = ok t

abbrev pub peek : Parser → Result ParseError Token
peek p =
    ok_or (get_elem? p.tokens p.current) (
      if is_empty p.tokens then stream_error StreamError.empty else stream_error StreamError.at_end)

abbrev pub peek_previous : Parser → Result ParseError Token
peek_previous p =
    if p.current == 0
    then err (stream_error StreamError.before_start)
    else ok_or (get_elem? p.tokens (p.current - 1)) (stream_error StreamError.invalid_access)

unfoldable pub consume : Parser → Result ParseError Token × Parser
consume p =
    if is_at_end p
    then (err (stream_error StreamError.at_end), p)
    else let p' = record p { current = p.current + 1 } in (peek_previous p', p')

-- The arms of `synchronize` at which it stops.
abbrev pub is_sync_point : Token → Bool
is_sync_point (Token.block c s) = true
is_sync_point (Token.variable c s) = true
is_sync_point (Token.comment c s) = true
is_sync_point Token.eof = true
is_sync_point (Token.error c s d) = false
is_sync_point (Token.newline s) = false
is_sync_point (Token.text c s) = false
is_sync_point (Token.whitespace s) = false

unfoldable pub synchronize_loop : ℕ → Parser → Result ParseError Unit × Parser
synchronize_loop zero p = (ok tt, p)
synchronize_loop (suc fuel) p = elim (is_at_end p) [
  | true ↦ (ok tt, p)
  | false ↦ elim (peek p) [
    | err e ↦ (err e, p)
    | ok token ↦ elim (is_sync_point token) [
      | true ↦ (ok tt, p)
      | false ↦
          let (consumed, p') = consume p in
          elim consumed [ err e ↦ (err e, p') | ok t ↦ synchronize_loop fuel p' ]
    ]
  ]
]

abbrev pub synchronize : Parser → Result ParseError Unit × Parser
synchronize p = synchronize_loop (length p.tokens) p

-- The arms of `parse_text` at which it goes on.
abbrev pub is_plain : Token → Bool
is_plain (Token.block c s) = false
is_plain (Token.variable c s) = false
is_plain (Token.comment c s) = false
is_plain (Token.error c s d) = false
is_plain Token.eof = false
is_plain (Token.text c s) = true
is_plain (Token.whitespace s) = true
is_plain (Token.newline s) = true

-- The loop of `parse_text`, with the end of the text so far.
unfoldable pub text_loop : ℕ → Parser → ℕ → Result ParseError ℕ × Parser
text_loop zero p end = (ok end, p)
text_loop (suc fuel) p end = elim (peek p) [
  | err e ↦ (ok end, p)
  | ok token ↦ elim (is_plain token) [
    | false ↦ (ok end, p)
    | true ↦
        let (consumed, p') = consume p in
        elim consumed [
          | err e ↦ (err e, p')
          | ok t ↦ text_loop fuel p' (max end (span_end (full_span_or_fallback token)))
        ]
  ]
]

-- `length` is a saturating difference.
abbrev pub text_node : ℕ → Result ParseError ℕ → Result ParseError Node
text_node start (err e) = err e
text_node start (ok end) = ok (Node.text (span_of start (end - start)))

abbrev pub text_from : Parser → Result ParseError Token → Result ParseError Node × Parser
text_from p (err e) = (err e, p)
text_from p (ok first) =
    let first_span = full_span_or_fallback first in
    let (end, p') = text_loop (length p.tokens) p (span_end first_span) in
    (text_node first_span.start end, p')

unfoldable pub parse_text : Parser → Result ParseError Node × Parser
parse_text p = text_from p (peek_previous p)

abbrev pub tag_bit : ℕ → Segment → TagBit
tag_bit position segment = record {
  text = segment.text;
  span = saturating_from_parts_usize (position + segment.start_byte) (byte_len segment.text);
}

abbrev pub tag_args : ℕ → List Segment → Result ParseError (Text × Span × List TagBit)
tag_args position [] = err (empty_tag position)
tag_args position (name ∷ rest) = ok (
  name.text,
  saturating_from_parts_usize (position + name.start_byte) (byte_len name.text),
  map (tag_bit position) rest,
)

unfoldable pub parse_tag_args : Text → ℕ → Result ParseError (Text × Span × List TagBit)
parse_tag_args content position = tag_args position (split_on_unquoted_whitespace content)

abbrev pub tag_node : Span → Result ParseError (Text × Span × List TagBit) → Result ParseError Node
tag_node span (err e) = err e
tag_node span (ok (name, name_span, bits)) = ok (Node.tag name name_span bits span)

abbrev pub unexpected : Token → Text → Result ParseError Node
unexpected token context =
    err (unexpected_token_kind (content_span_or_fallback token).start context)

abbrev pub block_node : Token → Result ParseError Node
block_node (Token.block content s) =
    let span = content_span_or_fallback (Token.block content s) in
    tag_node span (parse_tag_args content span.start)
block_node token = unexpected token (literal "Expected Block token")

abbrev pub comment_node : Token → Result ParseError Node
comment_node token = ok (Node.comment (content token) (content_span_or_fallback token))

abbrev pub max_error_content_len : ℕ
max_error_content_len = 60

unfoldable pub truncate_content : Text → Text
truncate_content content =
    let trimmed = trim content in
    if leb (byte_len trimmed) max_error_content_len
    then trimmed
    else slice_to trimmed (floor_char_boundary trimmed max_error_content_len) ++ literal "..."

abbrev pub error_node : Token → Result ParseError Node
error_node (Token.error content span delimiter) =
    let full = unwrap_or (full_span (Token.error content span delimiter)) span in
    err (
      malformed_construct full.start (opener delimiter) (closer delimiter)
        (truncate_content content))
error_node token = unexpected token (literal "Expected Error token")

-- The filters, up to the first one that is malformed.
abbrev pub cons_filter : Filter → Result ParseError (List Filter) → Result ParseError (List Filter)
cons_filter filter (err e) = err e
cons_filter filter (ok filters) = ok (filter ∷ filters)

-- The sum of the two `u32` offsets wraps.
abbrev pub parse_filters : ℕ → List (Text × ℕ) → Result ParseError (List Filter)
parse_filters base_offset [] = ok []
parse_filters base_offset ((raw, offset_in_content) ∷ parts) =
    elim (parse_filter raw ((base_offset + offset_in_content) % 2 ^ 32)) [
      | err e ↦ err (malformed_filter_expression e.position e.content)
      | ok filter ↦ cons_filter filter (parse_filters base_offset parts)
    ]

abbrev pub finish_variable :
    Text → Span → Span → Result ParseError (List Filter) → Result ParseError Node
finish_variable var var_span span (err e) = err e
finish_variable var var_span span (ok filters) = ok (Node.variable var var_span filters span)

abbrev pub variable_parts : Span → List (Text × ℕ) → Result ParseError Node
variable_parts span [] = err (empty_tag span.start)
variable_parts span ((var_raw, var_offset) ∷ parts) =
    let var_trimmed_start = byte_len var_raw - byte_len (trim_start var_raw) in
    let var = trim var_raw in
    let var_span =
      saturating_from_parts_usize (span.start + var_offset + var_trimmed_start) (byte_len var) in
    finish_variable var var_span span (parse_filters span.start parts)

abbrev pub variable_node : Token → Result ParseError Node
variable_node (Token.variable content s) =
    let span = content_span_or_fallback (Token.variable content s) in
    variable_parts span (split_variable_expression content)
variable_node token = unexpected token (literal "Expected Variable token")

-- A node made from the token before the cursor.
abbrev pub with_previous : (Token → Result ParseError Node) → Parser → Result ParseError Node
with_previous node p = elim (peek_previous p) [ err e ↦ err e | ok token ↦ node token ]

unfoldable pub parse_block : Parser → Result ParseError Node × Parser
parse_block p = (with_previous block_node p, p)

unfoldable pub parse_comment : Parser → Result ParseError Node × Parser
parse_comment p = (with_previous comment_node p, p)

unfoldable pub parse_error : Parser → Result ParseError Node × Parser
parse_error p = (with_previous error_node p, p)

unfoldable pub parse_variable : Parser → Result ParseError Node × Parser
parse_variable p = (with_previous variable_node p, p)

-- The arms of `next_node`.
abbrev pub dispatch : Parser → Result ParseError Token → Result ParseError Node × Parser
dispatch p (err e) = (err e, p)
dispatch p (ok (Token.block c s)) = parse_block p
dispatch p (ok (Token.comment c s)) = parse_comment p
dispatch p (ok Token.eof) = (err (stream_error StreamError.at_end), p)
dispatch p (ok (Token.error c s d)) = parse_error p
dispatch p (ok (Token.newline s)) = parse_text p
dispatch p (ok (Token.text c s)) = parse_text p
dispatch p (ok (Token.whitespace s)) = parse_text p
dispatch p (ok (Token.variable c s)) = parse_variable p

unfoldable pub next_node : Parser → Result ParseError Node × Parser
next_node p = let (consumed, p') = consume p in dispatch p' consumed

-- The spans of an error: those of the token before the cursor, or else of the token at it.
abbrev pub spans_or : Result ParseError Token → Span × Span → Span × Span
spans_or (ok token) otherwise = spans token
spans_or (err e) otherwise = otherwise

abbrev pub error_spans : Parser → Span × Span
error_spans p = spans_or (peek_previous p) (spans_or (peek p) (span_of 0 0, span_of 0 0))

abbrev pub push_error :
    Parser → ParseError → List Node × List ParseError → List Node × List ParseError
push_error p e (nodes, errors) =
    (Node.error (error_spans p).0 (error_spans p).1 e ∷ nodes, e ∷ errors)

abbrev pub push_node : Node → List Node × List ParseError → List Node × List ParseError
push_node node (nodes, errors) = (node ∷ nodes, errors)

abbrev pub recover : Parser → Parser
recover p = if is_at_end p then p else (synchronize p).1

-- The loop of `parse`: the nodes and the errors from the cursor on.
unfoldable pub parse_loop : ℕ → Parser → List Node × List ParseError
parse_loop zero p = ([], [])
parse_loop (suc fuel) p = elim (is_at_end p) [
  | true ↦ ([], [])
  | false ↦
      let (result, p') = next_node p in
      elim result [
        | ok node ↦ push_node node (parse_loop fuel p')
        | err e ↦ push_error p' e (parse_loop fuel (recover p'))
      ]
]

-- `Parser::new(tokens).parse()`.
unfoldable pub parse : List Token → List Node × List ParseError
parse tokens = parse_loop (length tokens) (new tokens)
