-- ===== src/Templates/Tokens.antt =====
-- crates/djls-templates/src/tokens.rs: tag delimiters and tokens.
use django_language_server.Base.{
  ℕ, ◌-◌, ◌==◌, ltb, if◌then◌else◌, Option, none, some, unwrap_or, [], ◌∷◌, length, get_or, to_u32,
  replicate,
}
use django_language_server.Base.Text.{Text, Bytes, byte_len}
use django_language_server.Source.Position.{Span, span_of, expand}

pub data TagDelimiter : Type 0 where
  block variable comment : TagDelimiter

abbrev pub char_open : ℕ
char_open = b'{'

-- `TagDelimiter::LENGTH`, and `LENGTH_U32`.
abbrev pub delimiter_length : ℕ
delimiter_length = 2

unfoldable pub from_input : Bytes → Option TagDelimiter
from_input bytes =
    if ltb (length bytes) delimiter_length
    then none
    else if get_or bytes 0 0 == char_open
    then if get_or bytes 1 0 == b'%'
      then some TagDelimiter.block
      else if get_or bytes 1 0 == b'{'
      then some TagDelimiter.variable
      else if get_or bytes 1 0 == b'#'
      then some TagDelimiter.comment
      else none
    else none

abbrev pub opener : TagDelimiter → Text
opener TagDelimiter.block = b'{' ∷ b'%' ∷ []
opener TagDelimiter.variable = b'{' ∷ b'{' ∷ []
opener TagDelimiter.comment = b'{' ∷ b'#' ∷ []

abbrev pub closer : TagDelimiter → Text
closer TagDelimiter.block = b'%' ∷ b'}' ∷ []
closer TagDelimiter.variable = b'}' ∷ b'}' ∷ []
closer TagDelimiter.comment = b'#' ∷ b'}' ∷ []

pub data Token : Type 0 where
  block : Text → Span → Token
  comment : Text → Span → Token
  error : Text → Span → TagDelimiter → Token
  eof : Token
  newline : Span → Token
  text : Text → Span → Token
  variable : Text → Span → Token
  whitespace : Span → Token

-- `Token::content`.
unfoldable pub content : Token → Text
content (Token.block c s) = c
content (Token.comment c s) = c
content (Token.error c s d) = c
content (Token.text c s) = c
content (Token.variable c s) = c
content (Token.whitespace s) = replicate s.length b' '
content (Token.newline s) = if s.length == 2 then b'\r' ∷ b'\n' ∷ [] else b'\n' ∷ []
content Token.eof = []

-- `Token::offset`.
unfoldable pub offset : Token → Option ℕ
offset (Token.block c s) = some (s.start - delimiter_length)
offset (Token.comment c s) = some (s.start - delimiter_length)
offset (Token.error c s d) = some (s.start - delimiter_length)
offset (Token.variable c s) = some (s.start - delimiter_length)
offset (Token.text c s) = some s.start
offset (Token.whitespace s) = some s.start
offset (Token.newline s) = some s.start
offset Token.eof = none

-- `Token::length`.
unfoldable pub token_length : Token → ℕ
token_length (Token.block c s) = to_u32 (byte_len c)
token_length (Token.comment c s) = to_u32 (byte_len c)
token_length (Token.error c s d) = to_u32 (byte_len c)
token_length (Token.text c s) = to_u32 (byte_len c)
token_length (Token.variable c s) = to_u32 (byte_len c)
token_length (Token.whitespace s) = to_u32 s.length
token_length (Token.newline s) = to_u32 s.length
token_length Token.eof = to_u32 0

-- `Token::full_span`.
unfoldable pub full_span : Token → Option Span
full_span (Token.block c s) = some (expand s delimiter_length delimiter_length)
full_span (Token.comment c s) = some (expand s delimiter_length delimiter_length)
full_span (Token.variable c s) = some (expand s delimiter_length delimiter_length)
full_span (Token.error c s d) = some (expand s delimiter_length 0)
full_span (Token.newline s) = some s
full_span (Token.text c s) = some s
full_span (Token.whitespace s) = some s
full_span Token.eof = none

-- `Token::content_span`.
unfoldable pub content_span : Token → Option Span
content_span (Token.block c s) = some s
content_span (Token.comment c s) = some s
content_span (Token.error c s d) = some s
content_span (Token.text c s) = some s
content_span (Token.variable c s) = some s
content_span (Token.whitespace s) = some s
content_span (Token.newline s) = some s
content_span Token.eof = none

unfoldable pub content_span_or_fallback : Token → Span
unfolding content_span offset token_length
content_span_or_fallback t = elim (content_span t) [
  | some s ↦ s
  | none ↦ span_of (unwrap_or (offset t) 0) (token_length t)
]

unfoldable pub full_span_or_fallback : Token → Span
unfolding full_span content_span_or_fallback
full_span_or_fallback t = elim (full_span t) [ some s ↦ s | none ↦ content_span_or_fallback t ]

-- The content span and the full span.
unfoldable pub spans : Token → Span × Span
unfolding full_span content_span_or_fallback
spans t = (content_span_or_fallback t, unwrap_or (full_span t) (content_span_or_fallback t))
