-- ===== src/Templates/Lexer/Tests.antt =====
-- Runs of crates/djls-templates/src/lexer.rs with a plain search.
use django_language_server.Base.{◌≡◌, ◌≤◌, refl, [], ◌∷◌, arith, u32_max}
use django_language_server.Base.Text.{
  Text, text as literal, byte_len, len_utf8, slice_from, encode, starts_with, slice, slice_to,
  is_whitespace,
}
use django_language_server.Source.Position.{
  span_of, saturating_from_parts_usize, saturating_from_bounds_usize,
}
use django_language_server.Templates.Tokens.{TagDelimiter, Token, from_input}
use django_language_server.Templates.Memchr.{plain, plain_find, plain_memchr3}
use django_language_server.Templates.Lexer.{
  tokenize, tokenize_loop, next_token, lex_django_tag, consume_until_delimiter, consume_n, consume,
  lex_whitespace, consume_until_stop_char, lex_text, stop_loop, whitespace_loop,
}
use django_language_server.Templates.Lexer.Tiling.{Tiles, tokenize-Tiles}
use django_language_server.Templates.Lexer.Spans.{AreAdjacent, tokenize-AreAdjacent}

-- A tag, a line break, a variable that is not closed and a tag behind it.
abbrev source : Text
source = literal "{% a %}\n{{ b{% c %}"

source_small : byte_len source ≤ u32_max
unfolding len_utf8
source_small = omega arith

recovers :
    tokenize plain source
    ≡ Token.block (literal " a ") (span_of 2 3)
      ∷ Token.newline (span_of 7 1)
      ∷ Token.error (literal " b") (span_of 10 2) TagDelimiter.variable
      ∷ Token.block (literal " c ") (span_of 14 3)
      ∷ Token.eof
      ∷ []
unfolding tokenize tokenize_loop len_utf8 next_token slice_from from_input encode lex_django_tag
    consume_until_delimiter plain_find consume_n consume starts_with slice
    saturating_from_parts_usize is_whitespace lex_whitespace saturating_from_bounds_usize
    consume_until_stop_char slice_to lex_text stop_loop whitespace_loop plain_memchr3
recovers = refl

tokenize-Tiles_example : Tiles 0 (tokenize plain source) source
tokenize-Tiles_example = tokenize-Tiles plain source source_small

tokenize-AreAdjacent_example : AreAdjacent 0 (tokenize plain source) (byte_len source)
tokenize-AreAdjacent_example = tokenize-AreAdjacent plain source source_small
