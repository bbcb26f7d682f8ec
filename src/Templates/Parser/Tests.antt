-- ===== src/Templates/Parser/Tests.antt =====
-- Runs of the parser of crates/djls-templates/src/parser.rs.
use django_language_server.Base.Result.{err}
use django_language_server.Templates.Parser.TagArgs.{IsBlank, parse_tag_args_lem}
use django_language_server.Base.{◌≡◌, ◌≤◌, refl, List, [], ◌∷◌, ◌++◌, All, arith, ◌↔◌}
use django_language_server.Base.Text.{Text, byte_len, text as literal, len_utf8, trim}
use django_language_server.Source.Position.{span_of}
use django_language_server.Templates.Tokens.{Token, full_span_or_fallback, content}
use django_language_server.Templates.Memchr.{plain}
use django_language_server.Templates.Lexer.{tokenize}
use django_language_server.Templates.Nodes.{Node, empty_tag}
use django_language_server.Templates.Parser.{
  parse, parse_loop, next_node, consume, parse_text, text_loop, parse_comment, truncate_content,
  parse_tag_args,
}
use django_language_server.Templates.Parser.Grammar.{Yields}
use django_language_server.Templates.Parser.Outcome.{
  errors_of, IsSyntaxError, parse-tokenize, truncate_content-bound,
}
use django_language_server.Templates.Parser.Refines.{parse-Yields}

-- "a {% b %}\n" and an unclosed tag behind a text.
abbrev three_tokens : List Token
three_tokens =
    Token.text (literal "a") (span_of 0 1)
    ∷ Token.whitespace (span_of 1 1)
    ∷ Token.comment (literal "b") (span_of 4 1)
    ∷ []

abbrev source : Text
source = literal "a {% b 'c d' %}\n{{ x|f:1"

source_small : byte_len source ≤ 4294967295
unfolding len_utf8
source_small = omega arith

merges :
    (parse (three_tokens ++ Token.eof ∷ [])).0
    ≡ Node.text (span_of 0 2) ∷ Node.comment (literal "b") (span_of 4 1) ∷ []
unfolding parse parse_loop next_node consume parse_text text_loop full_span_or_fallback
    parse_comment content
merges = refl

parse-Yields_example :
    Yields three_tokens
      (parse (three_tokens ++ Token.eof ∷ [])).0
      (parse (three_tokens ++ Token.eof ∷ [])).1
parse-Yields_example = parse-Yields three_tokens

parse-tokenize_example :
    ((parse (tokenize plain source)).1 ≡ errors_of (parse (tokenize plain source)).0)
    × All IsSyntaxError (parse (tokenize plain source)).1
parse-tokenize_example = parse-tokenize plain source source_small

truncate_content-bound_example :
    (byte_len (truncate_content source) ≤ 63)
    × (byte_len (trim source) ≤ 60 → truncate_content source ≡ trim source)
truncate_content-bound_example = truncate_content-bound source

parse_tag_args_lem_example :
    (parse_tag_args (literal " \t ") 2 ≡ err (empty_tag 2)) ↔ IsBlank (literal " \t ")
parse_tag_args_lem_example = parse_tag_args_lem (literal " \t ") 2
