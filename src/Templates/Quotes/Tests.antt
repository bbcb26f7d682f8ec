-- ===== src/Templates/Quotes/Tests.antt =====
-- Runs of crates/djls-templates/src/quotes.rs.
use django_language_server.Base.{◌≡◌, refl, [], ◌∷◌, ◌+◌, ◌-◌}
use django_language_server.Base.Text.{
  Text, text as literal, byte_len, trim, trim_start, len_utf8, slice_from, slice, is_whitespace,
}
use django_language_server.Source.Position.{span_of, saturating_from_parts_usize}
use django_language_server.Templates.Quotes.{
  quoted, parse, segment_of, split_on_unquoted_delimiter, split_on_unquoted_whitespace,
  segments_loop, next, next_loop, feed, words_loop, feed_escaped, parse_trimmed,
}
use django_language_server.Templates.Quotes.Split.{Splits, split_on_unquoted_delimiter-Splits}
use django_language_server.Templates.Quotes.Words.{Words, split_on_unquoted_whitespace-Words}
use django_language_server.Templates.Quotes.Literal.{Parses, parse-Parses}

abbrev filters : Text
filters = literal "x|f:'|'"

abbrev bits : Text
bits = literal " if a 'b \\' c'"

abbrev name : Text
name = literal "  'base.html' "

quoted_bar :
    split_on_unquoted_delimiter filters b'|'
    ≡ segment_of (literal "x") 0 ∷ segment_of (literal "f:'|'") 2 ∷ []
unfolding split_on_unquoted_delimiter segments_loop len_utf8 next next_loop slice_from feed slice
quoted_bar = refl

three_words :
    split_on_unquoted_whitespace bits
    ≡ segment_of (literal "if") 1
      ∷ segment_of (literal "a") 4
      ∷ segment_of (literal "'b \\' c'") 6
      ∷ []
unfolding split_on_unquoted_whitespace words_loop is_whitespace feed_escaped slice len_utf8
    slice_from
three_words = refl

inner_name : parse name (span_of 10 14) ≡ quoted (literal "base.html") (span_of 13 9)
unfolding parse parse_trimmed len_utf8 slice saturating_from_parts_usize
inner_name = refl

split_on_unquoted_delimiter-Splits_example :
    Splits b'|' 0 filters (split_on_unquoted_delimiter filters b'|')
split_on_unquoted_delimiter-Splits_example = split_on_unquoted_delimiter-Splits filters b'|'

split_on_unquoted_whitespace-Words_example : Words 0 bits (split_on_unquoted_whitespace bits)
split_on_unquoted_whitespace-Words_example = split_on_unquoted_whitespace-Words bits

parse-Parses_example :
    Parses
      (10 + (byte_len name - byte_len (trim_start name)))
      (trim name)
      (parse name (span_of 10 14))
parse-Parses_example = parse-Parses name (span_of 10 14)
