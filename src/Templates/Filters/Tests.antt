-- ===== src/Templates/Filters/Tests.antt =====
-- Runs of crates/djls-templates/src/filters.rs.
use django_language_server.Templates.Filters.Head.{Leads, Reads, parse_filter-Reads}
use django_language_server.Templates.Quotes.{next, next_loop, feed, segments_loop}
use django_language_server.Base.{◌≡◌, refl, some, [], ◌∷◌, to_u32, ◌+◌, ◌%◌, ◌^◌}
use django_language_server.Base.Result.{ok, err}
use django_language_server.Base.Text.{
  text as literal, trim, slice_from, slice_to, len_utf8, slice, Text, byte_len,
}
use django_language_server.Source.Position.{span_of, saturating_from_parts_usize}
use django_language_server.Templates.Filters.{parse_filter, split_variable_expression}

with_argument :
    parse_filter (literal " default:'a:b' ") 10
    ≡ ok (record {
      name = literal "default";
      arg = some (record { text = literal "'a:b'"; span = span_of 19 5 });
      span = span_of 11 13;
    })
unfolding parse_filter next next_loop slice_from trim feed slice_to len_utf8
    saturating_from_parts_usize
with_argument = refl

without_name :
    parse_filter (literal " :x") 4 ≡ err (record { position = 5; content = literal ":x" })
unfolding parse_filter next next_loop slice_from trim slice_to len_utf8
without_name = refl

keeps_quoted_bars :
    split_variable_expression (literal "x|f:'|'|g")
    ≡ (literal "x", 0) ∷ (literal "f:'|'", 2) ∷ (literal "g", 8) ∷ []
unfolding split_variable_expression segments_loop len_utf8 next next_loop slice_from feed slice
keeps_quoted_bars = refl

parse_filter-Reads_example :
    (lead : Text) × Leads lead (literal " f:'x' ")
    × Reads
        (trim (literal " f:'x' "))
        ((4 + to_u32 (byte_len lead)) % 2 ^ 32)
        (parse_filter (literal " f:'x' ") 4)
parse_filter-Reads_example = parse_filter-Reads (literal " f:'x' ") 4
