-- ===== src/Source/Line/Tests.antt =====
-- Runs of crates/djls-source/src/line.rs, and the theorems at inputs that meet their hypotheses.
use django_language_server.Base.{
  ℕ, ◌+◌, ◌-◌, ◌≤◌, ◌<◌, ◌≡◌, refl, true, false, ◌==◌, [], ◌∷◌, some, none, any, min, arith, inl,
}
use django_language_server.Base.Text.{
  Text, text, as_bytes, encode, byte_len, len_utf8, is_char_boundary, is_ascii, slice, len_utf16,
  strip_suffix as strip_suffix_text,
}
use django_language_server.Source.Position.{LineCol}
use django_language_server.Source.Line.Ending
use django_language_server.Source.Line.Ending.{lf, crlf, cr, match_at}
use django_language_server.Source.Line.Index.{
  utf8, utf16, utf32, from_text, from_bytes, to_line_col, search_from, offset, column_offset,
  utf16_loop, utf32_loop, SourceLine, byte_offset,
}
use django_language_server.Source.Line.Bytes.{byte_offset_lem}
use django_language_server.Source.Line.Starts.{is_line_start, from_bytes_iff}
use django_language_server.Source.Line.Search.{Holds}
use django_language_server.Source.Line.Boundary.{offset_boundary, offset-le-byte_len}
use django_language_server.Source.Line.RoundTrip.{offset-to_line_col, to_line_col-Holds_text}

abbrev at : ℕ → ℕ → LineCol
at line column = record { line = line; column = column }

abbrev mixed : Text
mixed = text "ab\ncd\r\nef\rg"

-- "x", the snake of U+1F40D, "y": offset 2 lies inside the snake.
abbrev snake : Text
snake = b'x' ∷ 0x1F40D ∷ b'y' ∷ []

abbrev snake_line : SourceLine
snake_line = record { line = 1; start = 4; content = snake }

mixed_index : from_text mixed ≡ 0 ∷ 3 ∷ 7 ∷ 10 ∷ []
unfolding from_text encode
mixed_index = refl

endings :
    (Ending.strip_suffix (text "alpha\r\n") ≡ some (text "alpha", crlf))
    × (Ending.strip_suffix (text "alpha\r") ≡ some (text "alpha", cr))
    × (Ending.strip_suffix (text "alpha") ≡ none)
    × (Ending.last_in (text "alpha\nbeta\r\ngamma") ≡ some crlf)
unfolding Ending.strip_suffix strip_suffix_text Ending.last_in encode
endings = (refl, refl, refl, refl)

mixed_positions :
    (to_line_col (from_text mixed) 8 ≡ at 2 1) × (offset (from_text mixed) mixed (at 2 1) utf8 ≡ 8)
unfolding to_line_col search_from from_text encode offset column_offset len_utf8 slice
mixed_positions = (refl, refl)

snake_columns :
    (offset (from_text snake) snake (at 0 3) utf16 ≡ 5)
    × (offset (from_text snake) snake (at 0 2) utf32 ≡ 5)
unfolding from_text encode offset column_offset len_utf8 len_utf16 is_ascii slice utf16_loop
    utf32_loop
snake_columns = (refl, refl)

-- In UTF-8 a client's column may point into a character.
snake_inside : is_char_boundary snake (offset (from_text snake) snake (at 0 2) utf8) ≡ false
unfolding is_char_boundary from_text encode offset column_offset len_utf8 slice
snake_inside = refl

from_bytes_iff_example :
    any (λ s. s == 7) (from_bytes (as_bytes mixed)) ≡ is_line_start (as_bytes mixed) 7
from_bytes_iff_example = from_bytes_iff (as_bytes mixed) 7 (unfold encode in omega arith)

to_line_col-Holds_text_example :
    (h : Holds (from_text mixed) 8 (to_line_col (from_text mixed) 8).line) × ((to_line_col
          (from_text mixed)
          8).column
        + h.start
      ≡ 8)
to_line_col-Holds_text_example = to_line_col-Holds_text mixed 8 (unfold len_utf8 in omega arith)

offset-to_line_col_example :
    offset (from_text mixed) mixed (to_line_col (from_text mixed) 8) utf8 ≡ 8
offset-to_line_col_example =
    offset-to_line_col mixed 8 (unfold len_utf8 in omega arith) (unfold len_utf8 in omega arith)

offset_boundary_example :
    is_char_boundary snake (offset (from_text snake) snake (at 0 2) utf16) ≡ true
offset_boundary_example =
    offset_boundary snake (unfold len_utf8 in omega arith) (at 0 2) utf16 (inl cc)

offset-le-byte_len_example : offset (from_text snake) snake (at 0 9) utf8 ≤ byte_len snake
offset-le-byte_len_example = offset-le-byte_len snake (unfold len_utf8 in omega arith) (at 0 9) utf8

-- The line "x🐍y" from offset 4 on.
byte_offset_lem_example :
    (is_char_boundary snake (byte_offset snake_line 7) ≡ true)
    × (byte_offset snake_line 7 ≤ min (7 - 4) (byte_len snake))
    × ((m : ℕ)
        → byte_offset snake_line 7 < m
        → m ≤ min (7 - 4) (byte_len snake)
        → is_char_boundary snake m ≡ false)
byte_offset_lem_example = byte_offset_lem snake_line 7
