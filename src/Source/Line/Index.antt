-- ===== src/Source/Line/Index.antt =====
-- `LineIndex` and `SourceLine` of crates/djls-source/src/line.rs.
use django_language_server.Base.{
  ℕ, zero, suc, ◌+◌, ◌-◌, ◌%◌, ◌^◌, min, true, false, ◌==◌, ltb, leb, if◌then◌else◌, Option, none,
  some, unwrap_or, List, [], ◌∷◌, length, get_elem?, get_or, last?, u32_max, to_u32,
}
use django_language_server.Base.Text.{
  Text, Bytes, as_bytes, byte_len, len_utf8, len_utf16, is_ascii, is_char_boundary, slice,
  slice_from,
}
use django_language_server.Source.Position.{Offset, LineCol}
use django_language_server.Source.Line.Ending
use django_language_server.Source.Line.Ending.{LineEnding, match_at}

-- `PositionEncoding` of crates/djls-source/src/protocol.rs.
pub data PositionEncoding : Type 0 where
  utf8 utf16 utf32 : PositionEncoding

abbrev pub LineIndex : Type 0
LineIndex = List ℕ

-- The loop of `From<&[u8]>`, with as much fuel as there are bytes.
unfoldable pub line_starts : ℕ → Bytes → ℕ → List ℕ
line_starts zero bytes i = []
line_starts (suc fuel) bytes i = elim (ltb i (length bytes)) [
  | true ↦ elim (match_at bytes i) [
    | some ending ↦
        let next = i + Ending.byte_len ending in to_u32 next ∷ line_starts fuel bytes next
    | none ↦ line_starts fuel bytes (i + 1)
  ]
  | false ↦ []
]

unfoldable pub from_bytes : Bytes → LineIndex
unfolding line_starts match_at
from_bytes bytes = 0 ∷ line_starts (length bytes) bytes 0

-- `LineIndex::from(&str)`.
unfoldable pub from_text : Text → LineIndex
unfolding from_bytes
from_text t = from_bytes (as_bytes t)

-- `slice::binary_search` on a strictly increasing slice: the place of the value, or the place at
-- which it would stand.
pub data SearchResult : Type 0 where
  found : ℕ → SearchResult
  insert_at : ℕ → SearchResult

unfoldable pub search_from : ℕ → List ℕ → ℕ → SearchResult
search_from i [] x = insert_at i
search_from i (y ∷ ys) x =
    if x == y then found i else if ltb x y then insert_at i else search_from (i + 1) ys x

-- `u32::try_from(n).unwrap_or_default()`.
abbrev pub to_u32_or_default : ℕ → ℕ
to_u32_or_default n = if leb n u32_max then n else 0

abbrev pub line_of : SearchResult → ℕ
line_of (found exact) = exact
line_of (insert_at zero) = 0
line_of (insert_at (suc next)) = next

-- `LineIndex::to_line_col`.
unfoldable pub to_line_col : LineIndex → Offset → LineCol
to_line_col [] offset = record { line = 0; column = 0 }
to_line_col (s ∷ index) offset =
    let line = line_of (search_from 0 (s ∷ index) offset) in
    record { line = to_u32_or_default line; column = offset - get_or (s ∷ index) line 0 }

-- The start of the line after `line`, or the end of the text.
abbrev pub next_line_start : LineIndex → Text → ℕ → ℕ
next_line_start index t line = unwrap_or (get_elem? index (line + 1)) (to_u32 (byte_len t))

-- `a + b` at `u32`.
abbrev pub add_u32 : ℕ → ℕ → ℕ
add_u32 a b = (a + b) % 2 ^ 32

-- The loop over the characters for UTF-16.
unfoldable pub utf16_loop : Text → ℕ → ℕ → ℕ → ℕ
utf16_loop [] character utf16_pos utf8_pos = utf8_pos
utf16_loop (c ∷ t) character utf16_pos utf8_pos =
    if leb character utf16_pos
    then utf8_pos
    else utf16_loop t character (add_u32 utf16_pos (len_utf16 c)) (add_u32 utf8_pos (len_utf8 c))

-- The loop over the characters for UTF-32.
unfoldable pub utf32_loop : Text → ℕ → ℕ → ℕ → ℕ
utf32_loop [] character char_count utf8_pos = utf8_pos
utf32_loop (c ∷ t) character char_count utf8_pos =
    if leb character char_count
    then utf8_pos
    else utf32_loop t character (char_count + 1) (add_u32 utf8_pos (len_utf8 c))

-- The offset inside a line, by its encoding; text in ASCII takes the fast path.
unfoldable pub column_offset : Text → ℕ → PositionEncoding → ℕ
column_offset line_text character utf8 = min character (to_u32 (byte_len line_text))
column_offset line_text character utf16 =
    if is_ascii line_text
    then min character (to_u32 (byte_len line_text))
    else utf16_loop line_text character 0 0
column_offset line_text character utf32 =
    if is_ascii line_text
    then min character (to_u32 (byte_len line_text))
    else utf32_loop line_text character 0 0

-- `LineIndex::offset` behind the lookup of the line's start.
unfoldable pub offset_in_line : LineIndex → Text → LineCol → PositionEncoding → ℕ → Offset
offset_in_line index t at encoding line_start_utf8 =
    if at.column == 0
    then line_start_utf8
    else let line_start = min line_start_utf8 (byte_len t) in
      let next_start = min (next_line_start index t at.line) (byte_len t) in
      if ltb next_start line_start
      then to_u32 (byte_len t)
      else add_u32 line_start_utf8
          (column_offset (slice t line_start next_start) at.column encoding)

-- `LineIndex::offset`.
unfoldable pub offset : LineIndex → Text → LineCol → PositionEncoding → Offset
unfolding offset_in_line
offset index t at encoding = elim (get_elem? index at.line) [
  | some start ↦ offset_in_line index t at encoding start
  | none ↦ to_u32 (byte_len t)
]

pub record SourceLine : Type 0 where
  pub line : ℕ
  pub start : Offset
  pub content : Text

-- The loop of `SourceLine::byte_offset`: back to a character boundary.
unfoldable pub to_boundary : Text → ℕ → ℕ
to_boundary t zero = zero
to_boundary t (suc n) = if is_char_boundary t (suc n) then suc n else to_boundary t n

-- `SourceLine::byte_offset`.
unfoldable pub byte_offset : SourceLine → Offset → ℕ
unfolding to_boundary
byte_offset l o = to_boundary l.content (min (o - l.start) (byte_len l.content))

-- `LineEnding::strip_suffix(line_text).map_or(line_text, |(text, _)| text)`.
abbrev pub without_ending : Text → Text
without_ending t = elim (Ending.strip_suffix t) [ none ↦ t | some (prefix, ending) ↦ prefix ]

-- `LineIndex::line_at_offset`.
unfoldable pub line_at_offset : LineIndex → Text → Offset → Option SourceLine
unfolding to_line_col
line_at_offset index t o =
    let line = (to_line_col index o).line in
    elim (get_elem? index line) [
      | none ↦ none
      | some start ↦
          let line_start = min start (byte_len t) in
          let line_end = min (next_line_start index t line) (byte_len t) in
          if ltb line_end line_start
          then none
          else some (record {
            line = line;
            start = to_u32 line_start;
            content = without_ending (slice t line_start line_end);
          })
    ]

-- Lengths of a text in UTF-16 units and in characters.
abbrev pub utf16_len : Text → ℕ
utf16_len [] = 0
utf16_len (c ∷ t) = len_utf16 c + utf16_len t

abbrev pub end_column : Text → PositionEncoding → ℕ
end_column line_text utf8 = to_u32 (byte_len line_text)
end_column line_text utf16 = utf16_len line_text % 2 ^ 32
end_column line_text utf32 = to_u32 (length line_text)

-- `LineIndex::end_line_col`.
unfoldable pub end_line_col : LineIndex → Text → PositionEncoding → LineCol
end_line_col index t encoding =
    let line_start = unwrap_or (last? index) 0 in
    record {
      line = to_u32_or_default (length index - 1);
      column = end_column (slice_from t (min line_start (byte_len t))) encoding;
    }
