-- ===== src/Source/Line/RoundTrip.antt =====
-- Offsets to line and column and back.
use django_language_server.Base.{ℕ, ◌+◌, ◌≤◌, ◌≡◌, get_elem?, u32_max, arith}
use django_language_server.Base.Text.{Text, byte_len, as_bytes}
use django_language_server.Base.Text.Slices.{length-as_bytes}
use django_language_server.Base.Text.Boundaries.{byte_len-slice}
use django_language_server.Source.Position.{Offset}
use django_language_server.Source.Line.Index.{
  utf8, from_text, to_line_col, offset, next_line_start, column_offset,
}
use django_language_server.Source.Line.Search.{Holds, Before, to_line_col-Holds}
use django_language_server.Source.Line.Boundary.{index_boundary, next_boundary, offset_in_line_lem}

-- For an offset of a text shorter than 4 GiB, the line found is the one that starts at or before
-- the offset and whose successor starts behind it, and the column is the distance to its start.
pub to_line_col-Holds_text :
    (t : Text) (o : Offset)
    → byte_len t ≤ u32_max
    → (h : Holds (from_text t) o (to_line_col (from_text t) o).line) × ((to_line_col
            (from_text t)
            o).column
          + h.start
        ≡ o)
unfolding from_text
to_line_col-Holds_text t o small =
    to_line_col-Holds (as_bytes t) o (omega (arith, length-as_bytes t))

next-ge :
    (t : Text) (o line : ℕ)
    → byte_len t ≤ u32_max
    → o ≤ byte_len t
    → Before o (get_elem? (from_text t) (line + 1))
    → o ≤ next_line_start (from_text t) t line
next-ge t o line small inside before = ground arith

-- An offset within a text shorter than 4 GiB, turned into line and column and back (in UTF-8), is
-- the offset again.
pub offset-to_line_col :
    (t : Text) (o : Offset)
    → byte_len t ≤ u32_max
    → o ≤ byte_len t
    → offset (from_text t) t (to_line_col (from_text t) o) utf8 ≡ o
unfolding column_offset offset
offset-to_line_col t o small inside =
    let at = to_line_col (from_text t) o in
    let (h, column) = to_line_col-Holds_text t o small in
    let (cut, le) = index_boundary t small at.line h.start h.at_line in
    let (cut_next, le_next) = next_boundary t small at.line in
    let later = next-ge t o at.line small inside h.ends_behind in
    let n = next_line_start (from_text t) t at.line in
    let len = byte_len-slice t h.start n cut cut_next (omega arith) in
    rw (h.at_line, offset)
      (rw (offset_in_line_lem t small at utf8 h.start le) (ground (arith, len)))
