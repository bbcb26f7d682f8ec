-- ===== src/Source/Line/Boundary.antt =====
-- `LineIndex::offset` of crates/djls-source/src/line.rs gives offsets at which the text can be cut.
use native.Mathlib.Numerals.{add-one}
use django_language_server.Base.{
  ℕ, zero, suc, ◌+◌, ◌-◌, ◌≤◌, true, ◌==◌, ltb, ◌≡◌, ◌≢◌, ◌⊎◌, refl, List, [], ◌∷◌, length,
  get_elem?, any, u32_max, to_u32, arith, Bool-cases, Option-cases, if◌then◌else◌, inl, inr, some,
  ◌∙◌, sym, min,
}
use django_language_server.Base.Text.{
  Text, as_bytes, byte_len, len_utf8, len_utf16, is_ascii, is_char_boundary, slice, slice_from,
  slice_to,
}
use django_language_server.Base.Text.Slices.{length-as_bytes}
use django_language_server.Base.Text.Boundaries.{
  boundary_zero, boundary_end, boundary-le, boundary_add, boundary-slice_to, byte_len-slice,
  ascii_boundary, ascii_byte_boundary,
}
use django_language_server.Source.Position.{LineCol}
use django_language_server.Source.Line.Index.{
  PositionEncoding, utf8, utf16, utf32, from_text, from_bytes, next_line_start, add_u32, utf16_loop,
  utf32_loop, column_offset, offset_in_line, offset,
}
use django_language_server.Source.Line.Starts.{is_line_start, from_bytes_iff}

get_elem?-any : (xs : List ℕ) (k a : ℕ) → get_elem? xs k ≡ some a → any (λ s. s == a) xs ≡ true
get_elem?-any [] k a e = cc
get_elem?-any (x ∷ xs) zero a e = ground arith
get_elem?-any (x ∷ xs) (suc k) a e = ground (arith, get_elem?-any xs k a)

line_start_boundary :
    (t : Text) (p : ℕ) → is_line_start (as_bytes t) p ≡ true → is_char_boundary t p ≡ true
line_start_boundary t zero h = boundary_zero t
line_start_boundary t (suc q) h = elim (Option-cases (get_elem? (as_bytes t) q)) [
  | inl e ↦ ground arith
  | inr (b, e) ↦ rw (← add-one q) (ascii_byte_boundary t q b e (ground arith))
]

module _ (t : Text) (small : byte_len t ≤ u32_max) where
  small_bytes : length (as_bytes t) ≤ u32_max
  small_bytes = omega (arith, length-as_bytes t)

  -- Every start in the index is a boundary of the text, and lies within it.
  pub index_boundary :
      (k a : ℕ)
      → get_elem? (from_text t) k ≡ some a
      → (is_char_boundary t a ≡ true) × (a ≤ byte_len t)
  unfolding from_text
  index_boundary k a e =
      let found = get_elem?-any (from_bytes (as_bytes t)) k a e in
      let start = sym (from_bytes_iff (as_bytes t) a small_bytes) ∙ found in
      let cut = line_start_boundary t a start in (cut, boundary-le t a cut)

  pub next_boundary :
      (line : ℕ)
      → (is_char_boundary t (next_line_start (from_text t) t line) ≡ true)
        × (next_line_start (from_text t) t line ≤ byte_len t)
  next_boundary line = elim (Option-cases (get_elem? (from_text t) (line + 1))) [
    | inl e ↦
        let all : to_u32 (byte_len t) ≡ byte_len t = omega arith in
        rw e (rw all (boundary_end t, omega arith))
    | inr (b, e) ↦ rw e (index_boundary (line + 1) b e)
  ]

utf16_loop_lem :
    (t : Text) (character p16 p8 : ℕ)
    → p8 + byte_len t ≤ u32_max
    → (p8 ≤ utf16_loop t character p16 p8)
      × (is_char_boundary t (utf16_loop t character p16 p8 - p8) ≡ true)
unfolding utf16_loop is_char_boundary
utf16_loop_lem [] character p16 p8 h = (omega arith, ground arith)
utf16_loop_lem (c ∷ t) character p16 p8 h =
    let p16' = add_u32 p16 (len_utf16 c) in
    let later = utf16_loop_lem t character p16' (p8 + len_utf8 c) (omega arith) in
    (ground (arith, later), ground (arith, later))

utf32_loop_lem :
    (t : Text) (character n p8 : ℕ)
    → p8 + byte_len t ≤ u32_max
    → (p8 ≤ utf32_loop t character n p8)
      × (is_char_boundary t (utf32_loop t character n p8 - p8) ≡ true)
unfolding utf32_loop is_char_boundary
utf32_loop_lem [] character n p8 h = (omega arith, ground arith)
utf32_loop_lem (c ∷ t) character n p8 h =
    let later = utf32_loop_lem t character (n + 1) (p8 + len_utf8 c) (omega arith) in
    (ground (arith, later), ground (arith, later))

column_offset_boundary :
    (l : Text) (character : ℕ) (encoding : PositionEncoding)
    → byte_len l ≤ u32_max
    → (encoding ≢ utf8) ⊎ (is_ascii l ≡ true)
    → is_char_boundary l (column_offset l character encoding) ≡ true
unfolding column_offset
column_offset_boundary l character utf8 small ok =
    ground (arith, ascii_boundary l (min character (byte_len l)))
column_offset_boundary l character utf16 small ok = ground (
  arith,
  ascii_boundary l (min character (byte_len l)),
  utf16_loop_lem l character 0 0 (omega arith),
)
column_offset_boundary l character utf32 small ok = ground (
  arith,
  ascii_boundary l (min character (byte_len l)),
  utf32_loop_lem l character 0 0 (omega arith),
)

column_offset-le :
    (l : Text) (character : ℕ) (encoding : PositionEncoding)
    → byte_len l ≤ u32_max
    → column_offset l character encoding ≤ byte_len l
column_offset-le l character utf8 small = unfold column_offset in omega arith
column_offset-le l character utf16 small =
    boundary-le l _ (column_offset_boundary l character utf16 small (inl cc))
column_offset-le l character utf32 small =
    boundary-le l _ (column_offset_boundary l character utf32 small (inl cc))

ascii-slice_from : (t : Text) (n : ℕ) → is_ascii t ≡ true → is_ascii (slice_from t n) ≡ true
unfolding is_ascii slice_from
ascii-slice_from [] n h = refl
ascii-slice_from (c ∷ t) n h = ground (arith, ascii-slice_from t (n - len_utf8 c))

ascii-slice_to : (t : Text) (n : ℕ) → is_ascii t ≡ true → is_ascii (slice_to t n) ≡ true
unfolding is_ascii slice_to
ascii-slice_to [] n h = refl
ascii-slice_to (c ∷ t) n h = ground (arith, ascii-slice_to t (n - len_utf8 c))

ascii-slice :
    (t : Text) (a b : ℕ) (encoding : PositionEncoding)
    → (encoding ≢ utf8) ⊎ (is_ascii t ≡ true)
    → (encoding ≢ utf8) ⊎ (is_ascii (slice t a b) ≡ true)
unfolding slice
ascii-slice t a b encoding (inl other) = inl other
ascii-slice t a b encoding (inr ascii) =
    inr (ascii-slice_to (slice_from t a) (b - a) (ascii-slice_from t a ascii))

module _ (t : Text) (small : byte_len t ≤ u32_max) (at : LineCol)
    (encoding : PositionEncoding) where
  abbrev next : ℕ
  next = next_line_start (from_text t) t at.line

  -- With a start inside the text no clamp is left.
  pub offset_in_line_lem :
      (a : ℕ)
      → a ≤ byte_len t
      → offset_in_line (from_text t) t at encoding a ≡ (
          if at.column == 0
          then a
          else if ltb next a
          then byte_len t
          else add_u32 a (column_offset (slice t a next) at.column encoding))
  unfolding offset_in_line
  offset_in_line_lem a le =
      let first : min a (byte_len t) ≡ a = omega arith in
      let second : min next (byte_len t) ≡ next =
        omega (arith, (next_boundary t small at.line).1) in
      let all : to_u32 (byte_len t) ≡ byte_len t = omega arith in simp (first, second) (simp all)

  line_boundary :
      (a : ℕ)
      → is_char_boundary t a ≡ true
      → a ≤ byte_len t
      → (encoding ≢ utf8) ⊎ (is_ascii t ≡ true)
      → is_char_boundary t (offset_in_line (from_text t) t at encoding a) ≡ true
  line_boundary a cut le ok = rw (offset_in_line_lem a le) (elim (Bool-cases (at.column == 0)) [
    | inl first ↦ rw first cut
    | inr inner ↦ elim (Bool-cases (ltb next a)) [
      | inl back ↦ rw (inner, back) (boundary_end t)
      | inr forth ↦
          let (cut_next, le_next) = next_boundary t small at.line in
          let line = slice t a next in
          let m = column_offset line at.column encoding in
          let len = byte_len-slice t a next cut cut_next (ground arith) in
          let cut_m =
            column_offset_boundary line at.column encoding (omega (arith, len))
              (ascii-slice t a next encoding ok) in
          let within = boundary-le line m cut_m in
          let sum : add_u32 a m ≡ a + m = ground (arith, len) in
          rw (inner, forth)
            (rw sum (
              boundary_add t a m cut
                (unfold slice in boundary-slice_to (slice_from t a) (next - a) m cut_m)))
    ]
  ])

  -- In a text shorter than 4 GiB, where the client counts UTF-16 units or characters, or the text is
  -- in ASCII, every position, also one outside the text, is turned into an offset at which the text
  -- can be cut.
  pub offset_boundary :
      (encoding ≢ utf8) ⊎ (is_ascii t ≡ true)
      → is_char_boundary t (offset (from_text t) t at encoding) ≡ true
  unfolding offset
  offset_boundary ok = elim (Option-cases (get_elem? (from_text t) at.line)) [
    | inl e ↦
        let all : to_u32 (byte_len t) ≡ byte_len t = omega arith in
        rw (e, offset) (rw all (boundary_end t))
    | inr (a, e) ↦
        let (cut, le) = index_boundary t small at.line a e in
        rw (e, offset) (line_boundary a cut le ok)
  ]

  line-le :
      (a : ℕ)
      → is_char_boundary t a ≡ true
      → a ≤ byte_len t
      → offset_in_line (from_text t) t at encoding a ≤ byte_len t
  line-le a cut le = rw (offset_in_line_lem a le) (elim (Bool-cases (at.column == 0)) [
    | inl first ↦ rw first le
    | inr inner ↦ elim (Bool-cases (ltb next a)) [
      | inl back ↦ rw (inner, back) (omega arith)
      | inr forth ↦
          let (cut_next, le_next) = next_boundary t small at.line in
          let line = slice t a next in
          let len = byte_len-slice t a next cut cut_next (ground arith) in
          let within = column_offset-le line at.column encoding (omega (arith, len)) in
          rw (inner, forth) (ground (arith, len))
    ]
  ])

  -- In a text shorter than 4 GiB and in every encoding the offset of a position lies within the text.
  pub offset-le-byte_len : offset (from_text t) t at encoding ≤ byte_len t
  unfolding offset
  offset-le-byte_len = elim (Option-cases (get_elem? (from_text t) at.line)) [
    | inl e ↦ rw (e, offset) (omega arith)
    | inr (a, e) ↦
        let (cut, le) = index_boundary t small at.line a e in rw (e, offset) (line-le a cut le)
  ]
