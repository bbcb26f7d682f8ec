-- ===== src/Templates/Quotes/Split.antt =====
-- The split at a delimiter of crates/djls-templates/src/quotes.rs.
use django_language_server.Base.{
  ℕ, zero, suc, ◌+◌, ◌≤◌, ◌≡◌, refl, sym, ap, ◌∙◌, List, [], ◌∷◌, ◌++◌, arith, append_assoc, inl,
  inr,
}
use django_language_server.Base.Text.{Text, byte_len, len_utf8, slice, slice_from}
use django_language_server.Base.Text.Slices.{
  len_utf8_pos, byte_len-append, slice_from-append, slice_middle,
}
use django_language_server.Templates.Quotes.{
  State, DelimiterIndices, new, next, next_loop, Segment, segment_of, segments_loop,
  split_on_unquoted_delimiter,
}
use django_language_server.Templates.Quotes.Scan.{run, IsClean, Scans-cases, next_loop-Scans}

-- Segments that the text from offset `o` on splits into at the delimiters outside quotes, each with
-- the offset at which it stands.
pub data Splits (delimiter : ℕ) : ℕ → Text → List Segment → Type 0 where
  whole :
      {o : ℕ} {t : Text}
      → IsClean delimiter State.outside t
      → Splits delimiter o t (segment_of t o ∷ [])
  cut :
      {o : ℕ} {t : Text} {segments : List Segment} (s rest : Text)
      → t ≡ s ++ delimiter ∷ rest
      → IsClean delimiter State.outside s
      → run State.outside s ≡ State.outside
      → Splits delimiter (o + byte_len s + len_utf8 delimiter) rest segments
      → Splits delimiter o t (segment_of s o ∷ segments)

byte_len-cut :
    (s rest : Text) (c : ℕ) → byte_len (s ++ c ∷ rest) ≡ byte_len s + len_utf8 c + byte_len rest
byte_len-cut s rest c = omega (arith, byte_len-append s (c ∷ rest))

-- The text up to a cut, with the character at it, is what stands before the rest.
pub cut_before :
    (before s rest : Text) (c : ℕ)
    → (before ++ (s ++ c ∷ rest) ≡ (before ++ (s ++ c ∷ [])) ++ rest)
      × (byte_len (before ++ (s ++ c ∷ [])) ≡ byte_len before + byte_len s + len_utf8 c)
cut_before before s rest c = (
  rw (append_assoc before (s ++ c ∷ []) rest, append_assoc s (c ∷ []) rest) refl,
  omega (arith, byte_len-append before (s ++ c ∷ []), byte_len-append s (c ∷ [])),
)

pub next_lem :
    (d : DelimiterIndices) (before rest : Text)
    → d.input ≡ before ++ rest
    → d.cursor ≡ byte_len before
    → next d ≡ next_loop rest (byte_len before) d
unfolding next
next_lem d before rest same at =
    let tail : slice_from d.input d.cursor ≡ rest = rw (same, at) (slice_from-append before rest) in
    rw tail (ap (λ (b : ℕ). next_loop rest b d) at)

tail_at : (t before rest : Text) → t ≡ before ++ rest → slice_from t (byte_len before) ≡ rest
tail_at t before rest same = rw same (slice_from-append before rest)

IsClean-empty : (delimiter : ℕ) (t : Text) → byte_len t ≤ 0 → IsClean delimiter State.outside t
IsClean-empty delimiter t small p q e out = omega (
  arith,
  ap (λ (s : Text). byte_len s) e,
  byte_len-append p (delimiter ∷ q),
  len_utf8_pos delimiter,
  small,
)

pub segments_loop-Splits :
    (fuel : ℕ) (d : DelimiterIndices) (before rest : Text)
    → d.input ≡ before ++ rest
    → d.cursor ≡ byte_len before
    → d.state ≡ State.outside
    → byte_len rest ≤ fuel
    → Splits d.delimiter (byte_len before) rest (segments_loop fuel d (byte_len before))
unfolding segments_loop
segments_loop-Splits zero d before rest same at out enough =
    rw (tail_at d.input before rest same, segments_loop)
      (whole (IsClean-empty d.delimiter rest enough))
segments_loop-Splits (suc fuel) d before rest same at out enough =
    let step = next_lem d before rest same at in
    elim (Scans-cases (next_loop-Scans rest (byte_len before) d)) [
      | inl (stop, kept, clean) ↦
          let tail =
            tail_at (next_loop rest (byte_len before) d).1.input before rest (kept ∙ same) in
          rw (step, stop, step, tail, segments_loop) (whole (rw out at clean))
      | inr f ↦
          let r = next_loop rest (byte_len before) d in
          let input_at : r.1.input ≡ before ++ (f.front ++ d.delimiter ∷ f.back) =
            f.same ∙ same ∙ ap (λ (u : Text). before ++ u) f.split in
          let (split', len) = cut_before before f.front f.back d.delimiter in
          let later =
            segments_loop-Splits fuel r.1 (before ++ (f.front ++ d.delimiter ∷ [])) f.back
              (input_at ∙ split') (f.cursor ∙ sym len) f.reset
              (omega (
                arith,
                enough,
                ap (λ (u : Text). byte_len u) f.split,
                len_utf8_pos d.delimiter,
                byte_len-cut f.front f.back d.delimiter,
              )) in
          let piece =
            ap (λ (u : Text). slice u (byte_len before) (byte_len before + byte_len f.front))
              input_at
            ∙ slice_middle before f.front (d.delimiter ∷ f.back) in
          rw (step, f.index, step, piece, segments_loop)
            (cut f.front f.back f.split (rw out at f.clean) (rw out at f.out)
              (rw (len, f.same_delimiter) at later))
    ]

-- A split at a delimiter cuts the input at every place of the delimiter outside quotes and nowhere
-- else: the segments with the delimiter between them are the input, each at its own offset.
pub split_on_unquoted_delimiter-Splits :
    (input : Text) (delimiter : ℕ)
    → Splits delimiter 0 input (split_on_unquoted_delimiter input delimiter)
split_on_unquoted_delimiter-Splits input delimiter =
    segments_loop-Splits (byte_len input) (new input delimiter) [] input refl refl refl
      (omega arith)
