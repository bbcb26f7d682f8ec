-- ===== src/Templates/Quotes.antt =====
-- crates/djls-templates/src/quotes.rs: quoted strings, and splits of a text at what stands outside
-- quotes. The loop over the delimiters has as much fuel as the input has bytes.
pub mod Scan
pub mod Split
pub mod Words
pub mod Literal
mod Tests
use django_language_server.Base.{
  ℕ, zero, suc, ◌+◌, ◌-◌, Bool, true, false, ◌&&◌, ◌||◌, not, ◌==◌, ltb, if◌then◌else◌, Option,
  none, some, List, [], ◌∷◌, ◌++◌, reverse, unwrap_or,
}
use django_language_server.Base.Text.{
  Text, byte_len, len_utf8, slice, slice_from, is_whitespace, trim_start, trim,
}
use django_language_server.Source.Position.{Span, saturating_from_parts_usize}

pub data TemplateString : Type 0 where
  quoted : Text → Span → TemplateString
  unquoted : Text → TemplateString

-- `t.ends_with(c)`.
abbrev pub ends_with_char : Text → ℕ → Bool
ends_with_char [] q = false
ends_with_char (c ∷ []) q = c == q
ends_with_char (c ∷ d ∷ t) q = ends_with_char (d ∷ t) q

-- `TemplateString::parse` behind the trims, on the trimmed text.
unfoldable pub parse_trimmed : Text → Span → ℕ → TemplateString
parse_trimmed [] raw_span trim_start_len = unquoted []
parse_trimmed (first ∷ rest) raw_span trim_start_len =
    let raw = first ∷ rest in
    if not (first == b'\'') && not (first == b'"')
    then unquoted raw
    else if ltb (byte_len raw) 2 || not (ends_with_char raw first)
    then unquoted raw
    else (let value = slice raw 1 (byte_len raw - 1) in
        let value_start = raw_span.start + trim_start_len + len_utf8 first in
        quoted value (saturating_from_parts_usize value_start (byte_len value)))

-- `TemplateString::parse`.
unfoldable pub parse : Text → Span → TemplateString
unfolding trim_start trim
parse raw raw_span = parse_trimmed (trim raw) raw_span (byte_len raw - byte_len (trim_start raw))

pub data State : Type 0 where
  outside : State
  quoted escaped : ℕ → State

abbrev pub is_outside : State → Bool
is_outside outside = true
is_outside (State.quoted q) = false
is_outside (State.escaped q) = false

unfoldable pub feed : State → ℕ → State
feed outside ch = if ch == b'"' || ch == b'\'' then State.quoted ch else outside
feed (State.quoted quote) ch = if ch == quote then outside else State.quoted quote
feed (State.escaped quote) ch = State.quoted quote

unfoldable pub feed_escaped : State → ℕ → State
feed_escaped outside ch = if ch == b'"' || ch == b'\'' then State.quoted ch else outside
feed_escaped (State.quoted quote) ch =
    if ch == b'\\' then State.escaped quote else if ch == quote then outside else State.quoted quote
feed_escaped (State.escaped quote) ch = State.quoted quote

pub record DelimiterIndices : Type 0 where
  pub input : Text
  pub cursor : ℕ
  pub delimiter : ℕ
  pub state : State

-- `DelimiterIndices::new`.
abbrev pub new : Text → ℕ → DelimiterIndices
new input delimiter = record {
  input = input;
  cursor = 0;
  delimiter = delimiter;
  state = State.outside;
}

-- The loop of `next`, from the character at `byte_index` on.
unfoldable pub next_loop : Text → ℕ → DelimiterIndices → Option ℕ × DelimiterIndices
next_loop [] byte_index d = (none, d)
next_loop (ch ∷ rest) byte_index d =
    let d1 = record d { cursor = byte_index + len_utf8 ch } in
    elim (is_outside d.state && ch == d.delimiter) [
      | true ↦ (some byte_index, d1)
      | false ↦ next_loop rest (byte_index + len_utf8 ch) (record d1 { state = feed d.state ch })
    ]

unfoldable pub next : DelimiterIndices → Option ℕ × DelimiterIndices
next d = next_loop (slice_from d.input d.cursor) d.cursor d

pub record Segment : Type 0 where
  pub text : Text
  pub start_byte : ℕ

abbrev pub segment_of : Text → ℕ → Segment
segment_of t start = record { text = t; start_byte = start }

-- The loop of `segments`, and the segment after it.
unfoldable pub segments_loop : ℕ → DelimiterIndices → ℕ → List Segment
segments_loop zero d start_byte = segment_of (slice_from d.input start_byte) start_byte ∷ []
segments_loop (suc fuel) d start_byte =
    let (found, d') = next d in
    elim found [
      | none ↦ segment_of (slice_from d'.input start_byte) start_byte ∷ []
      | some delimiter_byte ↦
          segment_of (slice d'.input start_byte delimiter_byte) start_byte
          ∷ segments_loop fuel d' (delimiter_byte + len_utf8 d.delimiter)
    ]

abbrev pub segments : DelimiterIndices → List Segment
segments d = segments_loop (byte_len d.input) d 0

abbrev pub first_unquoted_delimiter_index : Text → ℕ → Option ℕ
first_unquoted_delimiter_index input delimiter = (next (new input delimiter)).0

abbrev pub split_on_unquoted_delimiter : Text → ℕ → List Segment
split_on_unquoted_delimiter input delimiter = segments (new input delimiter)

-- `start_byte.take()` and the push of the segment that it opened, which ends at `stop`.
abbrev pub take_segment : Text → Option ℕ → ℕ → List Segment
take_segment input none stop = []
take_segment input (some start) stop = segment_of (slice input start stop) start ∷ []

-- The segment that is still open behind the loop.
abbrev pub last_segment : Text → Option ℕ → List Segment
last_segment input none = []
last_segment input (some start) = segment_of (slice_from input start) start ∷ []

-- The loop of `split_on_unquoted_whitespace`, from the character at `byte_index` on.
unfoldable pub words_loop : Text → ℕ → Text → Option ℕ → State → List Segment
words_loop [] byte_index input start_byte state = last_segment input start_byte
words_loop (ch ∷ rest) byte_index input start_byte state =
    elim (is_outside state && is_whitespace ch) [
      | true ↦
          take_segment input start_byte byte_index
          ++ words_loop rest (byte_index + len_utf8 ch) input none state
      | false ↦
          words_loop rest (byte_index + len_utf8 ch) input (some (unwrap_or start_byte byte_index))
            (feed_escaped state ch)
    ]

unfoldable pub split_on_unquoted_whitespace : Text → List Segment
split_on_unquoted_whitespace input = words_loop input 0 input none State.outside
