-- ===== src/Templates/Filters.antt =====
-- crates/djls-templates/src/filters.rs and bits.rs: tag bits, and the filters of a variable.
pub mod Head
mod Tests
use django_language_server.Base.{
  ℕ, zero, suc, ◌+◌, ◌-◌, ◌%◌, ◌^◌, Bool, true, false, ◌==◌, if◌then◌else◌, Option, none, some,
  List, [], ◌∷◌, ◌++◌, map, to_u32,
}
use django_language_server.Base.Result.{Result, ok, err}
use django_language_server.Base.Text.{Text, byte_len, slice_from, slice_to, trim_start, trim}
use django_language_server.Source.Position.{Span, span_of, saturating_from_parts_usize}
use django_language_server.Templates.Quotes.{
  TemplateString, Segment, parse, split_on_unquoted_delimiter, first_unquoted_delimiter_index,
}

pub record TagBit : Type 0 where
  pub text : Text
  pub span : Span

-- `TagBit::template_string`.
abbrev pub template_string : TagBit → TemplateString
template_string bit = parse bit.text bit.span

pub record FilterArgument : Type 0 where
  pub text : Text
  pub span : Span

pub record Filter : Type 0 where
  pub name : Text
  pub arg : Option FilterArgument
  pub span : Span

-- `Filter::label`.
abbrev pub label : Filter → Text
label f = elim f.arg [ none ↦ f.name | some arg ↦ f.name ++ b':' ∷ arg.text ]

pub record FilterParseError : Type 0 where
  pub position : ℕ
  pub content : Text

abbrev pub segment_pair : Segment → Text × ℕ
segment_pair segment = (segment.text, to_u32 segment.start_byte)

unfoldable pub split_variable_expression : Text → List (Text × ℕ)
split_variable_expression content = map segment_pair (split_on_unquoted_delimiter content b'|')

-- `str::is_empty`.
abbrev pub is_empty : Text → Bool
is_empty [] = true
is_empty (c ∷ t) = false

-- The argument behind the colon at `pos`, if there is one.
abbrev pub filter_argument : Text → ℕ → ℕ → Option FilterArgument
filter_argument arg_raw filter_offset pos =
    let arg_trimmed_start = byte_len arg_raw - byte_len (trim_start arg_raw) in
    let arg = trim arg_raw in
    if is_empty arg
    then none
    else some (record {
      text = arg;
      span =
          saturating_from_parts_usize (filter_offset + pos + 1 + arg_trimmed_start) (byte_len arg);
    })

-- The name and the argument of a trimmed filter.
abbrev pub name_and_argument : Text → ℕ → Option ℕ → Text × Option FilterArgument
name_and_argument trimmed filter_offset (some pos) =
    (trim (slice_to trimmed pos), filter_argument (slice_from trimmed (pos + 1)) filter_offset pos)
name_and_argument trimmed filter_offset none = (trimmed, none)

abbrev pub make_filter : Text → ℕ → Text × Option FilterArgument → Result FilterParseError Filter
make_filter trimmed filter_offset (name, arg) =
    if is_empty name
    then err (record { position = filter_offset; content = trimmed })
    else ok (record {
      name = name;
      arg = arg;
      span = span_of filter_offset (to_u32 (byte_len trimmed));
    })

-- The sum of two `u32` wraps.
unfoldable pub parse_filter : Text → ℕ → Result FilterParseError Filter
parse_filter raw base_offset =
    let trimmed_start = byte_len raw - byte_len (trim_start raw) in
    let trimmed = trim raw in
    let filter_offset = (base_offset + to_u32 trimmed_start) % 2 ^ 32 in
    let colon_pos = first_unquoted_delimiter_index trimmed b':' in
    make_filter trimmed filter_offset (name_and_argument trimmed filter_offset colon_pos)
