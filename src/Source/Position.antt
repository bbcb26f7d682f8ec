-- ===== src/Source/Position.antt =====
-- crates/djls-source/src/position.rs: offsets, line and column pairs, ranges and spans. A `u32` is a
-- number; what wraps around is written out.
pub mod Bounds
mod Tests
use django_language_server.Base.{
  ℕ, ◌+◌, ◌-◌, ◌%◌, ◌^◌, ◌<◌, ◌≤◌, min, Bool, ◌&&◌, ltb, leb, if◌then◌else◌, u32_max, to_u32,
  saturating_add,
}

-- `Offset(u32)`.
abbrev pub Offset : Type 0
Offset = ℕ

pub data OffsetConversionError : Type 0 where
  overflow : OffsetConversionError

pub data OffsetResult : Type 0 where
  ok : Offset → OffsetResult
  err : OffsetConversionError → OffsetResult

-- `Offset::try_from(usize)`.
unfoldable pub try_from_usize : ℕ → OffsetResult
try_from_usize offset = if leb offset u32_max then ok offset else err overflow

pub record LineCol : Type 0 where
  pub line : ℕ
  pub column : ℕ

pub record Range : Type 0 where
  pub start : LineCol
  pub end : LineCol

pub record Span : Type 0 where
  pub start : ℕ
  pub length : ℕ

pub record Spanned (A : Type 0) : Type 0 where
  pub value : A
  pub span : Span

abbrev pub span_of : ℕ → ℕ → Span
span_of start length = record { start = start; length = length }

-- `Span::end`.
abbrev pub span_end : Span → ℕ
span_end s = saturating_add s.start s.length

unfoldable pub with_length_usize_saturating : Span → ℕ → Span
with_length_usize_saturating s length =
    let max_length = u32_max - s.start in span_of s.start (to_u32 (min length max_length))

unfoldable pub saturating_from_parts_usize : ℕ → ℕ → Span
saturating_from_parts_usize start length =
    let start_u32 = to_u32 (min start u32_max) in
    let max_length = u32_max - start_u32 in span_of start_u32 (to_u32 (min length max_length))

unfoldable pub saturating_from_bounds_usize : ℕ → ℕ → Span
saturating_from_bounds_usize start end =
    let s32 = to_u32 (min start u32_max) in
    let e32 = to_u32 (min end u32_max) in
    if leb s32 e32 then span_of s32 (e32 - s32) else span_of s32 (s32 - s32)

unfoldable pub before_offset : Offset → ℕ → Span
unfolding saturating_from_bounds_usize
before_offset offset length = saturating_from_bounds_usize (offset - length) offset

-- The sum of the lengths is not saturating: it wraps around in a release build.
unfoldable pub expand : Span → ℕ → ℕ → Span
expand s opening closing = span_of (s.start - opening) ((opening + s.length + closing) % 2 ^ 32)

unfoldable pub contains : Span → Offset → Bool
contains s offset = leb s.start offset && ltb offset (span_end s)

pub data SpanConversionError : Type 0 where
  overflow end_before_start : SpanConversionError

pub data SpanResult : Type 0 where
  ok : Span → SpanResult
  err : SpanConversionError → SpanResult

-- `Span::try_from((usize, usize))`.
unfoldable pub try_from_usizes : ℕ → ℕ → SpanResult
try_from_usizes start length =
    if leb start u32_max
    then if leb length u32_max then ok (span_of start length) else err overflow
    else err overflow
