-- ===== src/Source/Position/Bounds.antt =====
-- What the constructors of `Span` and its operations promise about bounds.
use django_language_server.Base.{ℕ, ◌+◌, ◌-◌, ◌≤◌, ◌<◌, ◌≡◌, ◌↔◌, true, u32_max, arith, min, refl}
use django_language_server.Source.Position.{
  Span, span_of, span_end, with_length_usize_saturating, saturating_from_parts_usize,
  saturating_from_bounds_usize, before_offset, expand, contains, Offset,
}

-- A span whose end is a `u32`: `Span::end` then adds without saturating.
abbrev pub Fits : Span → Type 0
Fits s = s.start + s.length ≤ u32_max

-- Every saturating constructor builds a span that fits, whatever numbers it is given, and keeps the
-- start (clamped to `u32::MAX`); with a new length a span that fits keeps its start and fits.
pub saturating_Fits :
    (start length : ℕ) (s : Span)
    → Fits s
    → Fits (saturating_from_parts_usize start length)
      × Fits (saturating_from_bounds_usize start length)
      × Fits (with_length_usize_saturating s length)
      × ((saturating_from_parts_usize start length).start ≡ min start u32_max)
      × ((saturating_from_bounds_usize start length).start ≡ min start u32_max)
      × ((with_length_usize_saturating s length).start ≡ s.start)
unfolding saturating_from_parts_usize saturating_from_bounds_usize with_length_usize_saturating
saturating_Fits start length s h =
    (ground arith, ground arith, ground arith, ground arith, ground arith, refl)

-- Bounds in the range of `u32` are kept: `saturating_from_bounds_usize` gives the span from `start`
-- to `end`, or the empty span at `start` if `end` lies before it.
pub from_bounds_exact :
    (start end : ℕ)
    → start ≤ u32_max
    → end ≤ u32_max
    → saturating_from_bounds_usize start end ≡ span_of start (end - start)
unfolding saturating_from_bounds_usize
from_bounds_exact start end hs he = ground arith

pub from_parts_exact :
    (start length : ℕ)
    → start + length ≤ u32_max
    → saturating_from_parts_usize start length ≡ span_of start length
unfolding saturating_from_parts_usize
from_parts_exact start length h = ground arith

-- Widening a span moves its two ends apart by what was asked, if there is room on both sides; an
-- offset lies in the wider span exactly when it is between the moved ends.
pub contains-expand :
    (s : Span) (opening closing : ℕ) (o : Offset)
    → opening ≤ s.start
    → s.start + s.length + closing ≤ u32_max
    → ((expand s opening closing).start + opening ≡ s.start)
      × (span_end (expand s opening closing) ≡ span_end s + closing)
      × ((contains (expand s opening closing) o ≡ true)
          ↔ ((s.start ≤ o + opening) × (o < s.start + s.length + closing)))
unfolding expand contains
contains-expand s opening closing o hs he =
    (ground arith, ground arith, (λ h. (ground arith, ground arith), λ h. ground arith))

-- The span before an offset ends there and has the length asked for, or what there is.
pub before_offset_lem :
    (o : Offset) (length : ℕ)
    → o ≤ u32_max
    → (span_end (before_offset o length) ≡ o) × ((before_offset o length).length ≡ min length o)
unfolding before_offset
before_offset_lem o length h = (ground arith, ground arith)
