-- ===== src/Source/Line/Bytes.antt =====
-- `SourceLine::byte_offset` of crates/djls-source/src/line.rs.
use django_language_server.Base.{
  ℕ, zero, suc, ◌-◌, ◌≤◌, ◌<◌, false, true, ◌≡◌, min, arith, Bool-cases, inl, inr,
}
use django_language_server.Base.Text.{Text, byte_len, is_char_boundary}
use django_language_server.Base.Text.Boundaries.{boundary_zero}
use django_language_server.Source.Position.{Offset}
use django_language_server.Source.Line.Index.{SourceLine, to_boundary, byte_offset}

to_boundary_lem :
    (t : Text) (n : ℕ)
    → (is_char_boundary t (to_boundary t n) ≡ true)
      × (to_boundary t n ≤ n)
      × ((m : ℕ) → to_boundary t n < m → m ≤ n → is_char_boundary t m ≡ false)
unfolding to_boundary
to_boundary_lem t zero = (boundary_zero t, omega arith, λ m lo hi. absurd (omega arith))
to_boundary_lem t (suc n) =
    let (cut, le, none_between) = to_boundary_lem t n in
    elim (Bool-cases (is_char_boundary t (suc n))) [
      | inl here ↦ ground (arith, here)
      | inr inside ↦ (ground arith, ground arith, λ m lo hi. ground (arith, none_between m))
    ]

-- The byte offset in a line is the last character boundary at or before the offset asked for,
-- clamped to the line on both sides.
pub byte_offset_lem :
    (l : SourceLine) (o : Offset)
    → (is_char_boundary l.content (byte_offset l o) ≡ true)
      × (byte_offset l o ≤ min (o - l.start) (byte_len l.content))
      × ((m : ℕ)
          → byte_offset l o < m
          → m ≤ min (o - l.start) (byte_len l.content)
          → is_char_boundary l.content m ≡ false)
unfolding byte_offset
byte_offset_lem l o = to_boundary_lem l.content (min (o - l.start) (byte_len l.content))
