-- ===== src/Source/Position/Tests.antt =====
-- Runs of crates/djls-source/src/position.rs, and the theorems at inputs that meet their hypotheses.
use django_language_server.Base.{◌≡◌, refl, min, u32_max, arith}
use django_language_server.Source.Position.{
  span_of, with_length_usize_saturating, saturating_from_parts_usize, saturating_from_bounds_usize,
  before_offset, expand,
}
use django_language_server.Source.Position.Bounds.{Fits, saturating_Fits}

before_offset_runs : (before_offset 10 3 ≡ span_of 7 3) × (before_offset 2 5 ≡ span_of 0 2)
unfolding before_offset
before_offset_runs = (refl, refl)

-- Near the end of the range the length of a widened span wraps around.
expand_wraps : expand (span_of 0 4294967295) 2 2 ≡ span_of 0 3
unfolding expand
expand_wraps = refl

saturating_Fits_example :
    Fits (saturating_from_parts_usize 4294967290 20)
    × Fits (saturating_from_bounds_usize 4294967290 20)
    × Fits (with_length_usize_saturating (span_of 5 6) 20)
    × ((saturating_from_parts_usize 4294967290 20).start ≡ min 4294967290 u32_max)
    × ((saturating_from_bounds_usize 4294967290 20).start ≡ min 4294967290 u32_max)
    × ((with_length_usize_saturating (span_of 5 6) 20).start ≡ 5)
saturating_Fits_example = saturating_Fits 4294967290 20 (span_of 5 6) (omega arith)
