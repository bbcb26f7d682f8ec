-- ===== src/Source/Line/Starts.antt =====
-- Which offsets the index holds: those behind a line ending, and 0.
use django_language_server.Base.{
  ℕ, zero, suc, ◌+◌, ◌≤◌, ◌<◌, Bool, true, false, not, ◌&&◌, ◌||◌, ◌==◌, ltb, ◌≡◌, refl, any,
  length, get_elem?, get_elem?_out, u32_max, arith, Bool-cases, Option-cases, some, none, to_u32,
  ◌∙◌, inl, inr,
}
use native.Mathlib.Numerals.{add-one}
use django_language_server.Base.Text.{Bytes}
use native.Mathlib.Decide.{ℕ_discrete as dec_eq}
use django_language_server.Source.Line.Ending.{LineEnding, crlf, byte_len, is_byte, match_at}
use django_language_server.Source.Line.Index.{line_starts, from_bytes}

-- A line starts at 0, behind a line feed, and behind a carriage return with no line feed after it.
abbrev pub is_line_start : Bytes → ℕ → Bool
is_line_start bytes zero = true
is_line_start bytes (suc q) =
    is_byte b'\n' (get_elem? bytes q)
    || (is_byte b'\r' (get_elem? bytes q) && not (is_byte b'\n' (get_elem? bytes (suc q))))

is_line_start_out : (bytes : Bytes) (p : ℕ) → length bytes < p → is_line_start bytes p ≡ false
is_line_start_out bytes zero h = absurd (omega arith)
is_line_start_out bytes (suc q) h = ground (arith, get_elem?_out bytes q)

-- A place that is no line ending is followed by no line start.
match_none :
    (bytes : Bytes) (i p : ℕ)
    → match_at bytes i ≡ none
    → (ltb (i + 1) p && is_line_start bytes p) ≡ (ltb i p && is_line_start bytes p)
unfolding match_at
match_none bytes i zero h = ground arith
match_none bytes i (suc q) h = elim (dec_eq i q) [
  | yes e ↦ rw (← e) (ground (arith, add-one i, rw (add-one i) at h))
  | no n ↦ ground arith
]

-- The next line starts behind the ending, and none starts inside it.
match_some :
    (bytes : Bytes) (i p : ℕ) (e : LineEnding)
    → match_at bytes i ≡ some e
    → ((i + byte_len e) == p || (ltb (i + byte_len e) p && is_line_start bytes p))
      ≡ (ltb i p && is_line_start bytes p)
unfolding match_at
match_some bytes i zero crlf h = ground arith
match_some bytes i zero _ h = ground arith
match_some bytes i (suc q) e h = elim (dec_eq i q) [
  | yes same ↦ rw (← same) (ground (arith, add-one i, rw (add-one i) at h))
  | no differ ↦ elim (dec_eq (i + 1) q) [
    | yes next ↦ rw (← next) (ground (arith, h))
    | no later ↦ ground (arith, h)
  ]
]

pub match_in :
    (bytes : Bytes) (i : ℕ) (e : LineEnding)
    → match_at bytes i ≡ some e
    → i + byte_len e ≤ length bytes
unfolding match_at
match_in bytes i e h = ground (arith, get_elem?_out bytes i, get_elem?_out bytes (i + 1))

pub byte_len_pos : (e : LineEnding) → 1 ≤ byte_len e
byte_len_pos crlf = omega arith
byte_len_pos _ = omega arith

line_starts_iff :
    (fuel : ℕ) (bytes : Bytes) (i p : ℕ)
    → length bytes ≤ u32_max
    → length bytes ≤ i + fuel
    → any (λ s. s == p) (line_starts fuel bytes i) ≡ (ltb i p && is_line_start bytes p)
unfolding line_starts
line_starts_iff zero bytes i p small fits = elim (Bool-cases (ltb i p)) [
  | inl h ↦ ground (arith, is_line_start_out bytes p)
  | inr h ↦ ground arith
]
line_starts_iff (suc fuel) bytes i p small fits = elim (Bool-cases (ltb i (length bytes))) [
  | inl inside ↦ elim (Option-cases (match_at bytes i)) [
    | inl m ↦
        rw (inside, m, line_starts)
          (line_starts_iff fuel bytes (i + 1) p small (omega arith) ∙ match_none bytes i p m)
    | inr (e, m) ↦
        let next : to_u32 (i + byte_len e) ≡ i + byte_len e = omega (arith, match_in bytes i e m) in
        rw (inside, m, line_starts)
          (rw
            (
              next,
              line_starts_iff fuel bytes (i + byte_len e) p small (omega (arith, byte_len_pos e)),
            )
            (match_some bytes i p e m))
  ]
  | inr outside ↦ rw (outside, line_starts) (ground (arith, is_line_start_out bytes p))
]

-- The index of the bytes of a text shorter than 4 GiB holds an offset exactly when a line starts
-- there: at 0, behind every line feed, and behind every carriage return that no line feed follows.
pub from_bytes_iff :
    (bytes : Bytes) (p : ℕ)
    → length bytes ≤ u32_max
    → any (λ s. s == p) (from_bytes bytes) ≡ is_line_start bytes p
unfolding from_bytes
from_bytes_iff bytes zero small = refl
from_bytes_iff bytes (suc q) small =
    ground (arith, line_starts_iff (length bytes) bytes 0 (suc q) small (omega arith))
