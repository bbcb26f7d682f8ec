-- ===== src/Source/Line/Search.antt =====
-- The index increases strictly and stays within the text, so the binary search finds the line that
-- holds an offset.
use native.Mathlib.Numerals.{add-one}
use django_language_server.Base.{
  ℕ, zero, suc, ◌+◌, ◌≤◌, ◌<◌, le→leb, ltb, leb, ◌≡◌, refl, List, [], ◌∷◌, length, get_elem?,
  get_or, u32_max, to_u32, arith, All, Bool-cases, Option-cases, inl, inr, some, none, Option,
}
use django_language_server.Base.Text.{Bytes}
use django_language_server.Source.Line.Ending
use django_language_server.Source.Line.Ending.{match_at}
use django_language_server.Source.Line.Index.{
  line_starts, from_bytes, search_from, line_of, to_line_col,
}
use django_language_server.Source.Line.Starts.{match_in, byte_len_pos}

-- Strictly increasing, from above `lo`.
abbrev pub Increasing : ℕ → List ℕ → Type 0
Increasing lo [] = Unit {0}
Increasing lo (x ∷ xs) = (lo < x) × Increasing x xs

Increasing-weaken : {lo hi : ℕ} (xs : List ℕ) → lo ≤ hi → Increasing hi xs → Increasing lo xs
Increasing-weaken [] h w = tt
Increasing-weaken (x ∷ xs) h w = (omega (arith, w.0), w.1)

pub line_starts-Increasing :
    (fuel : ℕ) (bytes : Bytes) (i : ℕ)
    → length bytes ≤ u32_max
    → Increasing i (line_starts fuel bytes i)
      × All (λ s. s ≤ length bytes) (line_starts fuel bytes i)
unfolding line_starts
line_starts-Increasing zero bytes i small = (tt, tt)
line_starts-Increasing (suc fuel) bytes i small = elim (Bool-cases (ltb i (length bytes))) [
  | inl inside ↦ elim (Option-cases (match_at bytes i)) [
    | inl m ↦
        let (above, within) = line_starts-Increasing fuel bytes (i + 1) small in
        rw (inside, m, line_starts) (Increasing-weaken _ (omega arith) above, within)
    | inr (e, m) ↦
        let within = match_in bytes i e m in
        let next : to_u32 (i + Ending.byte_len e) ≡ i + Ending.byte_len e = omega (arith, within) in
        let rest = line_starts-Increasing fuel bytes (i + Ending.byte_len e) small in
        rw (inside, m, line_starts)
          (rw next ((omega (arith, byte_len_pos e), rest.0), (within, rest.1)))
  ]
  | inr outside ↦ rw (outside, line_starts) (tt, tt)
]

-- The offset lies before the line that follows, if one does.
abbrev pub Before : ℕ → Option ℕ → Type 0
Before o none = Unit {0}
Before o (some next) = o < next

-- Line `line` of the index holds the offset: it starts at or before it, and the next line behind it.
pub record Holds (index : List ℕ) (o line : ℕ) : Type 0 where
  pub start : ℕ
  pub at_line : get_elem? index line ≡ some start
  pub starts_before : start ≤ o
  pub ends_behind : Before o (get_elem? index (line + 1))

Holds-cons : (s : ℕ) (xs : List ℕ) (o k : ℕ) → Holds xs o k → Holds (s ∷ xs) o (suc k)
Holds-cons s xs o k h = record {
  start = h.start;
  at_line = h.at_line;
  starts_before = h.starts_before;
  ends_behind = rw (add-one (suc k)) (rw (add-one k) at h.ends_behind);
}

search_from-Holds :
    (i s : ℕ) (xs : List ℕ) (o : ℕ)
    → Increasing s xs
    → s ≤ o
    → (k : ℕ) × (line_of (search_from i (s ∷ xs) o) ≡ i + k) × Holds (s ∷ xs) o k
unfolding search_from
search_from-Holds i s [] o w h = (
  0,
  ground (arith, add-one i),
  record { start = s; at_line = refl; starts_before = h; ends_behind = tt },
)
search_from-Holds i s (y ∷ ys) o w h = elim (Bool-cases (leb y o)) [
  | inl later ↦
      let (k, e, holds) = search_from-Holds (i + 1) y ys o w.1 (ground arith) in
      (suc k, ground (arith, e, w), Holds-cons s (y ∷ ys) o k holds)
  | inr here ↦ (
    0,
    ground (arith, add-one i),
    record { start = s; at_line = refl; starts_before = h; ends_behind = ground arith },
  )
]

get_elem?-ge :
    (s : ℕ) (xs : List ℕ) (k a : ℕ) → Increasing s xs → get_elem? (s ∷ xs) k ≡ some a → s + k ≤ a
get_elem?-ge s xs zero a w e = ground arith
get_elem?-ge s [] (suc k) a w e = cc
get_elem?-ge s (x ∷ xs) (suc k) a w e = omega (arith, get_elem?-ge x xs k a w.1 e, w.0)

pub get_elem?-All {ℓ} :
    (P : ℕ → Type ℓ) (xs : List ℕ) (k a : ℕ) → All P xs → get_elem? xs k ≡ some a → P a
get_elem?-All P [] k a h e = cc
get_elem?-All P (x ∷ xs) zero a h e = let same : x ≡ a = cc in rw same at h.0
get_elem?-All P (x ∷ xs) (suc k) a h e = get_elem?-All P xs k a h.1 e

get_or-get_elem? : (xs : List ℕ) (k a : ℕ) → get_elem? xs k ≡ some a → get_or xs k 0 ≡ a
get_or-get_elem? [] k a e = cc
get_or-get_elem? (x ∷ xs) zero a e = cc
get_or-get_elem? (x ∷ xs) (suc k) a e = get_or-get_elem? xs k a e

pub from_bytes-within :
    (bytes : Bytes) → length bytes ≤ u32_max → All (λ s. s ≤ length bytes) (from_bytes bytes)
unfolding from_bytes
from_bytes-within bytes small =
    (omega arith, (line_starts-Increasing (length bytes) bytes 0 small).1)

-- The line of an offset is the one that holds it, and the column counts the bytes from its start.
pub to_line_col-Holds :
    (bytes : Bytes) (o : ℕ)
    → length bytes ≤ u32_max
    → (h : Holds (from_bytes bytes) o (to_line_col (from_bytes bytes) o).line) × ((to_line_col
            (from_bytes bytes)
            o).column
          + h.start
        ≡ o)
unfolding from_bytes to_line_col
to_line_col-Holds bytes o small =
    let xs = line_starts (length bytes) bytes 0 in
    let (above, within) = line_starts-Increasing (length bytes) bytes 0 small in
    let (k, e, h) = search_from-Holds 0 0 xs o above (omega arith) in
    let far = get_elem?-ge 0 xs k h.start above h.at_line in
    let near =
      get_elem?-All (λ s. s ≤ length bytes) (0 ∷ xs) k h.start (omega arith, within) h.at_line in
    let line : line_of (search_from 0 (0 ∷ xs) o) ≡ k = omega (arith, e) in
    let start = get_or-get_elem? (0 ∷ xs) k h.start h.at_line in
    rw (line, le→leb k u32_max (omega arith)) (h, rw start (omega (arith, h.starts_before)))
