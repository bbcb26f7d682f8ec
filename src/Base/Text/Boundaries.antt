-- ===== src/Base/Text/Boundaries.antt =====
-- Character boundaries of a text, of its slices, and behind its ASCII bytes.
use Prim.Native.Nat.{ℕ, zero, suc, ◌+◌, ◌-◌, ◌≤◌, ◌<◌}
use mathlib.Core.Path.{◌≡◌, refl, sym, ap, ◌∙◌}
use mathlib.Core.Bool.{true}
use mathlib.Core.Option.{some}
use mathlib.Core.List.{List, [], ◌∷◌, ◌++◌}
use mathlib.Core.Logic.{inl, inr}
use native.Mathlib.Omega.{arith}
use django_language_server.Base.Tests.{ltb, ◌==◌, if◌then◌else◌, Bool-cases}
use django_language_server.Base.Lists.{length, get_elem?}
use django_language_server.Base.Text.{
  Text, len_utf8, byte_len, encode, as_bytes, is_ascii, is_char_boundary, slice_from, slice_to,
  slice,
}
use django_language_server.Base.Text.Slices.{
  len_utf8_pos, length-encode, boundary_split, slice_from-zero,
}

pub boundary_zero : (t : Text) → is_char_boundary t 0 ≡ true
unfolding is_char_boundary
boundary_zero [] = refl
boundary_zero (c ∷ t) = refl

pub boundary_end : (t : Text) → is_char_boundary t (byte_len t) ≡ true
unfolding is_char_boundary
boundary_end [] = refl
boundary_end (c ∷ t) = ground (arith, boundary_end t)

pub boundary-le : (t : Text) (n : ℕ) → is_char_boundary t n ≡ true → n ≤ byte_len t
unfolding is_char_boundary
boundary-le [] n h = ground arith
boundary-le (c ∷ t) n h = ground (arith, boundary-le t (n - len_utf8 c))

-- A boundary of what stands behind a boundary, and back.
pub boundary_add :
    (t : Text) (a m : ℕ)
    → is_char_boundary t a ≡ true
    → is_char_boundary (slice_from t a) m ≡ true
    → is_char_boundary t (a + m) ≡ true
unfolding is_char_boundary slice_from
boundary_add [] a m ha hm = ground arith
boundary_add (c ∷ t) a m ha hm = ground (arith, boundary_add t (a - len_utf8 c) m)

pub boundary_sub :
    (t : Text) (a n : ℕ)
    → is_char_boundary t a ≡ true
    → is_char_boundary t n ≡ true
    → a ≤ n
    → is_char_boundary (slice_from t a) (n - a) ≡ true
unfolding is_char_boundary slice_from
boundary_sub [] a n ha hn h = ground arith
boundary_sub (c ∷ t) a n ha hn h = ground (arith, boundary_sub t (a - len_utf8 c) (n - len_utf8 c))

-- A boundary of a prefix is one of the text.
pub boundary-slice_to :
    (t : Text) (m n : ℕ) → is_char_boundary (slice_to t m) n ≡ true → is_char_boundary t n ≡ true
unfolding is_char_boundary slice_to
boundary-slice_to [] m n h = ground arith
boundary-slice_to (c ∷ t) m n h =
    ground (arith, boundary-slice_to t (m - len_utf8 c) (n - len_utf8 c))

pub byte_len-slice :
    (t : Text) (a b : ℕ)
    → is_char_boundary t a ≡ true
    → is_char_boundary t b ≡ true
    → a ≤ b
    → byte_len (slice t a b) ≡ b - a
unfolding slice
byte_len-slice t a b ha hb h =
    (boundary_split (slice_from t a) (b - a) (boundary_sub t a b ha hb h)).1

-- Every offset into a text in ASCII is a boundary.
pub ascii_boundary :
    (t : Text) (n : ℕ) → is_ascii t ≡ true → n ≤ byte_len t → is_char_boundary t n ≡ true
unfolding is_ascii is_char_boundary len_utf8
ascii_boundary [] n h le = ground arith
ascii_boundary (c ∷ t) n h le = ground (arith, ascii_boundary t (n - 1))

get_elem?_append :
    (xs ys : List ℕ) (q : ℕ)
    → get_elem? (xs ++ ys) q
      ≡ (if ltb q (length xs) then get_elem? xs q else get_elem? ys (q - length xs))
get_elem?_append [] ys q = ground arith
get_elem?_append (x ∷ xs) ys zero = ground arith
get_elem?_append (x ∷ xs) ys (suc q) = ground (arith, get_elem?_append xs ys q)

encode_high : (c q b : ℕ) → 0x80 ≤ c → get_elem? (encode c) q ≡ some b → 0x80 ≤ b
unfolding encode
encode_high c zero b h e = ground arith
encode_high c (suc zero) b h e = ground arith
encode_high c (suc (suc zero)) b h e = ground arith
encode_high c (suc (suc (suc zero))) b h e = ground arith
encode_high c (suc (suc (suc (suc q)))) b h e = ground arith

-- Behind an ASCII byte a character begins, or the text ends.
pub ascii_byte_boundary :
    (t : Text) (q b : ℕ)
    → get_elem? (as_bytes t) q ≡ some b
    → b < 0x80
    → is_char_boundary t (q + 1) ≡ true
unfolding is_char_boundary
ascii_byte_boundary [] q b e h = cc
ascii_byte_boundary (c ∷ t) q b e h = elim (Bool-cases (ltb q (len_utf8 c))) [
  | inl first ↦ ground (
    arith,
    get_elem?_append (encode c) (as_bytes t) q,
    length-encode c,
    encode_high c q b,
    small c,
    boundary_zero t,
  )
  | inr later ↦ ground (
    arith,
    get_elem?_append (encode c) (as_bytes t) q,
    length-encode c,
    len_utf8_pos c,
    ascii_byte_boundary t (q - len_utf8 c) b,
  )
]
  where
    small : (c : ℕ) → c < 0x80 → len_utf8 c ≡ 1
    small c h = unfold len_utf8 in ground arith

-- An ASCII byte is a character of its own.
pub ascii_byte_char :
    (t : Text) (q b : ℕ)
    → get_elem? (as_bytes t) q ≡ some b
    → b < 0x80
    → (is_char_boundary t q ≡ true) × (slice_from t q ≡ b ∷ slice_from t (q + 1))
unfolding is_char_boundary slice_from
ascii_byte_char [] q b e h = cc
ascii_byte_char (c ∷ t) q b e h = elim (Bool-cases (ltb q (len_utf8 c))) [
  | inl first ↦ ground (
    arith,
    get_elem?_append (encode c) (as_bytes t) q,
    length-encode c,
    encode_high c q b,
    encode_low c,
    slice_from-zero t,
  )
  | inr later ↦ ground (
    arith,
    get_elem?_append (encode c) (as_bytes t) q,
    length-encode c,
    len_utf8_pos c,
    ascii_byte_char t (q - len_utf8 c) b,
  )
]
  where
    encode_low : (c : ℕ) → c < 0x80 → (encode c ≡ c ∷ []) × (len_utf8 c ≡ 1)
    encode_low c h = unfold encode len_utf8 in ground arith

pub slice_from-add :
    (t : Text) (a b : ℕ)
    → is_char_boundary t a ≡ true
    → slice_from (slice_from t a) b ≡ slice_from t (a + b)
unfolding is_char_boundary slice_from
slice_from-add [] a b h = refl
slice_from-add (c ∷ t) a b h = ground (arith, slice_from-add t (a - len_utf8 c) b, len_utf8_pos c)

-- Between two boundaries the text is cut in two.
pub slice_split :
    (t : Text) (a b : ℕ)
    → is_char_boundary t a ≡ true
    → is_char_boundary t b ≡ true
    → a ≤ b
    → slice_from t a ≡ slice t a b ++ slice_from t b
unfolding slice
slice_split t a b ha hb h =
    let (split, _) = boundary_split (slice_from t a) (b - a) (boundary_sub t a b ha hb h) in
    let e : a + (b - a) ≡ b = omega arith in
    let rest = slice_from-add t a (b - a) ha in
    split ∙ ap (λ (r : Text). slice_to (slice_from t a) (b - a) ++ r) (rw e at rest)

-- A step over one character.
pub char_step :
    (t : Text) (a c : ℕ) (r : Text)
    → is_char_boundary t a ≡ true
    → slice_from t a ≡ c ∷ r
    → (is_char_boundary t (a + len_utf8 c) ≡ true) × (slice_from t (a + len_utf8 c) ≡ r)
char_step t a c r ha e =
    let (cut, rest) = one c r in
    (
      boundary_add t a (len_utf8 c) ha (rw e cut),
      sym (slice_from-add t a (len_utf8 c) ha) ∙ rw e rest,
    )
  where
    one :
        (c : ℕ) (r : Text)
        → (is_char_boundary (c ∷ r) (len_utf8 c) ≡ true) × (slice_from (c ∷ r) (len_utf8 c) ≡ r)
    one c r =
        unfold is_char_boundary slice_from in
        ground (arith, len_utf8_pos c, boundary_zero r, slice_from-zero r)

pub slice_from_end : (t : Text) (n : ℕ) → byte_len t ≤ n → slice_from t n ≡ []
unfolding slice_from
slice_from_end [] n h = refl
slice_from_end (c ∷ t) n h = ground (arith, len_utf8_pos c, slice_from_end t (n - len_utf8 c))

pub slice_from-ne-nil :
    (t : Text) (n : ℕ)
    → is_char_boundary t n ≡ true
    → n < byte_len t
    → (c : ℕ) × (r : Text) × (slice_from t n ≡ c ∷ r)
unfolding slice_from is_char_boundary
slice_from-ne-nil [] n h lt = absurd (omega arith)
slice_from-ne-nil (c ∷ t) n h lt = elim (Bool-cases (n == 0)) [
  | inl first ↦ (c, t, rw first)
  | inr later ↦
      let (c', r, e) = slice_from-ne-nil t (n - len_utf8 c) (ground arith) (ground arith) in
      (c', r, rw later e)
]
