-- ===== src/Templates/Lexer/Delimiters.antt =====
-- The delimiters of crates/djls-templates/src/lexer.rs as bytes.
use django_language_server.Base.{
  ℕ, zero, suc, ◌+◌, ◌<◌, true, ◌≡◌, ◌≢◌, refl, sym, ap, ◌∙◌, some, [], ◌∷◌, ◌++◌, get_elem?,
  get_or, arith,
}
use django_language_server.Base.Text.{
  Text, Bytes, as_bytes, byte_len, is_char_boundary, slice_from, len_utf8, encode,
}
use django_language_server.Base.Text.Slices.{slice_from-zero}
use django_language_server.Base.Text.Boundaries.{ascii_byte_char}
use django_language_server.Templates.Tokens.{TagDelimiter, from_input, opener, closer}
use django_language_server.Templates.Memchr.{OccursAt}
use native.Mathlib.Nat.{add-zero}

get_elem?-get_or : (h : Bytes) (p x : ℕ) → x ≢ 0 → get_or h p 0 ≡ x → get_elem? h p ≡ some x
get_elem?-get_or [] p x nz e = absurd (nz (sym e))
get_elem?-get_or (y ∷ h) zero x nz e = ap some e
get_elem?-get_or (y ∷ h) (suc p) x nz e = get_elem?-get_or h p x nz e

-- Two ASCII bytes behind one another are two characters.
ascii_pair :
    (t : Text) (q x y : ℕ)
    → get_elem? (as_bytes t) q ≡ some x
    → get_elem? (as_bytes t) (q + 1) ≡ some y
    → x < 0x80
    → y < 0x80
    → (is_char_boundary t q ≡ true) × (slice_from t q ≡ x ∷ y ∷ slice_from t (q + 1 + 1))
ascii_pair t q x y ex ey hx hy =
    let (cut, first) = ascii_byte_char t q x ex hx in
    let (_, second) = ascii_byte_char t (q + 1) y ey hy in
    (cut, first ∙ ap (λ (r : Text). x ∷ r) second)

pub second_byte : TagDelimiter → ℕ
second_byte TagDelimiter.block = b'%'
second_byte TagDelimiter.variable = b'{'
second_byte TagDelimiter.comment = b'#'

from_input-bytes :
    (h : Bytes) (d : TagDelimiter)
    → from_input h ≡ some d
    → (get_or h 0 0 ≡ b'{') × (get_or h 1 0 ≡ second_byte d)
unfolding from_input second_byte
from_input-bytes h TagDelimiter.block e = ground arith
from_input-bytes h TagDelimiter.variable e = ground arith
from_input-bytes h TagDelimiter.comment e = ground arith

-- A text whose bytes begin with an opener begins with that opener.
pub from_input-opener :
    (t : Text) (d : TagDelimiter)
    → from_input (as_bytes t) ≡ some d
    → t ≡ opener d ++ slice_from t (0 + 1 + 1)
from_input-opener t d e =
    let (first, second) = from_input-bytes (as_bytes t) d e in
    let at_first = get_elem?-get_or (as_bytes t) 0 b'{' (omega arith) first in
    let at_second = get_elem?-get_or (as_bytes t) (0 + 1) (second_byte d) (known d).0 second in
    let (_, split) =
      ascii_pair t 0 b'{' (second_byte d) at_first at_second (omega arith) (known d).1.0 in
    sym (slice_from-zero t) ∙ split ∙ (known d).1.1 (slice_from t (0 + 1 + 1))
  where
    known :
        (d : TagDelimiter)
        → (second_byte d ≢ 0)
          × ((second_byte d < 0x80) × ((r : Text) → b'{' ∷ second_byte d ∷ r ≡ opener d ++ r))
    known TagDelimiter.block = unfold second_byte in (omega arith, (omega arith, λ r. refl))
    known TagDelimiter.variable = unfold second_byte in (omega arith, (omega arith, λ r. refl))
    known TagDelimiter.comment = unfold second_byte in (omega arith, (omega arith, λ r. refl))

-- Where the closer stands, the text splits there.
pub find-closer :
    (t : Text) (d : TagDelimiter) (pos : ℕ)
    → OccursAt (as_bytes t) (as_bytes (closer d)) pos
    → (is_char_boundary t pos ≡ true) × (slice_from t pos ≡ closer d ++ slice_from t (pos + 1 + 1))
unfolding encode
find-closer t TagDelimiter.block pos o =
    ascii_pair t pos b'%' b'}' (rw add-zero at (o 0 (omega arith))) (o 1 (omega arith))
      (omega arith) (omega arith)
find-closer t TagDelimiter.variable pos o =
    ascii_pair t pos b'}' b'}' (rw add-zero at (o 0 (omega arith))) (o 1 (omega arith))
      (omega arith) (omega arith)
find-closer t TagDelimiter.comment pos o =
    ascii_pair t pos b'#' b'}' (rw add-zero at (o 0 (omega arith))) (o 1 (omega arith))
      (omega arith) (omega arith)

pub closer_first : TagDelimiter → ℕ
closer_first TagDelimiter.block = b'%'
closer_first TagDelimiter.variable = b'}'
closer_first TagDelimiter.comment = b'#'

-- The delimiters are pairs of ASCII characters.
pub opener_pair :
    (d : TagDelimiter) (r : Text)
    → (second_byte d < 0x80) × (opener d ++ r ≡ b'{' ∷ second_byte d ∷ r)
unfolding second_byte
opener_pair TagDelimiter.block r = (omega arith, refl)
opener_pair TagDelimiter.variable r = (omega arith, refl)
opener_pair TagDelimiter.comment r = (omega arith, refl)

pub closer_pair :
    (d : TagDelimiter) (r : Text)
    → (closer_first d < 0x80) × (closer d ++ r ≡ closer_first d ∷ b'}' ∷ r)
unfolding closer_first
closer_pair TagDelimiter.block r = (omega arith, refl)
closer_pair TagDelimiter.variable r = (omega arith, refl)
closer_pair TagDelimiter.comment r = (omega arith, refl)

pub byte_len-delimiters : (d : TagDelimiter) → (byte_len (opener d) ≡ 2) × (byte_len (closer d) ≡ 2)
unfolding len_utf8
byte_len-delimiters TagDelimiter.block = (refl, refl)
byte_len-delimiters TagDelimiter.variable = (refl, refl)
byte_len-delimiters TagDelimiter.comment = (refl, refl)
