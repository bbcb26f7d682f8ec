-- ===== src/Base/Text/Slices.antt =====
-- Slices at character boundaries: a text that is split in two is cut where the first part ends.
use Prim.Native.Nat.{ℕ, ◌+◌, ◌-◌, ◌<◌}
use mathlib.Core.Path.{◌≡◌, refl}
use mathlib.Core.Bool.{true}
use mathlib.Core.List.{[], ◌∷◌, ◌++◌}
use mathlib.Core.Logic.{◌↔◌}
use native.Mathlib.Omega.{arith}
use django_language_server.Base.Lists.{length, length-append}
use django_language_server.Base.Text.{
  Text, len_utf8, byte_len, encode, as_bytes, is_char_boundary, slice, slice_from, slice_to,
  text_eq,
}

pub len_utf8_pos : (c : ℕ) → 0 < len_utf8 c
unfolding len_utf8
len_utf8_pos c = ground arith

pub byte_len-append : (s t : Text) → byte_len (s ++ t) ≡ byte_len s + byte_len t
byte_len-append [] t = omega arith
byte_len-append (c ∷ s) t = omega (arith, byte_len-append s t)

pub length-encode : (c : ℕ) → length (encode c) ≡ len_utf8 c
unfolding encode len_utf8
length-encode c = ground arith

pub length-as_bytes : (t : Text) → length (as_bytes t) ≡ byte_len t
length-as_bytes [] = refl
length-as_bytes (c ∷ t) =
    omega (arith, length-append (encode c) (as_bytes t), length-encode c, length-as_bytes t)

pub slice_from-zero : (t : Text) → slice_from t 0 ≡ t
unfolding slice_from
slice_from-zero [] = refl
slice_from-zero (c ∷ t) = refl

pub slice_from-append : (s t : Text) → slice_from (s ++ t) (byte_len s) ≡ t
unfolding slice_from
slice_from-append [] t = slice_from-zero t
slice_from-append (c ∷ s) t = ground (arith, len_utf8_pos c, slice_from-append s t)

pub slice_to-zero : (t : Text) → slice_to t 0 ≡ []
unfolding slice_to
slice_to-zero [] = refl
slice_to-zero (c ∷ t) = refl

pub slice_to-append : (s t : Text) → slice_to (s ++ t) (byte_len s) ≡ s
unfolding slice_to
slice_to-append [] t = slice_to-zero t
slice_to-append (c ∷ s) t = ground (arith, len_utf8_pos c, slice_to-append s t)

pub slice_middle : (s t u : Text) → slice (s ++ (t ++ u)) (byte_len s) (byte_len s + byte_len t) ≡ t
unfolding slice
slice_middle s t u =
    let len : byte_len s + byte_len t - byte_len s ≡ byte_len t = omega arith in
    rw (slice_from-append s (t ++ u), len) (slice_to-append t u)

-- A boundary is the end of a prefix, and the slices at it are that prefix and what follows it.
pub boundary_split :
    (t : Text) (n : ℕ)
    → is_char_boundary t n ≡ true
    → (t ≡ slice_to t n ++ slice_from t n) × (byte_len (slice_to t n) ≡ n)
unfolding is_char_boundary slice_to slice_from
boundary_split [] n h = ground arith
boundary_split (c ∷ t) n h = ground (arith, boundary_split t (n - len_utf8 c))

pub boundary-append : (s t : Text) → is_char_boundary (s ++ t) (byte_len s) ≡ true
unfolding is_char_boundary
boundary-append [] [] = refl
boundary-append [] (c ∷ t) = refl
boundary-append (c ∷ s) t = ground (arith, len_utf8_pos c, boundary-append s t)

pub text_eq_iff : (s t : Text) → (text_eq s t ≡ true) ↔ (s ≡ t)
unfolding text_eq
text_eq_iff (x ∷ s) (y ∷ t) = ground (arith, text_eq_iff s t)
text_eq_iff _ _ = ground arith
