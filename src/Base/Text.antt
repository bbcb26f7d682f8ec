-- ===== src/Base/Text.antt =====
-- Rust's `str`: a list of Unicode scalar values. Byte offsets count the UTF-8 width of each; a slice
-- is taken at a byte offset, which must be a character boundary (Rust panics elsewhere).
pub mod Slices
pub mod Boundaries
use Prim.Native.Nat.{ℕ, ◌+◌, ◌-◌, ◌*◌, ◌/◌, ◌%◌}
use Prim.Native.Char.{code}
use Prim.Native.String.{String}
use mathlib.Core.Bool.{Bool, true, false, ◌&&◌, ◌||◌}
use mathlib.Core.List.{List, [], ◌∷◌, ◌++◌, reverse}
use mathlib.Core.Option.{Option, none, some}
use django_language_server.Base.Tests.{ltb, leb, ◌==◌, if◌then◌else◌}

abbrev pub Text : Type 0
Text = List ℕ

abbrev pub Bytes : Type 0
Bytes = List ℕ

-- The scalar values of a literal.
abbrev pub text : String → Text
text String.[] = []
text (String.◌∷◌ c s) = code c ∷ text s

-- `char::len_utf8` and `char::len_utf16`.
unfoldable pub len_utf8 : ℕ → ℕ
len_utf8 c = if ltb c 0x80 then 1 else if ltb c 0x800 then 2 else if ltb c 0x10000 then 3 else 4

unfoldable pub len_utf16 : ℕ → ℕ
len_utf16 c = if ltb c 0x10000 then 1 else 2

-- `str::len`.
abbrev pub byte_len : Text → ℕ
byte_len [] = 0
byte_len (c ∷ t) = len_utf8 c + byte_len t

-- The UTF-8 bytes of a character, and `str::as_bytes`.
unfoldable pub encode : ℕ → Bytes
encode c =
    if ltb c 0x80
    then c ∷ []
    else if ltb c 0x800
    then (0xC0 + c / 64) ∷ (0x80 + c % 64) ∷ []
    else if ltb c 0x10000
    then (0xE0 + c / 4096) ∷ (0x80 + c / 64 % 64) ∷ (0x80 + c % 64) ∷ []
    else (0xF0 + c / 262144) ∷ (0x80 + c / 4096 % 64) ∷ (0x80 + c / 64 % 64) ∷ (0x80 + c % 64) ∷ []

abbrev pub as_bytes : Text → Bytes
as_bytes [] = []
as_bytes (c ∷ t) = encode c ++ as_bytes t

-- `str::is_char_boundary`.
unfoldable pub is_char_boundary : Text → ℕ → Bool
is_char_boundary [] n = n == 0
is_char_boundary (c ∷ t) n = n == 0 || (leb (len_utf8 c) n && is_char_boundary t (n - len_utf8 c))

-- `&t[n..]`, `&t[..n]` and `&t[a..b]`.
unfoldable pub slice_from : Text → ℕ → Text
slice_from [] n = []
slice_from (c ∷ t) n = if n == 0 then c ∷ t else slice_from t (n - len_utf8 c)

unfoldable pub slice_to : Text → ℕ → Text
slice_to [] n = []
slice_to (c ∷ t) n = if n == 0 then [] else c ∷ slice_to t (n - len_utf8 c)

unfoldable pub slice : Text → ℕ → ℕ → Text
unfolding slice_from slice_to
slice t a b = slice_to (slice_from t a) (b - a)

-- `char::is_whitespace`: the Unicode property White_Space.
unfoldable pub is_whitespace : ℕ → Bool
is_whitespace c =
    (leb 0x09 c && leb c 0x0D)
    || c == 0x20
    || c == 0x85
    || c == 0xA0
    || c == 0x1680
    || (leb 0x2000 c && leb c 0x200A)
    || c == 0x2028
    || c == 0x2029
    || c == 0x202F
    || c == 0x205F
    || c == 0x3000

-- `str::is_ascii`.
unfoldable pub is_ascii : Text → Bool
is_ascii [] = true
is_ascii (c ∷ t) = ltb c 0x80 && is_ascii t

-- `str::trim_start`, `str::trim_end` and `str::trim`.
unfoldable pub trim_start : Text → Text
unfolding is_whitespace
trim_start [] = []
trim_start (c ∷ t) = if is_whitespace c then trim_start t else c ∷ t

unfoldable pub trim_end : Text → Text
unfolding trim_start
trim_end t = reverse (trim_start (reverse t))

unfoldable pub trim : Text → Text
unfolding trim_end
trim t = trim_end (trim_start t)

-- `==` on `str`.
unfoldable pub text_eq : Text → Text → Bool
text_eq [] [] = true
text_eq (x ∷ s) (y ∷ t) = x == y && text_eq s t
text_eq _ _ = false

-- `str::starts_with` and `str::ends_with`.
unfoldable pub starts_with : Text → Text → Bool
starts_with t [] = true
starts_with [] (p ∷ ps) = false
starts_with (c ∷ t) (p ∷ ps) = c == p && starts_with t ps

-- `str::strip_prefix` and `str::strip_suffix`.
unfoldable pub strip_prefix : Text → Text → Option Text
strip_prefix t [] = some t
strip_prefix [] (p ∷ ps) = none
strip_prefix (c ∷ t) (p ∷ ps) = if c == p then strip_prefix t ps else none

unfoldable pub strip_suffix : Text → Text → Option Text
unfolding strip_prefix
strip_suffix t s = elim (strip_prefix (reverse t) (reverse s)) [
  | none ↦ none
  | some r ↦ some (reverse r)
]

-- `str::floor_char_boundary`.
unfoldable pub floor_char_boundary : Text → ℕ → ℕ
floor_char_boundary [] n = 0
floor_char_boundary (c ∷ t) n =
    if leb (len_utf8 c) n then len_utf8 c + floor_char_boundary t (n - len_utf8 c) else 0
