-- ===== src/Source/Line/Ending.antt =====
-- `LineEnding` of crates/djls-source/src/line.rs.
use django_language_server.Base.{
  ℕ, zero, suc, ◌+◌, Bool, true, false, ◌==◌, ltb, if◌then◌else◌, Option, none, some, [], ◌∷◌,
  length, get_elem?,
}
use django_language_server.Base.Text.{Text, Bytes, as_bytes, strip_suffix as strip_suffix_text}

pub data LineEnding : Type 0 where
  lf crlf cr : LineEnding

-- `LineEnding::as_str`.
abbrev pub as_str : LineEnding → Text
as_str lf = b'\n' ∷ []
as_str crlf = b'\r' ∷ b'\n' ∷ []
as_str cr = b'\r' ∷ []

abbrev pub byte_len : LineEnding → ℕ
byte_len cr = 1
byte_len lf = 1
byte_len crlf = 2

-- `Default`.
abbrev pub default : LineEnding
default = lf

unfoldable pub strip_suffix : Text → Option (Text × LineEnding)
strip_suffix t = elim (strip_suffix_text t (as_str crlf)) [
  | some prefix ↦ some (prefix, crlf)
  | none ↦ elim (strip_suffix_text t (as_str lf)) [
    | some prefix ↦ some (prefix, lf)
    | none ↦ elim (strip_suffix_text t (as_str cr)) [
      | some prefix ↦ some (prefix, cr)
      | none ↦ none
    ]
  ]
]

abbrev pub is_byte : ℕ → Option ℕ → Bool
is_byte b none = false
is_byte b (some c) = c == b

-- The arms of `match_at`, on the byte at `i` and the one behind it.
abbrev pub match_bytes : Option ℕ → Option ℕ → Option LineEnding
match_bytes none after = none
match_bytes (some b) after =
    if b == b'\n'
    then some lf
    else if b == b'\r'
    then if is_byte b'\n' after then some crlf else some cr
    else none

unfoldable pub match_at : Bytes → ℕ → Option LineEnding
match_at bytes i = match_bytes (get_elem? bytes i) (get_elem? bytes (i + 1))

-- The loop of `last_in`, with as much fuel as there are bytes.
unfoldable pub last_loop : ℕ → Bytes → ℕ → Option LineEnding → Option LineEnding
unfolding match_at
last_loop zero bytes index ending = ending
last_loop (suc fuel) bytes index ending = elim (ltb index (length bytes)) [
  | true ↦ elim (match_at bytes index) [
    | some found ↦ last_loop fuel bytes (index + byte_len found) (some found)
    | none ↦ last_loop fuel bytes (index + 1) ending
  ]
  | false ↦ ending
]

unfoldable pub last_in : Text → Option LineEnding
unfolding last_loop
last_in t = let bytes = as_bytes t in last_loop (length bytes) bytes 0 none
