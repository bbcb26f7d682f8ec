-- ===== src/Templates/Lexer.antt =====
-- crates/djls-templates/src/lexer.rs: the state of the lexer, its cursor and its token functions.
-- `memchr` stands for the searches of the crate of that name; `source[a..b]` is a slice at byte
-- offsets. A loop has as much fuel as the source has bytes.
pub mod Cursor
pub mod Search
pub mod Pieces
pub mod Delimiters
pub mod Tags
pub mod Blanks
pub mod Tiling
pub mod Spans
mod Tests
use django_language_server.Base.{
  ℕ, zero, suc, ◌+◌, ◌-◌, Bool, true, false, ◌&&◌, ◌||◌, not, ◌==◌, ltb, leb, if◌then◌else◌, Option,
  none, some, List, [], ◌∷◌, get_elem?, get_or,
}
use django_language_server.Base.Text.{
  Text, Bytes, as_bytes, byte_len, len_utf8, slice, slice_from, is_whitespace,
}
use django_language_server.Source.Position.{
  Span, saturating_from_parts_usize, saturating_from_bounds_usize,
}
use django_language_server.Templates.Tokens.{
  TagDelimiter, Token, from_input, opener, closer, delimiter_length, char_open,
}
use django_language_server.Templates.Memchr.{Memchr}

pub record Lexer : Type 0 where
  pub source : Text
  pub start : ℕ
  pub current : ℕ

-- `Lexer::new`.
abbrev pub new : Text → Lexer
new source = record { source = source; start = 0; current = 0 }

abbrev pub remaining_source : Lexer → Text
remaining_source l = slice_from l.source l.current

abbrev pub consumed_source_from : Lexer → ℕ → Text
consumed_source_from l start = slice l.source start l.current

-- `chars().next().unwrap_or('\0')`.
abbrev pub first_char : Text → ℕ
first_char [] = 0
first_char (c ∷ t) = c

abbrev pub peek : Lexer → ℕ
peek l = first_char (remaining_source l)

abbrev pub is_at_end : Lexer → Bool
is_at_end l = leb (byte_len l.source) l.current

abbrev pub first_width : Text → ℕ
first_width [] = 0
first_width (c ∷ t) = len_utf8 c

unfoldable pub consume : Lexer → Lexer
consume l = record l { current = l.current + first_width (remaining_source l) }

unfoldable pub consume_n : Lexer → ℕ → Lexer
consume_n l zero = l
consume_n l (suc count) = consume_n (consume l) count

abbrev pub is_some : Option TagDelimiter → Bool
is_some none = false
is_some (some d) = true

-- `Ok` of the content up to the delimiter, or `Err` of the content up to a stop character.
pub data Consumed : Type 0 where
  ok : Text → Lexer → Consumed
  err : Text → Lexer → Consumed

-- The closures that `tokenize` passes to `lex_django_tag`.
abbrev pub token_fn : TagDelimiter → Text → Span → Token
token_fn TagDelimiter.block = Token.block
token_fn TagDelimiter.variable = Token.variable
token_fn TagDelimiter.comment = Token.comment

abbrev pub error_span : ℕ → ℕ → ℕ → Span
error_span len content_start current =
    if len == 0
    then saturating_from_bounds_usize content_start current
    else saturating_from_parts_usize content_start len

-- The arms on the result of `consume_until_delimiter`.
abbrev pub finish_tag : TagDelimiter → ℕ → Consumed → Token × Lexer
finish_tag delimiter content_start (ok text l) = (
  token_fn delimiter text (saturating_from_parts_usize content_start (byte_len text)),
  consume_n l (byte_len (closer delimiter)),
)
finish_tag delimiter content_start (err text l) =
    (Token.error text (error_span (byte_len text) content_start l.current) delimiter, l)

module _ (memchr : Memchr) where
  -- The loop of `consume_until_stop_char`.
  unfoldable pub stop_loop : ℕ → Text → ℕ → ℕ → ℕ
  stop_loop zero source offset max = offset
  stop_loop (suc fuel) source offset max = elim (ltb offset max) [
    | false ↦ offset
    | true ↦
        let remaining = slice_from source offset in
        elim (memchr.memchr3 b'{' b'\n' b'\r' (as_bytes remaining)) [
          | none ↦ max
          | some pos ↦
              let byte = get_or (as_bytes remaining) pos 0 in
              let is_newline = byte == b'\n' || byte == b'\r' in
              let is_django_delimiter =
                is_some (from_input (as_bytes (slice_from remaining pos))) in
              elim (is_newline || is_django_delimiter) [
                | true ↦ offset + pos
                | false ↦ stop_loop fuel source (offset + pos + 1) max
              ]
        ]
  ]

  unfoldable pub consume_until_stop_char : Lexer → ℕ
  consume_until_stop_char l =
      let max = byte_len l.source - l.current in stop_loop max (remaining_source l) 0 max

  unfoldable pub consume_until_delimiter : Lexer → Text → Consumed
  consume_until_delimiter l delimiter =
      elim (memchr.find (as_bytes (remaining_source l)) (as_bytes delimiter)) [
        | some pos ↦
            let l' = record l { current = l.current + pos } in
            ok (consumed_source_from l' l.current) l'
        | none ↦
            let l' = record l { current = l.current + consume_until_stop_char l } in
            err (consumed_source_from l' l.current) l'
      ]

  unfoldable pub lex_django_tag : Lexer → TagDelimiter → Token × Lexer
  lex_django_tag l delimiter =
      finish_tag delimiter (l.start + delimiter_length)
        (consume_until_delimiter (consume_n l delimiter_length) (closer delimiter))

  unfoldable pub lex_text : Lexer → Token × Lexer
  lex_text l =
      let l' = record l { current = l.current + consume_until_stop_char l } in
      (
        Token.text (consumed_source_from l' l.current)
            (saturating_from_bounds_usize l.start l'.current),
        l',
      )

-- The loop of `lex_whitespace` over what follows the first character.
unfoldable pub whitespace_loop : ℕ → Lexer → Lexer
whitespace_loop zero l = l
whitespace_loop (suc fuel) l = elim (is_at_end l) [
  | true ↦ l
  | false ↦ elim (get_elem? (as_bytes (remaining_source l)) 0) [
    | none ↦ l
    | some b ↦ elim (b == b'\n' || b == b'\r') [
      | true ↦ l
      | false ↦ elim (b == b' ' || b == b'\t') [
        | true ↦ whitespace_loop fuel (record l { current = l.current + 1 })
        | false ↦ elim (is_whitespace (peek l)) [
          | false ↦ l
          | true ↦ whitespace_loop fuel (consume l)
        ]
      ]
    ]
  ]
]

abbrev pub newline_token : Lexer → Token × Lexer
newline_token l = (Token.newline (saturating_from_bounds_usize l.start l.current), l)

abbrev pub whitespace_token : Lexer → Token × Lexer
whitespace_token l = (Token.whitespace (saturating_from_bounds_usize l.start l.current), l)

unfoldable pub lex_whitespace : Lexer → ℕ → Token × Lexer
lex_whitespace l c =
    let l1 = consume l in
    if c == b'\n' || c == b'\r'
    then newline_token (if c == b'\r' && peek l1 == b'\n' then consume l1 else l1)
    else whitespace_token (whitespace_loop (byte_len l.source) l1)

module _ (memchr : Memchr) where
  abbrev pub lex_delimited : Lexer → Option TagDelimiter → Token × Lexer
  lex_delimited l (some delimiter) = lex_django_tag memchr l delimiter
  lex_delimited l none = lex_text memchr l

  -- One round of the loop of `tokenize`.
  unfoldable pub next_token : Lexer → Token × Lexer
  next_token l0 =
      let l = record l0 { start = l0.current } in
      if peek l == char_open
      then lex_delimited l (from_input (as_bytes (remaining_source l)))
      else if is_whitespace (peek l)
      then lex_whitespace l (peek l)
      else lex_text memchr l

  unfoldable pub tokenize_loop : ℕ → Lexer → List Token
  tokenize_loop zero l = Token.eof ∷ []
  tokenize_loop (suc fuel) l = elim (is_at_end l) [
    | true ↦ Token.eof ∷ []
    | false ↦ let (token, l') = next_token l in token ∷ tokenize_loop fuel l'
  ]

  -- `Lexer::new(source).tokenize()`.
  unfoldable pub tokenize : Text → List Token
  tokenize source = tokenize_loop (byte_len source) (new source)
