-- ===== src/Templates/Lexer/Pieces.antt =====
-- The piece of the source that a token of crates/djls-templates/src/lexer.rs stands for.
use django_language_server.Base.{
  ℕ, ◌+◌, ◌-◌, ◌≤◌, ◌<◌, true, ◌≡◌, ◌≢◌, refl, sym, ap, ◌∙◌, ◌⊎◌, [], ◌∷◌, ◌++◌, arith, All,
  u32_max,
}
use django_language_server.Base.Text.{Text, byte_len, is_char_boundary, slice, is_whitespace}
use django_language_server.Base.Text.Boundaries.{
  boundary-le, boundary_add, boundary_zero, byte_len-slice,
}
use django_language_server.Source.Position.{Span, span_of, saturating_from_bounds_usize}
use django_language_server.Source.Position.Bounds.{from_bounds_exact}
use django_language_server.Templates.Tokens.{TagDelimiter, Token, opener, closer, delimiter_length}
use django_language_server.Templates.Memchr.{Memchr}
use django_language_server.Templates.Lexer.{
  Lexer, remaining_source, consume_until_stop_char, lex_text,
}
use django_language_server.Templates.Lexer.Cursor.{AtChar, Moves, byte_len-slice_from}
use django_language_server.Templates.Lexer.Search.{GoesOn, stop_loop_boundary, stop_loop_progress}

-- A closed tag: its content between the delimiters, and the content's span.
abbrev pub IsTagged : TagDelimiter → ℕ → Text → Span → Text → Type 0
IsTagged d o c s piece =
    (piece ≡ opener d ++ (c ++ closer d)) × (s ≡ span_of (o + delimiter_length) (byte_len c))

abbrev pub IsBlank : ℕ → Type 0
IsBlank c = (is_whitespace c ≡ true) × (c ≢ b'\n') × (c ≢ b'\r')

abbrev pub IsNewline : Text → Type 0
IsNewline piece = (piece ≡ b'\n' ∷ []) ⊎ (piece ≡ b'\r' ∷ []) ⊎ (piece ≡ b'\r' ∷ b'\n' ∷ [])

-- The token stands for the piece of the source at offset `o`.
abbrev pub Spells : ℕ → Token → Text → Type 0
Spells o (Token.block c s) piece = IsTagged TagDelimiter.block o c s piece
Spells o (Token.variable c s) piece = IsTagged TagDelimiter.variable o c s piece
Spells o (Token.comment c s) piece = IsTagged TagDelimiter.comment o c s piece
Spells o (Token.error c s d) piece =
    (piece ≡ opener d ++ c) × (s ≡ span_of (o + delimiter_length) (byte_len c))
Spells o (Token.text c s) piece = (piece ≡ c) × (s ≡ span_of o (byte_len c))
Spells o (Token.newline s) piece = IsNewline piece × (s ≡ span_of o (byte_len piece))
Spells o (Token.whitespace s) piece = All IsBlank piece × (s ≡ span_of o (byte_len piece))
Spells o Token.eof piece = ⊥

-- A token function consumed a piece that its token spells.
pub record Consumes (l : Lexer) (token : Token) (l' : Lexer) : Type 0 where
  pub moves : Moves l l'
  pub progress : l.current < l'.current
  pub spells : Spells l.current token (slice l.source l.current l'.current)

-- The hypotheses under which the token functions run.
pub record Ready (l : Lexer) : Type 0 where
  pub at_char : AtChar l
  pub started : l.start ≡ l.current
  pub small : byte_len l.source ≤ u32_max
  pub more : l.current < byte_len l.source

module _ (memchr : Memchr) where
  pub stop_char_boundary :
      (l : Lexer)
      → AtChar l
      → is_char_boundary l.source (l.current + consume_until_stop_char memchr l) ≡ true
  unfolding consume_until_stop_char
  stop_char_boundary l cut =
      let len : byte_len l.source - l.current ≡ byte_len (remaining_source l) =
        omega (arith, byte_len-slice_from l.source l.current cut) in
      rw len (
        boundary_add l.source l.current _ cut
          (stop_loop_boundary memchr (byte_len (remaining_source l)) (remaining_source l) 0
            (boundary_zero (remaining_source l))).0)

  stop_char_progress :
      (l : Lexer) → Ready l → GoesOn (remaining_source l) → 0 < consume_until_stop_char memchr l
  unfolding consume_until_stop_char
  stop_char_progress l r goes =
      let whole = byte_len-slice_from l.source l.current r.at_char in
      let len : byte_len l.source - l.current ≡ byte_len (remaining_source l) =
        omega (arith, whole) in
      rw len (stop_loop_progress memchr (remaining_source l) (omega (arith, whole, r.more)) goes)

  pub lex_text-Consumes :
      (l : Lexer)
      → Ready l
      → GoesOn (remaining_source l)
      → Consumes l (lex_text memchr l).0 (lex_text memchr l).1
  unfolding lex_text
  lex_text-Consumes l r goes =
      let n = consume_until_stop_char memchr l in
      let cut = stop_char_boundary l r.at_char in
      let some_text = stop_char_progress l r goes in
      let within = boundary-le l.source (l.current + n) cut in
      let len = byte_len-slice l.source l.current (l.current + n) r.at_char cut (omega arith) in
      record {
        moves = record {
          same_source = refl;
          same_start = refl;
          forward = omega arith;
          lands = cut;
        };
        progress = omega (arith, some_text);
        spells = (
          refl,
          ap (λ (s : ℕ). saturating_from_bounds_usize s (l.current + n)) r.started
              ∙ from_bounds_exact l.current (l.current + n) (omega (arith, r.small, r.more))
                  (omega (arith, r.small, within))
              ∙ ap (span_of l.current) (sym len),
        );
      }
