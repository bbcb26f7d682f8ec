-- ===== src/Templates/Lexer/Tiling.antt =====
-- The tokens of crates/djls-templates/src/lexer.rs, put together, are the source.
use mathlib.Core.Path.{subst, subst₂}
use django_language_server.Base.{
  ℕ, zero, suc, ◌+◌, ◌≤◌, ◌<◌, true, false, ◌==◌, ◌≡◌, ◌≢◌, refl, ap, ◌∙◌, none, some, List, [],
  ◌∷◌, ◌++◌, arith, Bool-cases, Option-cases, inl, inr, u32_max,
}
use django_language_server.Base.Text.{
  Text, as_bytes, byte_len, is_char_boundary, slice, slice_from, is_whitespace,
}
use django_language_server.Base.Text.Slices.{slice_from-zero}
use django_language_server.Base.Text.Boundaries.{
  boundary_zero, slice_split, slice_from_end, slice_from-ne-nil, byte_len-slice,
}
use django_language_server.Templates.Tokens.{TagDelimiter, Token, from_input, opener, char_open}
use django_language_server.Templates.Memchr.{Memchr}
use django_language_server.Templates.Lexer.{
  Lexer, new, remaining_source, is_at_end, peek, first_char, is_some, next_token, tokenize_loop,
  tokenize,
}
use django_language_server.Templates.Lexer.Cursor.{AtChar}
use django_language_server.Templates.Lexer.Search.{GoesOn}
use django_language_server.Templates.Lexer.Pieces.{Spells, Consumes, Ready, lex_text-Consumes}
use django_language_server.Templates.Lexer.Tags.{lex_django_tag-Consumes}
use django_language_server.Templates.Lexer.Delimiters.{from_input-opener}
use django_language_server.Templates.Lexer.Blanks.{lex_whitespace-Consumes}

-- The tokens from offset `o` on cut the text into the pieces that they spell, with nothing left over.
pub data Tiles : ℕ → List Token → Text → Type 0 where
  end : {o : ℕ} {t : Text} → t ≡ [] → Tiles o (Token.eof ∷ []) t
  tile :
      {o : ℕ} {t : Text} {token : Token} {tokens : List Token} (piece rest : Text)
      → t ≡ piece ++ rest
      → 0 < byte_len piece
      → Spells o token piece
      → Tiles (o + byte_len piece) tokens rest
      → Tiles o (token ∷ tokens) t

first-opener :
    (t : Text) (d : TagDelimiter) → from_input (as_bytes t) ≡ some d → first_char t ≡ b'{'
first-opener t d e = ap first_char (from_input-opener t d e) ∙ known d (slice_from t (0 + 1 + 1))
  where
    known : (d : TagDelimiter) (r : Text) → first_char (opener d ++ r) ≡ b'{'
    known TagDelimiter.block r = refl
    known TagDelimiter.variable r = refl
    known TagDelimiter.comment r = refl

GoesOn-brace : (t : Text) → first_char t ≡ b'{' → from_input (as_bytes t) ≡ none → GoesOn t
GoesOn-brace t brace no_tag =
    (λ h. absurd (omega arith), λ h. absurd (omega arith), ap is_some no_tag)

GoesOn-other : (t : Text) → first_char t ≢ b'{' → is_whitespace (first_char t) ≡ false → GoesOn t
unfolding is_whitespace
GoesOn-other t brace dark = (
  ground arith,
  ground arith,
  elim (Option-cases (from_input (as_bytes t))) [
    | inl e ↦ ap is_some e
    | inr (d, e) ↦ absurd (brace (first-opener t d e))
  ],
)

module _ (memchr : Memchr) where
  next_token-Consumes :
      (l0 : Lexer)
      → AtChar l0
      → byte_len l0.source ≤ u32_max
      → l0.current < byte_len l0.source
      → Consumes
          (record l0 { start = l0.current })
          (next_token memchr l0).0
          (next_token memchr l0).1
  unfolding next_token
  next_token-Consumes l0 cut small more =
      let l = record l0 { start = l0.current } in
      let r : Ready l = record { at_char = cut; started = refl; small = small; more = more } in
      let (c, rest, e) = slice_from-ne-nil l.source l.current cut more in
      let first : peek l ≡ c = ap first_char e in
      elim (Bool-cases (peek l == char_open)) [
        | inl brace ↦ elim (Option-cases (from_input (as_bytes (remaining_source l)))) [
          | inl no_tag ↦
              rw (brace, no_tag, next_token)
                (lex_text-Consumes memchr l r
                  (GoesOn-brace (remaining_source l) (ground arith) no_tag))
          | inr (d, tag) ↦ rw (brace, tag, next_token) (lex_django_tag-Consumes memchr l d r tag)
        ]
        | inr other ↦ elim (Bool-cases (is_whitespace (peek l))) [
          | inl white ↦
              rw (other, white, next_token, first)
                (lex_whitespace-Consumes l r c rest e (rw first at white))
          | inr dark ↦
              rw (other, dark, next_token)
                (lex_text-Consumes memchr l r
                  (GoesOn-other (remaining_source l) (ground arith) dark))
        ]
      ]

  tokenize_loop-Tiles :
      (fuel : ℕ) (l : Lexer)
      → AtChar l
      → byte_len l.source ≤ u32_max
      → byte_len l.source ≤ l.current + fuel
      → Tiles l.current (tokenize_loop memchr fuel l) (remaining_source l)
  unfolding tokenize_loop
  tokenize_loop-Tiles zero l cut small fits = end (slice_from_end l.source l.current (omega arith))
  tokenize_loop-Tiles (suc fuel) l cut small fits = elim (Bool-cases (is_at_end l)) [
    | inl done ↦ rw (done, tokenize_loop) (end (slice_from_end l.source l.current (ground arith)))
    | inr more ↦
        let made = next_token memchr l in
        let c = next_token-Consumes l cut small (ground arith) in
        let m = c.moves in
        let source = m.same_source in
        let width = ap (λ (t : Text). byte_len t) source in
        let lands : is_char_boundary l.source made.1.current ≡ true =
          subst (λ (t : Text). is_char_boundary t made.1.current ≡ true) source m.lands in
        let piece = slice l.source l.current made.1.current in
        let len = byte_len-slice l.source l.current made.1.current cut lands m.forward in
        let later =
          tokenize_loop-Tiles fuel made.1 m.lands (omega (arith, small, width))
            (omega (arith, fits, width, c.progress)) in
        let next : made.1.current ≡ l.current + byte_len piece = omega (arith, len, c.progress) in
        rw (more, tokenize_loop)
          (tile piece (slice_from l.source made.1.current)
            (slice_split l.source l.current made.1.current cut lands m.forward)
            (omega (arith, len, c.progress)) c.spells
            (subst₂ (λ (o : ℕ) (t : Text). Tiles o (tokenize_loop memchr fuel made.1) t) next
              (ap (λ (t : Text). slice_from t made.1.current) source) later))
  ]

  -- Lexing a source shorter than 4 GiB is lossless and total: the tokens end with the end-of-file
  -- token, and the pieces that they spell, none of them empty, are the source, each token with the
  -- span of its piece.
  pub tokenize-Tiles :
      (source : Text) → byte_len source ≤ u32_max → Tiles 0 (tokenize memchr source) source
  unfolding tokenize
  tokenize-Tiles source small = rw slice_from-zero at (
      tokenize_loop-Tiles (byte_len source) (new source) (boundary_zero source) small (omega arith))
