-- ===== src/Templates/Lexer/Spans.antt =====
-- The full spans of the tokens of crates/djls-templates/src/lexer.rs (`Token::full_span` of
-- tokens.rs).
use django_language_server.Base.{
  ℕ, ◌+◌, ◌≤◌, ◌≡◌, refl, sym, ap, ◌∙◌, none, some, List, [], ◌∷◌, ◌++◌, arith, u32_max,
}
use django_language_server.Base.Text.{Text, byte_len}
use django_language_server.Base.Text.Slices.{byte_len-append}
use django_language_server.Source.Position.{Span, span_of, span_end, expand}
use django_language_server.Templates.Tokens.{TagDelimiter, Token, full_span, opener, closer}
use django_language_server.Templates.Memchr.{Memchr}
use django_language_server.Templates.Lexer.{tokenize}
use django_language_server.Templates.Lexer.Pieces.{Spells, IsTagged}
use django_language_server.Templates.Lexer.Delimiters.{byte_len-delimiters}
use django_language_server.Templates.Lexer.Tiling.{Tiles, end, tile, tokenize-Tiles}

-- Each token starts where the one before it ends, and only the last one, at `n`, has no span.
abbrev pub AreAdjacent : ℕ → List Token → ℕ → Type 0
AreAdjacent o [] n = ⊥
AreAdjacent o (token ∷ tokens) n = elim (full_span token) [
  | none ↦ (tokens ≡ []) × (o ≡ n)
  | some s ↦ (s.start ≡ o) × AreAdjacent (span_end s) tokens n
]

tagged_length :
    (d : TagDelimiter) (c : Text) → byte_len (opener d ++ (c ++ closer d)) ≡ byte_len c + 4
tagged_length d c = omega (
  arith,
  byte_len-append (opener d) (c ++ closer d),
  byte_len-append c (closer d),
  (byte_len-delimiters d).0,
  (byte_len-delimiters d).1,
)

IsTagged-expand :
    (d : TagDelimiter) (o : ℕ) (c : Text) (s : Span) (piece : Text)
    → IsTagged d o c s piece
    → o + byte_len piece ≤ u32_max
    → expand s 2 2 ≡ span_of o (byte_len piece)
unfolding expand
IsTagged-expand d o c s piece (spelled, at) small =
    let len = ap (λ (t : Text). byte_len t) spelled ∙ tagged_length d c in
    rw at (ground (arith, len))

-- The full span of a token is that of its piece.
Spells-full_span :
    (token : Token) (o : ℕ) (piece : Text)
    → Spells o token piece
    → o + byte_len piece ≤ u32_max
    → full_span token ≡ some (span_of o (byte_len piece))
unfolding full_span
Spells-full_span (Token.block c s) o piece h small =
    ap some (IsTagged-expand TagDelimiter.block o c s piece h small)
Spells-full_span (Token.variable c s) o piece h small =
    ap some (IsTagged-expand TagDelimiter.variable o c s piece h small)
Spells-full_span (Token.comment c s) o piece h small =
    ap some (IsTagged-expand TagDelimiter.comment o c s piece h small)
Spells-full_span (Token.error c s d) o piece (spelled, at) small =
    let len = ap (λ (t : Text). byte_len t) spelled ∙ byte_len-append (opener d) c in
    let open_len = (byte_len-delimiters d).0 in
    rw at (unfold expand in ground (arith, len, open_len))
Spells-full_span (Token.text c s) o piece (spelled, at) small =
    ap some (at ∙ ap (λ (t : Text). span_of o (byte_len t)) (sym spelled))
Spells-full_span (Token.newline s) o piece (_, at) small = ap some at
Spells-full_span (Token.whitespace s) o piece (_, at) small = ap some at
Spells-full_span Token.eof o piece h small = elim h [ ]

Tiles-AreAdjacent :
    {o : ℕ} {tokens : List Token} {t : Text}
    → Tiles o tokens t
    → o + byte_len t ≤ u32_max
    → AreAdjacent o tokens (o + byte_len t)
Tiles-AreAdjacent {o = o} {t = t} (end empty) small =
    let len = ap (λ (t : Text). byte_len t) empty in unfold full_span in (refl, omega (arith, len))
Tiles-AreAdjacent {o = o} {t = t}
      (tile {token = token} {tokens = tokens} piece rest split some_text spelled later) small =
    let len : byte_len t ≡ byte_len piece + byte_len rest =
      ap (λ (t : Text). byte_len t) split ∙ byte_len-append piece rest in
    let tail = Tiles-AreAdjacent later (omega (arith, len, small)) in
    let next : span_end (span_of o (byte_len piece)) ≡ o + byte_len piece =
      ground (arith, len, small) in
    let stop : o + byte_len piece + byte_len rest ≡ o + byte_len t = omega (arith, len) in
    rw (Spells-full_span token o piece spelled (omega (arith, len, small)), AreAdjacent)
      (refl, rw next (rw stop at tail))

-- The full spans of the tokens of a source shorter than 4 GiB tile it: the first starts at 0, each of the others where the
-- one before it ends, and the last ends where the source does.
pub tokenize-AreAdjacent :
    (memchr : Memchr) (source : Text)
    → byte_len source ≤ u32_max
    → AreAdjacent 0 (tokenize memchr source) (byte_len source)
tokenize-AreAdjacent memchr source small =
    let e : 0 + byte_len source ≡ byte_len source = omega arith in
    rw e at (Tiles-AreAdjacent (tokenize-Tiles memchr source small) (omega (arith, small)))
