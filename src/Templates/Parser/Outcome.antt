-- ===== src/Templates/Parser/Outcome.antt =====
-- The errors of crates/djls-templates/src/parser.rs.
use django_language_server.Base.{
  ℕ, ◌+◌, ◌-◌, ◌%◌, ◌^◌, ◌≤◌, true, leb, ◌≡◌, ◌≢◌, refl, sym, ap, ◌∙◌, List, [], ◌∷◌, ◌++◌, All,
  arith, inl, inr, Bool-cases, u32_max,
}
use django_language_server.Base.Result.{Result, ok, err}
use django_language_server.Base.Text.{
  Text, byte_len, len_utf8, slice_to, floor_char_boundary, trim, trim_start, text as literal,
}
use django_language_server.Base.Text.Slices.{byte_len-append}
use django_language_server.Source.Position.{Span, saturating_from_parts_usize}
use django_language_server.Templates.Filters.{Filter, parse_filter, split_variable_expression}
use django_language_server.Templates.Tokens.{Token, content_span_or_fallback}
use django_language_server.Templates.Memchr.{Memchr}
use django_language_server.Templates.Lexer.{tokenize}
use django_language_server.Templates.Lexer.Pieces.{Spells}
use django_language_server.Templates.Lexer.Tiling.{Tiles, end, tile, tokenize-Tiles}
use django_language_server.Templates.Quotes.{Segment, split_on_unquoted_whitespace}
use django_language_server.Templates.Nodes.{
  Node, ParseError, empty_tag, unexpected_token_kind, malformed_construct,
  malformed_filter_expression, stream_error,
}
use django_language_server.Templates.Parser.{
  parse, parse_tag_args, tag_args, tag_node, variable_parts, finish_variable, parse_filters,
  cons_filter, truncate_content,
}
use django_language_server.Templates.Parser.Grammar.{
  node_of, is_special, Yields, done, merged, made, failed,
}
use django_language_server.Templates.Parser.Refines.{parse-Yields, Result-cases}

-- The errors that the nodes of a list hold.
abbrev pub errors_of : List Node → List ParseError
errors_of [] = []
errors_of (Node.error span full_span e ∷ nodes) = e ∷ errors_of nodes
errors_of (Node.tag name name_span bits span ∷ nodes) = errors_of nodes
errors_of (Node.comment content span ∷ nodes) = errors_of nodes
errors_of (Node.text span ∷ nodes) = errors_of nodes
errors_of (Node.variable var var_span filters span ∷ nodes) = errors_of nodes

-- An error in the template, not in the use of the parser.
abbrev pub IsSyntaxError : ParseError → Type 0
IsSyntaxError (empty_tag position) = Unit
IsSyntaxError (malformed_construct position opener closer content) = Unit
IsSyntaxError (malformed_filter_expression position content) = Unit
IsSyntaxError (unexpected_token_kind position context) = ⊥
IsSyntaxError (stream_error kind) = ⊥

-- A node that is no error.
abbrev pub IsProper : Node → Type 0
IsProper (Node.error span full_span e) = ⊥
IsProper node = Unit

abbrev pub Sound : Result ParseError Node → Type 0
Sound (ok node) = IsProper node
Sound (err e) = IsSyntaxError e

-- Filters are read, or one of them is malformed.
abbrev FiltersSound : Result ParseError (List Filter) → Type 0
FiltersSound (ok filters) = Unit
FiltersSound (err e) = IsSyntaxError e

cons_filter-FiltersSound :
    (f : Filter) (r : Result ParseError (List Filter))
    → FiltersSound r
    → FiltersSound (cons_filter f r)
cons_filter-FiltersSound f (ok filters) h = tt
cons_filter-FiltersSound f (err e) h = h

parse_filters-FiltersSound :
    (base : ℕ) (parts : List (Text × ℕ)) → FiltersSound (parse_filters base parts)
parse_filters-FiltersSound base [] = tt
parse_filters-FiltersSound base ((raw, o) ∷ parts) =
    elim (Result-cases (parse_filter raw ((base + o) % 2 ^ 32))) [
      | inl (f, read) ↦
          rw (read, parse_filters)
            (cons_filter-FiltersSound f (parse_filters base parts)
              (parse_filters-FiltersSound base parts))
      | inr (e, broken) ↦ rw (broken, parse_filters) tt
    ]

finish_variable-Sound :
    (var : Text) (var_span span : Span) (r : Result ParseError (List Filter))
    → FiltersSound r
    → Sound (finish_variable var var_span span r)
finish_variable-Sound var var_span span (ok filters) h = tt
finish_variable-Sound var var_span span (err e) h = h

variable_parts-Sound : (span : Span) (parts : List (Text × ℕ)) → Sound (variable_parts span parts)
variable_parts-Sound span [] = tt
variable_parts-Sound span ((raw, o) ∷ parts) =
    finish_variable-Sound (trim raw)
      (saturating_from_parts_usize (span.start + o + (byte_len raw - byte_len (trim_start raw)))
        (byte_len (trim raw)))
      span (parse_filters span.start parts) (parse_filters-FiltersSound span.start parts)

tag_args-Sound :
    (span : Span) (position : ℕ) (segments : List Segment)
    → Sound (tag_node span (tag_args position segments))
tag_args-Sound span position [] = tt
tag_args-Sound span position (name ∷ rest) = tt

node_of-Sound : (t : Token) → t ≢ Token.eof → is_special t ≡ true → Sound (node_of t)
unfolding parse_tag_args
node_of-Sound (Token.block c s) h special =
    let span = content_span_or_fallback (Token.block c s) in
    tag_args-Sound span span.start (split_on_unquoted_whitespace c)
node_of-Sound (Token.comment c s) h special = tt
node_of-Sound (Token.error c s d) h special = tt
node_of-Sound (Token.variable c s) h special =
    variable_parts-Sound (content_span_or_fallback (Token.variable c s))
      (split_variable_expression c)
node_of-Sound Token.eof h special = absurd (h refl)
node_of-Sound (Token.text c s) h special = cc
node_of-Sound (Token.newline s) h special = cc
node_of-Sound (Token.whitespace s) h special = cc

Proper-errors_of :
    (node : Node) (nodes : List Node) → IsProper node → errors_of (node ∷ nodes) ≡ errors_of nodes
Proper-errors_of (Node.error span full e) nodes h = absurd h
Proper-errors_of (Node.tag name name_span bits span) nodes h = refl
Proper-errors_of (Node.comment content span) nodes h = refl
Proper-errors_of (Node.text span) nodes h = refl
Proper-errors_of (Node.variable var var_span filters span) nodes h = refl

All-behind :
    (run rest behind : List Token)
    → behind ≡ run ++ rest
    → All (λ t. t ≢ Token.eof) behind
    → All (λ t. t ≢ Token.eof) rest
All-behind [] rest behind split all = rw split at all
All-behind (t ∷ run) rest [] split all = cc
All-behind (t ∷ run) rest (u ∷ behind) split all =
    let tail : behind ≡ run ++ rest = cc split in All-behind run rest behind tail all.1

-- The errors are those of the error nodes, in order, and all of them are in the template.
Yields-errors :
    {tokens : List Token} {nodes : List Node} {errors : List ParseError}
    → Yields tokens nodes errors
    → All (λ t. t ≢ Token.eof) tokens
    → (errors ≡ errors_of nodes) × All IsSyntaxError errors
Yields-errors done all = (refl, tt)
Yields-errors (merged first run rest split plain passed stops later) all =
    Yields-errors later (All-behind run rest _ split all.1)
Yields-errors (made {nodes = nodes} token node rest special node_made later) all =
    let (same, sound) = Yields-errors later all.1 in
    let proper : IsProper node = rw node_made at (node_of-Sound token all.0 special) in
    (same ∙ sym (Proper-errors_of node nodes proper), sound)
Yields-errors (failed token e skipped rest split special broken passed stops later) all =
    let (same, sound) = Yields-errors later (All-behind skipped rest _ split all.1) in
    let syntax : IsSyntaxError e = rw broken at (node_of-Sound token all.0 special) in
    (ap (λ (es : List ParseError). e ∷ es) same, (syntax, sound))

Spells-ne-eof : (o : ℕ) (t : Token) (piece : Text) → Spells o t piece → t ≢ Token.eof
Spells-ne-eof o (Token.block c s) piece h e = cc
Spells-ne-eof o (Token.comment c s) piece h e = cc
Spells-ne-eof o (Token.error c s d) piece h e = cc
Spells-ne-eof o (Token.variable c s) piece h e = cc
Spells-ne-eof o (Token.text c s) piece h e = cc
Spells-ne-eof o (Token.newline s) piece h e = cc
Spells-ne-eof o (Token.whitespace s) piece h e = cc
Spells-ne-eof o Token.eof piece h e = absurd h

-- The tokens of a text are followed by one `Eof`.
Tiles-eof :
    {o : ℕ} {tokens : List Token} {t : Text}
    → Tiles o tokens t
    → (front : List Token) × (tokens ≡ front ++ Token.eof ∷ []) × All (λ t. t ≢ Token.eof) front
Tiles-eof (end empty) = ([], refl, tt)
Tiles-eof {o = o} (tile {token = token} piece rest split some_text spelled later) =
    let (front, last_one, all) = Tiles-eof later in
    (
      token ∷ front,
      ap (λ (ts : List Token). token ∷ ts) last_one,
      (Spells-ne-eof o token piece spelled, all),
    )

-- For a source shorter than 4 GiB, the errors that lexing and parsing give are exactly those of the
-- error nodes, in order, and each of them is an empty tag, a malformed construct or a malformed
-- filter: the parser never meets a token it does not expect, and never reads past its tokens.
pub parse-tokenize :
    (memchr : Memchr) (source : Text)
    → byte_len source ≤ u32_max
    → ((parse (tokenize memchr source)).1 ≡ errors_of (parse (tokenize memchr source)).0)
      × All IsSyntaxError (parse (tokenize memchr source)).1
parse-tokenize memchr source small =
    let (front, split, all) = Tiles-eof (tokenize-Tiles memchr source small) in
    rw split (Yields-errors (parse-Yields front) all)

floor-le : (t : Text) (n : ℕ) → byte_len (slice_to t (floor_char_boundary t n)) ≤ n
unfolding floor_char_boundary slice_to
floor-le [] n = omega arith
floor-le (c ∷ t) n = ground (arith, floor-le t (n - len_utf8 c))

dots_length : byte_len (literal "...") ≡ 3
unfolding len_utf8
dots_length = refl

-- The content that an error quotes is at most 63 bytes long, and is the trimmed content when that is
-- at most 60 bytes long.
pub truncate_content-bound :
    (content : Text)
    → (byte_len (truncate_content content) ≤ 63)
      × (byte_len (trim content) ≤ 60 → truncate_content content ≡ trim content)
unfolding truncate_content
truncate_content-bound content = elim (Bool-cases (leb (byte_len (trim content)) 60)) [
  | inl short ↦ rw (short, truncate_content) (ground (arith, short), λ h. refl)
  | inr long ↦
      let cut = slice_to (trim content) (floor_char_boundary (trim content) 60) in
      let bound : byte_len (cut ++ literal "...") ≤ 63 =
        omega
          (arith, byte_len-append cut (literal "..."), floor-le (trim content) 60, dots_length) in
      rw (long, truncate_content) (bound, λ h. absurd (ground (arith, h, long)))
]
