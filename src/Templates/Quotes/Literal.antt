-- ===== src/Templates/Quotes/Literal.antt =====
-- `TemplateString::parse` of crates/djls-templates/src/quotes.rs.
use django_language_server.Base.{
  ℕ, ◌+◌, ◌-◌, true, false, ◌&&◌, not, ◌==◌, ltb, ◌≡◌, sym, ap, ◌∙◌, [], ◌∷◌, ◌++◌, arith, inl, inr,
  ◌⊎◌, Bool-cases,
}
use django_language_server.Base.Text.{Text, byte_len, len_utf8, slice, trim, trim_start}
use django_language_server.Base.Text.Slices.{byte_len-append, slice_middle, len_utf8_pos}
use django_language_server.Source.Position.{Span, saturating_from_parts_usize}
use django_language_server.Templates.Quotes.{
  TemplateString, quoted, unquoted, ends_with_char, parse_trimmed, parse,
}

abbrev pub IsQuote : ℕ → Type 0
IsQuote q = (q ≡ b'\'') ⊎ (q ≡ b'"')

-- A text in quotes, and what `parse` makes of a trimmed text that stands at `start`.
abbrev pub IsQuoted : Text → Type 0
IsQuoted t = (q : ℕ) × (value : Text) × IsQuote q × (t ≡ q ∷ (value ++ q ∷ []))

pub data Parses (start : ℕ) : Text → TemplateString → Type 0 where
  in_quotes :
      {t : Text} {s : Span} (q : ℕ) (value : Text)
      → IsQuote q
      → t ≡ q ∷ (value ++ q ∷ [])
      → s ≡ saturating_from_parts_usize (start + 1) (byte_len value)
      → Parses start t (quoted value s)
  plain : {t : Text} → ¬ IsQuoted t → Parses start t (unquoted t)

ends_with_char-snoc : (t : Text) (q : ℕ) → ends_with_char (t ++ q ∷ []) q ≡ true
ends_with_char-snoc [] q = ground arith
ends_with_char-snoc (c ∷ []) q = ground arith
ends_with_char-snoc (c ∷ d ∷ t) q = ends_with_char-snoc (d ∷ t) q

ends_with_char_split :
    (t : Text) (q : ℕ) → ends_with_char t q ≡ true → (v : Text) × (t ≡ v ++ q ∷ [])
ends_with_char_split [] q e = cc
ends_with_char_split (c ∷ []) q e = ([], ground arith)
ends_with_char_split (c ∷ d ∷ t) q e =
    let (v, split) = ends_with_char_split (d ∷ t) q e in (c ∷ v, ap (λ (u : Text). c ∷ u) split)

quote_width : (q : ℕ) → IsQuote q → len_utf8 q ≡ 1
unfolding len_utf8
quote_width q h = ground (arith, h)

one_char : (q : ℕ) → ¬ IsQuoted (q ∷ [])
one_char q (p, [], h, e) = cc
one_char q (p, c ∷ v, h, e) = cc

unclosed_quote : (q : ℕ) (t : Text) → ends_with_char (q ∷ t) q ≡ false → ¬ IsQuoted (q ∷ t)
unclosed_quote q t open_end (p, v, h, e) =
    let head : q ≡ p = cc in
    let whole : q ∷ t ≡ (q ∷ v) ++ q ∷ [] = rw (← head) at e in
    cc (ends_with_char-snoc (q ∷ v) q, ap (λ (u : Text). ends_with_char u q) whole, open_end)

is_quote : (q : ℕ) → (not (q == b'\'') && not (q == b'"')) ≡ false → IsQuote q
is_quote q e = elim (Bool-cases (q == b'\'')) [
  | inl single ↦ inl (ground arith)
  | inr other ↦ inr (ground (arith, e, other))
]

not_quote : (q : ℕ) → (not (q == b'\'') && not (q == b'"')) ≡ true → IsQuote q → ⊥
not_quote q e (inl h) = ground (arith, e, h)
not_quote q e (inr h) = ground (arith, e, h)

long_enough : (q c : ℕ) (t : Text) → ltb (byte_len (q ∷ c ∷ t)) 2 ≡ false
long_enough q c t = ground (arith, len_utf8_pos q, len_utf8_pos c)

unquoted_start :
    (q : ℕ) (t : Text) → (not (q == b'\'') && not (q == b'"')) ≡ true → ¬ IsQuoted (q ∷ t)
unquoted_start q t other (p, v, h, e) =
    let head : q ≡ p = cc in not_quote q other (rw (sym head) at h)

-- What stands between the quotes.
between_quotes :
    (q : ℕ) (t v : Text) → IsQuote q → t ≡ v ++ q ∷ [] → slice (q ∷ t) 1 (byte_len (q ∷ t) - 1) ≡ v
between_quotes q t v h split =
    let width = quote_width q h in
    let from : 1 ≡ byte_len (q ∷ []) = omega (arith, width) in
    let len : byte_len (q ∷ t) - 1 ≡ byte_len (q ∷ []) + byte_len v =
      omega (arith, width, ap (λ (u : Text). byte_len u) split, byte_len-append v (q ∷ [])) in
    rw len (
      ap (λ (a : ℕ). slice (q ∷ t) a (byte_len (q ∷ []) + byte_len v)) from
      ∙ ap (λ (u : Text). slice (q ∷ u) (byte_len (q ∷ [])) (byte_len (q ∷ []) + byte_len v)) split
      ∙ slice_middle (q ∷ []) v (q ∷ []))

parse_trimmed-Parses :
    (t : Text) (raw_span : Span) (trim_start_len : ℕ)
    → Parses (raw_span.start + trim_start_len) t (parse_trimmed t raw_span trim_start_len)
unfolding parse_trimmed
parse_trimmed-Parses [] raw_span lead = plain (λ (q, v, h, e). cc)
parse_trimmed-Parses (q ∷ []) raw_span lead =
    elim (Bool-cases (not (q == b'\'') && not (q == b'"'))) [
      | inl other ↦ rw (other, parse_trimmed) (plain (one_char q))
      | inr quote ↦
          let short : ltb (byte_len (q ∷ [])) 2 ≡ true =
            ground (arith, quote_width q (is_quote q quote)) in
          rw (quote, short, parse_trimmed) (plain (one_char q))
    ]
parse_trimmed-Parses (q ∷ c ∷ t) raw_span lead =
    elim (Bool-cases (not (q == b'\'') && not (q == b'"'))) [
      | inl other ↦ rw (other, parse_trimmed) (plain (unquoted_start q (c ∷ t) other))
      | inr quote ↦ elim (Bool-cases (ends_with_char (q ∷ c ∷ t) q)) [
        | inl closed ↦
            let h = is_quote q quote in
            let (v, split) = ends_with_char_split (c ∷ t) q closed in
            rw (quote, long_enough q c t, closed, between_quotes q (c ∷ t) v h split, parse_trimmed)
              (in_quotes q v h (ap (λ (u : Text). q ∷ u) split) (
                ap (λ (w : ℕ). saturating_from_parts_usize (raw_span.start + lead + w) (byte_len v))
                  (quote_width q h)))
        | inr unclosed ↦
            rw (quote, long_enough q c t, unclosed, parse_trimmed)
              (plain (unclosed_quote q (c ∷ t) unclosed))
      ]
    ]

-- `parse` takes off the quotes of a trimmed text that starts and ends with the same quote, and gives
-- the place of what stands between them; any other text it gives back trimmed.
pub parse-Parses :
    (raw : Text) (raw_span : Span)
    → Parses
        (raw_span.start + (byte_len raw - byte_len (trim_start raw)))
        (trim raw)
        (parse raw raw_span)
unfolding parse
parse-Parses raw raw_span =
    parse_trimmed-Parses (trim raw) raw_span (byte_len raw - byte_len (trim_start raw))
