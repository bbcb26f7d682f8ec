-- ===== src/Templates/Lexer/Tags.antt =====
-- `lex_django_tag` of crates/djls-templates/src/lexer.rs: closed and unclosed tags.
use django_language_server.Base.{
  ℕ, ◌+◌, ◌≤◌, true, ◌≡◌, refl, sym, ap, ◌∙◌, some, ◌++◌, arith, Option-cases, inl, inr, u32_max,
  append_assoc,
}
use django_language_server.Base.Text.{Text, as_bytes, byte_len, is_char_boundary, slice, slice_from}
use django_language_server.Base.Text.Slices.{byte_len-append}
use django_language_server.Base.Text.Boundaries.{
  boundary_add, slice_split, byte_len-slice, slice_from-add,
}
use django_language_server.Source.Position.{Span, span_of, saturating_from_parts_usize}
use django_language_server.Source.Position.Bounds.{from_bounds_exact, from_parts_exact}
use django_language_server.Templates.Tokens.{
  TagDelimiter, from_input, opener, closer, delimiter_length,
}
use django_language_server.Templates.Memchr.{Memchr, OccursAt}
use django_language_server.Templates.Lexer.{
  Lexer, remaining_source, consume_n, ok, err, consume_until_stop_char, consume_until_delimiter,
  token_fn, error_span, finish_tag, lex_django_tag,
}
use django_language_server.Templates.Lexer.Cursor.{
  AtChar, Moves, Moves-trans, consume_n-pair, slice_here, Moves-within,
}
use django_language_server.Templates.Lexer.Pieces.{
  IsTagged, Spells, Consumes, Ready, stop_char_boundary,
}
use django_language_server.Templates.Lexer.Delimiters.{
  second_byte, from_input-opener, find-closer, closer_first, opener_pair, closer_pair,
  byte_len-delimiters,
}

Spells-token_fn :
    (d : TagDelimiter) (o : ℕ) (c : Text) (s : Span) (piece : Text)
    → IsTagged d o c s piece
    → Spells o (token_fn d c s) piece
Spells-token_fn TagDelimiter.block o c s piece h = h
Spells-token_fn TagDelimiter.variable o c s piece h = h
Spells-token_fn TagDelimiter.comment o c s piece h = h

-- A cursor that is moved over what remains.
jump :
    (l : Lexer) (n : ℕ)
    → AtChar l
    → is_char_boundary (remaining_source l) n ≡ true
    → Moves l (record l { current = l.current + n })
      × (remaining_source l
          ≡ slice l.source l.current (l.current + n) ++ slice_from (remaining_source l) n)
      × (byte_len (slice l.source l.current (l.current + n)) ≡ n)
jump l n cut here =
    let lands = boundary_add l.source l.current n cut here in
    let split = slice_split l.source l.current (l.current + n) cut lands (omega arith) in
    let len = byte_len-slice l.source l.current (l.current + n) cut lands (omega arith) in
    (
      record { same_source = refl; same_start = refl; forward = omega arith; lands = lands },
      rw (slice_from-add l.source l.current n cut) split,
      omega (arith, len),
    )

error_span_lem :
    (len content_start current : ℕ)
    → content_start + len ≡ current
    → current ≤ u32_max
    → error_span len content_start current ≡ span_of content_start len
error_span_lem len content_start current e small =
    ground (arith, from_bounds_exact content_start current, from_parts_exact content_start len)

module _ (l : Lexer) (r : Ready l) (d : TagDelimiter) (rest : Text)
    (e : remaining_source l ≡ opener d ++ rest) where
  opened :
      Moves l (consume_n l 2)
      × (remaining_source (consume_n l 2) ≡ rest)
      × ((consume_n l 2).current ≡ l.current + 2)
  opened =
      let (low, pair) = opener_pair d rest in
      consume_n-pair l b'{' (second_byte d) rest r.at_char (omega arith) low (e ∙ pair)

  -- The closer stands `pos` bytes behind the opener.
  closed_tag :
      (pos : ℕ)
      → OccursAt (as_bytes rest) (as_bytes (closer d)) pos
      → let l1 = consume_n l 2 in
        let l2 = record l1 { current = l1.current + pos } in
        let made =
          finish_tag d
            (l.start + delimiter_length)
            (ok (slice l1.source l1.current l2.current) l2) in
        Consumes l made.0 made.1
  closed_tag pos occurs =
      let l1 = consume_n l 2 in
      let l2 = record l1 { current = l1.current + pos } in
      let c = slice l1.source l1.current l2.current in
      let (m1, rest1, at1) = opened in
      let (cut, found) = find-closer rest d pos occurs in
      let (m2, split, len) = jump l1 pos m1.lands (rw rest1 cut) in
      let behind = ap (λ (t : Text). slice_from t pos) rest1 ∙ found in
      let tail = slice_from rest (pos + 1 + 1) in
      let (low, pair) = closer_pair d tail in
      let rest2 = sym (slice_from-add l1.source l1.current pos m1.lands) ∙ behind ∙ pair in
      let (m3, rest3, at3) =
        consume_n-pair l2 (closer_first d) b'}' tail m2.lands low (omega arith) rest2 in
      let whole = e ∙ ap (◌++◌ (opener d)) (sym rest1 ∙ split ∙ ap (◌++◌ c) behind) in
      let moves = Moves-trans m1 (Moves-trans m2 m3) in
      let (open_len, close_len) = byte_len-delimiters d in
      let inner = byte_len-append c (closer d) in
      let total = byte_len-append (opener d) (c ++ closer d) in
      let end : (consume_n l2 2).current ≡ l.current + byte_len (opener d ++ (c ++ closer d)) =
        omega (arith, at1, at3, len, open_len, close_len, inner, total) in
      let span : saturating_from_parts_usize (l.start + 2) (byte_len c)
          ≡ span_of (l.current + 2) (byte_len c) =
        ap (λ (s : ℕ). saturating_from_parts_usize (s + 2) (byte_len c)) r.started
        ∙ from_parts_exact (l.current + 2) (byte_len c)
            (omega (arith, at1, at3, len, r.small, Moves-within l (consume_n l2 2) moves)) in
      let regroup : opener d ++ (c ++ (closer d ++ tail)) ≡ (opener d ++ (c ++ closer d)) ++ tail =
        simp append_assoc in
      let text =
        slice_here l.source l.current (opener d ++ (c ++ closer d)) tail (whole ∙ regroup) in
      rw close_len (record {
        moves = moves;
        progress = omega (arith, at1, at3);
        spells = Spells-token_fn d l.current c _ _ (rw end text, span);
      })

  -- The tag is not closed: its content ends at a stop character.
  unclosed_tag :
      (n : ℕ)
      → is_char_boundary (consume_n l 2).source ((consume_n l 2).current + n) ≡ true
      → let l1 = consume_n l 2 in
        let l2 = record l1 { current = l1.current + n } in
        let made =
          finish_tag d
            (l.start + delimiter_length)
            (err (slice l1.source l1.current l2.current) l2) in
        Consumes l made.0 made.1
  unclosed_tag n lands =
      let l1 = consume_n l 2 in
      let l2 = record l1 { current = l1.current + n } in
      let c = slice l1.source l1.current l2.current in
      let (m1, rest1, at1) = opened in
      let m2 : Moves l1 l2 = record {
        same_source = refl;
        same_start = refl;
        forward = omega arith;
        lands = lands;
      } in
      let moves = Moves-trans m1 m2 in
      let len = byte_len-slice l1.source l1.current l2.current m1.lands lands (omega arith) in
      let split = slice_split l1.source l1.current l2.current m1.lands lands (omega arith) in
      let tail = slice_from l1.source l2.current in
      let (open_len, close_len) = byte_len-delimiters d in
      let total = byte_len-append (opener d) c in
      let end : l2.current ≡ l.current + byte_len (opener d ++ c) =
        omega (arith, at1, len, open_len, total) in
      let span : error_span (byte_len c) (l.start + 2) l2.current
          ≡ span_of (l.current + 2) (byte_len c) =
        ap (λ (s : ℕ). error_span (byte_len c) (s + 2) l2.current) r.started
        ∙ error_span_lem (byte_len c) (l.current + 2) l2.current (omega (arith, at1, len))
            (omega (arith, r.small, Moves-within l l2 moves)) in
      let regroup : opener d ++ (c ++ tail) ≡ (opener d ++ c) ++ tail = simp append_assoc in
      let whole = e ∙ ap (◌++◌ (opener d)) (sym rest1 ∙ split) ∙ regroup in
      let text = slice_here l.source l.current (opener d ++ c) tail whole in
      record {
        moves = moves;
        progress = omega (arith, at1);
        spells = (ap (λ (b : ℕ). slice l.source l.current b) end ∙ text, span);
      }

module _ (memchr : Memchr) where
  -- A tag is lexed to a token that spells it, closed or not.
  pub lex_django_tag-Consumes :
      (l : Lexer) (d : TagDelimiter)
      → Ready l
      → from_input (as_bytes (remaining_source l)) ≡ some d
      → Consumes l (lex_django_tag memchr l d).0 (lex_django_tag memchr l d).1
  unfolding lex_django_tag consume_until_delimiter
  lex_django_tag-Consumes l d r e =
      let l1 = consume_n l 2 in
      let rest = slice_from (remaining_source l) (0 + 1 + 1) in
      let begins = from_input-opener (remaining_source l) d e in
      let (m1, rest1, at1) = opened l r d rest begins in
      elim (Option-cases (memchr.find (as_bytes (remaining_source l1)) (as_bytes (closer d)))) [
        | inl missing ↦
            rw (missing, consume_until_delimiter)
              (unclosed_tag l r d rest begins (consume_until_stop_char memchr l1)
                (stop_char_boundary memchr l1 m1.lands))
        | inr (pos, found) ↦
            let occurs = memchr.find_found _ _ pos (rw rest1 at found) in
            rw (found, consume_until_delimiter) (closed_tag l r d rest begins pos occurs)
      ]
