-- ===== src/Templates/Lexer/Search.antt =====
-- `consume_until_stop_char` of crates/djls-templates/src/lexer.rs: it stops at a character boundary,
-- and behind the first character unless that one stops it.
use django_language_server.Base.{
  ℕ, zero, suc, ◌+◌, ◌≤◌, ◌<◌, true, false, ltb, ◌≡◌, ◌≢◌, refl, sym, ap, ◌∙◌, some, [], ◌∷◌,
  get_elem?, get_or, arith, Bool-cases, Option-cases, inl, inr,
}
use django_language_server.Base.Text.{Text, Bytes, as_bytes, byte_len, is_char_boundary, slice_from}
use django_language_server.Base.Text.Slices.{slice_from-zero}
use django_language_server.Base.Text.Boundaries.{
  boundary_zero, boundary_end, boundary-le, boundary_add, ascii_byte_boundary, ascii_byte_char,
}
use django_language_server.Templates.Tokens.{from_input}
use django_language_server.Templates.Memchr.{Memchr}
use django_language_server.Templates.Lexer.{first_char, is_some, stop_loop}

-- The text does not begin with a newline or a tag's opener.
abbrev pub GoesOn : Text → Type 0
GoesOn t =
    (first_char t ≢ b'\n') × (first_char t ≢ b'\r') × (is_some (from_input (as_bytes t)) ≡ false)

get_or-some : (h : Bytes) (p x : ℕ) → get_elem? h p ≡ some x → get_or h p 0 ≡ x
get_or-some [] p x e = cc
get_or-some (y ∷ h) zero x e = cc
get_or-some (y ∷ h) (suc p) x e = get_or-some h p x e

module _ (memchr : Memchr) where
  -- A hit is one of the three stop bytes, which is a character of its own.
  hit :
      (t : Text) (pos : ℕ)
      → memchr.memchr3 b'{' b'\n' b'\r' (as_bytes t) ≡ some pos
      → (is_char_boundary t pos ≡ true)
        × (is_char_boundary t (pos + 1) ≡ true)
        × (slice_from t pos ≡ get_or (as_bytes t) pos 0 ∷ slice_from t (pos + 1))
  hit t pos e =
      let (x, at_pos, one) = memchr.memchr3_found b'{' b'\n' b'\r' (as_bytes t) pos e in
      let low : x < 0x80 = ground arith in
      let (cut, char) = ascii_byte_char t pos x at_pos low in
      (cut, ascii_byte_boundary t pos x at_pos low, rw (get_or-some (as_bytes t) pos x at_pos) char)

  -- Every round ends at a boundary, at or behind the one where it began.
  pub stop_loop_boundary :
      (fuel : ℕ) (t : Text) (offset : ℕ)
      → is_char_boundary t offset ≡ true
      → (is_char_boundary t (stop_loop memchr fuel t offset (byte_len t)) ≡ true)
        × (offset ≤ stop_loop memchr fuel t offset (byte_len t))
  unfolding stop_loop
  stop_loop_boundary zero t offset cut = (cut, omega arith)
  stop_loop_boundary (suc fuel) t offset cut = elim (Bool-cases (ltb offset (byte_len t))) [
    | inr stop ↦ rw (stop, stop_loop) (cut, omega arith)
    | inl more ↦
        elim (Option-cases (memchr.memchr3 b'{' b'\n' b'\r' (as_bytes (slice_from t offset)))) [
          | inl clear ↦ rw (more, clear, stop_loop) (boundary_end t, boundary-le t offset cut)
          | inr (pos, found) ↦
              let (here, behind, char) = hit (slice_from t offset) pos found in
              let cut_here = boundary_add t offset pos cut here in
              let cut_behind = boundary_add t offset (pos + 1) cut behind in
              let e : offset + (pos + 1) ≡ offset + pos + 1 = omega arith in
              let (later, le) = stop_loop_boundary fuel t (offset + pos + 1) (rw e at cut_behind) in
              ground (arith, more, found, cut_here, later, le)
        ]
  ]

  stop_loop_pos :
      (fuel : ℕ) (t : Text)
      → 0 < byte_len t
      → GoesOn t
      → 0 < stop_loop memchr (suc fuel) t 0 (byte_len t)
  stop_loop_pos fuel t some_left (nl, cr, no_tag) =
      elim (Option-cases (memchr.memchr3 b'{' b'\n' b'\r' (as_bytes (slice_from t 0)))) [
        | inl clear ↦ unfold stop_loop in ground (arith, clear)
        | inr (zero, found) ↦
            let whole = slice_from-zero t in
            let (here, behind, char) = hit t zero (rw whole at found) in
            let first : first_char t ≡ get_or (as_bytes t) 0 0 = ap first_char (sym whole ∙ char) in
            let later = (stop_loop_boundary fuel t (0 + 0 + 1) behind).1 in
            unfold stop_loop in ground (arith, found, whole, first, no_tag, nl, cr, later)
        | inr (suc pos, found) ↦
            let (here, behind, char) = hit (slice_from t 0) (suc pos) found in
            let cut = boundary_add t 0 (suc pos + 1) (boundary_zero t) behind in
            let e : 0 + (suc pos + 1) ≡ 0 + suc pos + 1 = omega arith in
            let later = (stop_loop_boundary fuel t (0 + suc pos + 1) (rw e at cut)).1 in
            unfold stop_loop in ground (arith, found, later)
      ]

  -- A text that goes on is not stopped at once.
  pub stop_loop_progress :
      (t : Text) → 0 < byte_len t → GoesOn t → 0 < stop_loop memchr (byte_len t) t 0 (byte_len t)
  stop_loop_progress t some_left goes = go (byte_len t) refl
    where
      go : (n : ℕ) → byte_len t ≡ n → 0 < stop_loop memchr n t 0 (byte_len t)
      go zero e = absurd (omega arith)
      go (suc k) e = stop_loop_pos k t some_left goes
