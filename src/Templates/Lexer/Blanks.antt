-- ===== src/Templates/Lexer/Blanks.antt =====
-- `lex_whitespace` of crates/djls-templates/src/lexer.rs: newlines and runs of other white space.
use django_language_server.Base.{
  ℕ, zero, suc, ◌+◌, ◌-◌, ◌≤◌, ◌<◌, true, false, ◌&&◌, ◌||◌, ◌==◌, ◌≡◌, ◌≢◌, refl, sym, ap, ◌∙◌,
  ◌⊎◌, some, [], ◌∷◌, get_elem?, arith, Bool-cases, Option-cases, inl, inr, All,
}
use django_language_server.Base.Text.{
  Text, as_bytes, byte_len, is_char_boundary, slice, slice_from, slice_to, len_utf8, is_whitespace,
  encode,
}
use django_language_server.Base.Text.Slices.{len_utf8_pos, slice_from-zero, slice_to-zero}
use django_language_server.Base.Text.Boundaries.{ascii_byte_char, byte_len-slice, char_step}
use django_language_server.Source.Position.{span_of, saturating_from_bounds_usize}
use django_language_server.Source.Position.Bounds.{from_bounds_exact}
use django_language_server.Templates.Lexer.{
  Lexer, remaining_source, consume, first_width, is_at_end, peek, first_char, lex_whitespace,
  newline_token, whitespace_loop,
}
use mathlib.Core.Path.{ap₂, subst}
use django_language_server.Templates.Lexer.Cursor.{
  AtChar, Moves, Moves-trans, Moves-refl, consume-cons, Moves-within,
}
use django_language_server.Templates.Lexer.Pieces.{IsBlank, IsNewline, Consumes, Ready}

slice_cons :
    (t : Text) (a b c : ℕ) (r : Text)
    → is_char_boundary t a ≡ true
    → slice_from t a ≡ c ∷ r
    → a + len_utf8 c ≤ b
    → slice t a b ≡ c ∷ slice t (a + len_utf8 c) b
unfolding slice slice_to
slice_cons t a b c r cut e le =
    let (_, rest) = char_step t a c r cut e in
    let n : b - a - len_utf8 c ≡ b - (a + len_utf8 c) = omega arith in
    rw (e, rest) (ground (arith, len_utf8_pos c, n))

slice_empty : (t : Text) (a : ℕ) → slice t a a ≡ []
unfolding slice
slice_empty t a = let n : a - a ≡ 0 = omega arith in rw n (slice_to-zero (slice_from t a))

first_byte : (c : ℕ) (t : Text) → c < 0x80 → get_elem? (as_bytes (c ∷ t)) 0 ≡ some c
unfolding encode
first_byte c t h = ground arith

len_utf8_ascii : (c : ℕ) → c < 0x80 → len_utf8 c ≡ 1
unfolding len_utf8
len_utf8_ascii c h = ground arith

-- A run of blanks from the cursor to where `l'` stands.
abbrev BlankTo : Lexer → Lexer → Type 0
BlankTo l l' = Moves l l' × All IsBlank (slice l.source l.current l'.current)

BlankTo-refl : (l : Lexer) → AtChar l → BlankTo l l
BlankTo-refl l cut = (Moves-refl l cut, rw (slice_empty l.source l.current) tt)

BlankTo-step :
    (l l' : Lexer) (c : ℕ) (r : Text)
    → AtChar l
    → remaining_source l ≡ c ∷ r
    → IsBlank c
    → BlankTo (consume l) l'
    → BlankTo l l'
BlankTo-step l l' c r cut e blank (moves, blanks) =
    let (m, rest, at) = consume-cons l c r cut e in
    let run =
      slice_cons l.source l.current l'.current c r cut e (omega (arith, at, moves.forward)) in
    let tail : slice (consume l).source (consume l).current l'.current
        ≡ slice l.source (l.current + len_utf8 c) l'.current =
      ap₂ (λ (t : Text) (a : ℕ). slice t a l'.current) m.same_source at in
    (Moves-trans m moves, rw run (blank, rw tail at blanks))

IsBlank-of_byte : (b : ℕ) → (b == b' ' || b == b'\t') ≡ true → IsBlank b × (b < 0x80)
unfolding is_whitespace
IsBlank-of_byte b h = ground arith

pub Text-cases : (t : Text) → (t ≡ []) ⊎ ((c : ℕ) × (r : Text) × (t ≡ c ∷ r))
Text-cases [] = inl refl
Text-cases (c ∷ r) = inr (c, r, refl)

consume_ascii :
    (l : Lexer) (c : ℕ) (r : Text)
    → c < 0x80
    → remaining_source l ≡ c ∷ r
    → consume l ≡ record l { current = l.current + 1 }
unfolding consume
consume_ascii l c r low e =
    let width : first_width (remaining_source l) ≡ 1 = ap first_width e ∙ len_utf8_ascii c low in
    ap (λ (w : ℕ). record l { current = l.current + w }) width

-- The first byte of a newline is the newline.
not_newline :
    (c b : ℕ) (r : Text)
    → get_elem? (as_bytes (c ∷ r)) 0 ≡ some b
    → (b == b'\n' || b == b'\r') ≡ false
    → (c ≢ b'\n') × (c ≢ b'\r')
unfolding encode
not_newline c b r first inner = (ground arith, ground arith)

whitespace_loop-BlankTo : (fuel : ℕ) (l : Lexer) → AtChar l → BlankTo l (whitespace_loop fuel l)
unfolding whitespace_loop
whitespace_loop-BlankTo zero l cut = BlankTo-refl l cut
whitespace_loop-BlankTo (suc fuel) l cut = elim (Bool-cases (is_at_end l)) [
  | inl done ↦ rw (done, whitespace_loop) (BlankTo-refl l cut)
  | inr more ↦ elim (Option-cases (get_elem? (as_bytes (remaining_source l)) 0)) [
    | inl empty ↦ rw (more, empty, whitespace_loop) (BlankTo-refl l cut)
    | inr (b, first) ↦ elim (Bool-cases (b == b'\n' || b == b'\r')) [
      | inl newline ↦ rw (more, first, newline, whitespace_loop) (BlankTo-refl l cut)
      | inr inner ↦ elim (Bool-cases (b == b' ' || b == b'\t')) [
        | inl space ↦
            let (blank, low) = IsBlank-of_byte b space in
            let rest = slice_from (remaining_source l) (0 + 1) in
            let e =
              sym (slice_from-zero (remaining_source l))
              ∙ (ascii_byte_char (remaining_source l) 0 b first low).1 in
            let step = consume_ascii l b rest low e in
            let run =
              whitespace_loop-BlankTo fuel (consume l) (consume-cons l b rest cut e).0.lands in
            rw (more, first, inner, space, whitespace_loop)
              (subst (λ (m : Lexer). BlankTo l (whitespace_loop fuel m)) step
                (BlankTo-step l (whitespace_loop fuel (consume l)) b rest cut e blank run))
        | inr other ↦ elim (Bool-cases (is_whitespace (peek l))) [
          | inr dark ↦ rw (more, first, inner, other, dark, whitespace_loop) (BlankTo-refl l cut)
          | inl white ↦ elim (Text-cases (remaining_source l)) [
            | inl none_left ↦ cc (rw none_left at first)
            | inr (c, rest, e) ↦
                let (nl, cr) = not_newline c b rest (rw e at first) inner in
                let blank : IsBlank c = (rw e at white, nl, cr) in
                let run =
                  whitespace_loop-BlankTo fuel (consume l) (consume-cons l c rest cut e).0.lands in
                rw (more, first, inner, other, white, whitespace_loop)
                  (BlankTo-step l (whitespace_loop fuel (consume l)) c rest cut e blank run)
          ]
        ]
      ]
    ]
  ]
]

-- The span from the start of the token to the cursor is that of the piece between them.
run_span :
    (l l' : Lexer)
    → Ready l
    → Moves l l'
    → saturating_from_bounds_usize l'.start l'.current
      ≡ span_of l.current (byte_len (slice l.source l.current l'.current))
run_span l l' r m =
    let within = Moves-within l l' m in
    let lands : is_char_boundary l.source l'.current ≡ true =
      subst (λ (t : Text). is_char_boundary t l'.current ≡ true) m.same_source m.lands in
    let len = byte_len-slice l.source l.current l'.current r.at_char lands m.forward in
    ap (λ (s : ℕ). saturating_from_bounds_usize s l'.current) (m.same_start ∙ r.started)
    ∙ from_bounds_exact l.current l'.current (omega (arith, r.small, r.more))
        (omega (arith, r.small, within))
    ∙ ap (span_of l.current) (sym len)

module _ (l : Lexer) (r : Ready l) (c : ℕ) (rest : Text) (e : remaining_source l ≡ c ∷ rest) where
  one : Moves l (consume l)
  one = (consume-cons l c rest r.at_char e).0

  one_piece : slice l.source l.current (consume l).current ≡ c ∷ []
  one_piece =
      let at = (consume-cons l c rest r.at_char e).2 in
      slice_cons l.source l.current (consume l).current c rest r.at_char e (omega (arith, at))
      ∙ ap (λ (a : ℕ). c ∷ slice l.source a (consume l).current) (sym at)
      ∙ ap (◌∷◌ c) (slice_empty l.source (consume l).current)

  one_ahead : l.current < (consume l).current
  one_ahead = omega (arith, (consume-cons l c rest r.at_char e).2, len_utf8_pos c)

  newline_Consumes :
      (l' : Lexer)
      → Moves l l'
      → l.current < l'.current
      → IsNewline (slice l.source l.current l'.current)
      → Consumes l (newline_token l').0 (newline_token l').1
  newline_Consumes l' m ahead newline = record {
    moves = m;
    progress = ahead;
    spells = (newline, run_span l l' r m);
  }

  -- A carriage return takes the line feed behind it along.
  crlf :
      (rest' : Text)
      → c ≡ b'\r'
      → rest ≡ b'\n' ∷ rest'
      → Consumes l (newline_token (consume (consume l))).0 (newline_token (consume (consume l))).1
  crlf rest' is_cr is_lf =
      let (m, left, at) = consume-cons l c rest r.at_char e in
      let (m', left', at') = consume-cons (consume l) b'\n' rest' m.lands (left ∙ is_lf) in
      let l2 = consume (consume l) in
      let first =
        slice_cons l.source l.current l2.current c rest r.at_char e
          (omega (arith, at, m'.forward)) in
      let second =
        slice_cons (consume l).source (consume l).current l2.current b'\n' rest' m.lands
          (left ∙ is_lf) (omega (arith, at')) in
      let empty = slice_empty (consume l).source l2.current in
      let tail =
        ap₂ (λ (t : Text) (a : ℕ). slice t a l2.current) (sym m.same_source) (sym at)
        ∙ second
        ∙ ap (λ (a : ℕ). b'\n' ∷ slice (consume l).source a l2.current) (sym at')
        ∙ ap (◌∷◌ b'\n') empty in
      newline_Consumes l2 (Moves-trans m m') (omega (arith, one_ahead, m'.forward))
        (inr (inr (first ∙ ap₂ ◌∷◌ is_cr tail)))

  single : (c ≡ b'\n') ⊎ (c ≡ b'\r') → IsNewline (slice l.source l.current (consume l).current)
  single (inl lf) = inl (one_piece ∙ ap (λ (x : ℕ). x ∷ []) lf)
  single (inr cr) = inr (inl (one_piece ∙ ap (λ (x : ℕ). x ∷ []) cr))

  blank_run : IsBlank c → BlankTo l (whitespace_loop (byte_len l.source) (consume l))
  blank_run blank =
      BlankTo-step l (whitespace_loop (byte_len l.source) (consume l)) c rest r.at_char e blank
        (whitespace_loop-BlankTo (byte_len l.source) (consume l) one.lands)

  -- A line ending is lexed whole, other white space up to the next line ending or other character.
  pub lex_whitespace-Consumes :
      is_whitespace c ≡ true → Consumes l (lex_whitespace l c).0 (lex_whitespace l c).1
  unfolding lex_whitespace
  lex_whitespace-Consumes white = elim (Bool-cases (c == b'\n' || c == b'\r')) [
    | inr inner ↦
        let (m, blanks) = blank_run (white, ground arith, ground arith) in
        let ahead = (whitespace_loop-BlankTo (byte_len l.source) (consume l) one.lands).0.forward in
        rw (inner, lex_whitespace)
          (record {
            moves = m;
            progress = omega (arith, one_ahead, ahead);
            spells = (blanks, run_span l (whitespace_loop (byte_len l.source) (consume l)) r m);
          })
    | inl newline ↦ elim (Bool-cases (c == b'\r' && peek (consume l) == b'\n')) [
      | inr lone ↦
          rw (newline, lone, lex_whitespace)
            (newline_Consumes (consume l) one one_ahead (single (ground arith)))
      | inl pair ↦
          let left = (consume-cons l c rest r.at_char e).1 in
          let lf : first_char rest ≡ b'\n' = sym (ap first_char left) ∙ ground (arith, pair) in
          elim (Text-cases rest) [
            | inl empty ↦ absurd (omega (arith, sym (ap first_char empty) ∙ lf))
            | inr (x, rest', two) ↦
                let is_lf = sym (ap first_char two) ∙ lf in
                rw (newline, pair, lex_whitespace)
                  (crlf rest' (ground arith) (two ∙ ap (λ (y : ℕ). y ∷ rest') is_lf))
          ]
    ]
  ]
