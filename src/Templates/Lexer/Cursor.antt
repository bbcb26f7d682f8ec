-- ===== src/Templates/Lexer/Cursor.antt =====
-- The cursor of crates/djls-templates/src/lexer.rs: it moves forward, from one character boundary to
-- another, and leaves the source and the start alone.
use django_language_server.Base.{
  ℕ, ◌+◌, ◌-◌, ◌≤◌, ◌<◌, true, ◌≡◌, refl, ap, ◌∙◌, [], ◌∷◌, ◌++◌, arith,
}
use django_language_server.Base.Text.{Text, byte_len, is_char_boundary, slice, slice_from, len_utf8}
use django_language_server.Base.Text.Slices.{slice_to-append}
use django_language_server.Base.Text.Boundaries.{boundary-le, char_step}
use django_language_server.Templates.Lexer.{
  Lexer, remaining_source, consume, consume_n, first_width,
}

-- The cursor stands at a character boundary.
abbrev pub AtChar : Lexer → Type 0
AtChar l = is_char_boundary l.source l.current ≡ true

pub record Moves (l l' : Lexer) : Type 0 where
  pub same_source : l'.source ≡ l.source
  pub same_start : l'.start ≡ l.start
  pub forward : l.current ≤ l'.current
  pub lands : AtChar l'

pub Moves-trans : {l m n : Lexer} → Moves l m → Moves m n → Moves l n
Moves-trans a b = record {
  same_source = b.same_source ∙ a.same_source;
  same_start = b.same_start ∙ a.same_start;
  forward = omega (arith, a.forward, b.forward);
  lands = b.lands;
}

pub Moves-refl : (l : Lexer) → AtChar l → Moves l l
Moves-refl l cut = record {
  same_source = refl;
  same_start = refl;
  forward = omega arith;
  lands = cut;
}

pub Moves-within : (l l' : Lexer) → Moves l l' → l'.current ≤ byte_len l.source
Moves-within l l' m =
    omega
      (arith, boundary-le l'.source l'.current m.lands, ap (λ (t : Text). byte_len t) m.same_source)

pub consume-cons :
    (l : Lexer) (c : ℕ) (r : Text)
    → AtChar l
    → remaining_source l ≡ c ∷ r
    → Moves l (consume l)
      × (remaining_source (consume l) ≡ r)
      × ((consume l).current ≡ l.current + len_utf8 c)
unfolding consume
consume-cons l c r cut e =
    let width : first_width (remaining_source l) ≡ len_utf8 c = ap first_width e in
    let (cut', rest) = char_step l.source l.current c r cut e in
    (
      record {
        same_source = refl;
        same_start = refl;
        forward = omega arith;
        lands = rw width cut';
      },
      rw width rest,
      rw width,
    )

-- Two ASCII characters are consumed as two bytes.
pub consume_n-pair :
    (l : Lexer) (x y : ℕ) (r : Text)
    → AtChar l
    → x < 0x80
    → y < 0x80
    → remaining_source l ≡ x ∷ y ∷ r
    → Moves l (consume_n l 2)
      × (remaining_source (consume_n l 2) ≡ r)
      × ((consume_n l 2).current ≡ l.current + 2)
unfolding consume_n
consume_n-pair l x y r cut hx hy e =
    let (m, rest, at) = consume-cons l x (y ∷ r) cut e in
    let (m', rest', at') = consume-cons (consume l) y r m.lands rest in
    let wx = width x hx in
    let wy = width y hy in (Moves-trans m m', rest', omega (arith, at, at', wx, wy))
  where
    width : (c : ℕ) → c < 0x80 → len_utf8 c ≡ 1
    width c h = unfold len_utf8 in ground arith

-- What stands in front of the rest is the slice of its length.
pub slice_here :
    (t : Text) (a : ℕ) (p q : Text) → slice_from t a ≡ p ++ q → slice t a (a + byte_len p) ≡ p
unfolding slice
slice_here t a p q e =
    let n : a + byte_len p - a ≡ byte_len p = omega arith in rw (n, e) (slice_to-append p q)

pub byte_len-slice_from :
    (t : Text) (a : ℕ) → is_char_boundary t a ≡ true → byte_len (slice_from t a) + a ≡ byte_len t
unfolding is_char_boundary slice_from
byte_len-slice_from [] a h = ground arith
byte_len-slice_from (c ∷ t) a h = ground (arith, byte_len-slice_from t (a - len_utf8 c))
