-- ===== src/Templates/Quotes/Scan.antt =====
-- The scan of crates/djls-templates/src/quotes.rs for the next delimiter outside quotes.
use django_language_server.Base.{
  ℕ, ◌+◌, true, false, ◌==◌, ◌≡◌, refl, sym, ap, Option, none, some, [], ◌∷◌, ◌++◌, arith,
  Bool-cases, inl, inr, ◌⊎◌, ◌&&◌,
}
use django_language_server.Base.Text.{Text, byte_len, len_utf8}
use django_language_server.Templates.Quotes.{State, is_outside, feed, DelimiterIndices, next_loop}

-- The state behind a text.
abbrev pub run : State → Text → State
run state [] = state
run state (c ∷ t) = run (feed state c) t

-- No delimiter of the text stands outside quotes.
abbrev pub IsClean : ℕ → State → Text → Type 0
IsClean delimiter state t = (p q : Text) → t ≡ p ++ delimiter ∷ q → run state p ≡ State.outside → ⊥

-- What a scan gives: the text up to the first delimiter outside quotes, and the iterator behind it.
pub data Scans (t : Text) (b : ℕ) (d : DelimiterIndices)
    : Option ℕ × DelimiterIndices → Type 0 where
  missed :
      {d' : DelimiterIndices}
      → d'.input ≡ d.input
      → IsClean d.delimiter d.state t
      → Scans t b d (none, d')
  found :
      {i : ℕ} {d' : DelimiterIndices} (p q : Text)
      → t ≡ p ++ d.delimiter ∷ q
      → i ≡ b + byte_len p
      → run d.state p ≡ State.outside
      → IsClean d.delimiter d.state p
      → d'.input ≡ d.input
      → d'.delimiter ≡ d.delimiter
      → d'.cursor ≡ i + len_utf8 d.delimiter
      → d'.state ≡ State.outside
      → Scans t b d (some i, d')

is_outside_lem : (s : State) → is_outside s ≡ true → s ≡ State.outside
is_outside_lem State.outside e = refl
is_outside_lem (State.quoted q) e = cc
is_outside_lem (State.escaped q) e = cc

IsClean-nil : (delimiter : ℕ) (s : State) → IsClean delimiter s []
IsClean-nil delimiter s [] q e out = cc
IsClean-nil delimiter s (c ∷ p) q e out = cc

IsClean-cons :
    (delimiter : ℕ) (s : State) (c : ℕ) (t : Text)
    → (is_outside s && c == delimiter) ≡ false
    → IsClean delimiter (feed s c) t
    → IsClean delimiter s (c ∷ t)
IsClean-cons delimiter s c t past clean [] q e out =
    let head : c ≡ delimiter = cc in ground (arith, rw (out, head) at past)
IsClean-cons delimiter s c t past clean (x ∷ p) q e out =
    let head : c ≡ x = cc in
    let tail : t ≡ p ++ delimiter ∷ q = cc in clean p q tail (rw (sym head) at out)

is_match :
    (s : State) (c delimiter : ℕ)
    → (is_outside s && c == delimiter) ≡ true
    → (s ≡ State.outside) × (c ≡ delimiter)
is_match State.outside c delimiter e = ground arith
is_match (State.quoted q) c delimiter e = cc
is_match (State.escaped q) c delimiter e = cc

Scans-cons :
    (c : ℕ) (t : Text) (b : ℕ) (d : DelimiterIndices) (r : Option ℕ × DelimiterIndices)
    → (is_outside d.state && c == d.delimiter) ≡ false
    → Scans t (b + len_utf8 c) (record d { cursor = b + len_utf8 c; state = feed d.state c }) r
    → Scans (c ∷ t) b d r
Scans-cons c t b d r past (missed same clean) =
    missed same (IsClean-cons d.delimiter d.state c t past clean)
Scans-cons c t b d r past (found p q split at out clean same same_delimiter next_cursor reset) =
    found (c ∷ p) q (ap (λ (s : Text). c ∷ s) split) (omega (arith, at)) out
      (IsClean-cons d.delimiter d.state c p past clean) same same_delimiter next_cursor reset

pub next_loop-Scans : (t : Text) (b : ℕ) (d : DelimiterIndices) → Scans t b d (next_loop t b d)
unfolding next_loop
next_loop-Scans [] b d = missed refl (IsClean-nil d.delimiter d.state)
next_loop-Scans (c ∷ t) b d = elim (Bool-cases (is_outside d.state && c == d.delimiter)) [
  | inl here ↦
      let (out, hit) = is_match d.state c d.delimiter here in
      rw (here, next_loop)
        (found [] t (ap (λ (x : ℕ). x ∷ t) hit) (omega arith) out (IsClean-nil d.delimiter d.state)
          refl refl (ap (λ (x : ℕ). b + len_utf8 x) hit) out)
  | inr past ↦
      rw (past, next_loop)
        (Scans-cons c t b d
          (next_loop t (b + len_utf8 c)
            (record d { cursor = b + len_utf8 c; state = feed d.state c }))
          past
          (next_loop-Scans t (b + len_utf8 c)
            (record d { cursor = b + len_utf8 c; state = feed d.state c })))
]

pub record Found (t : Text) (b : ℕ) (d : DelimiterIndices) (r : Option ℕ × DelimiterIndices)
    : Type 0 where
  pub front : Text
  pub back : Text
  pub split : t ≡ front ++ d.delimiter ∷ back
  pub index : r.0 ≡ some (b + byte_len front)
  pub out : run d.state front ≡ State.outside
  pub clean : IsClean d.delimiter d.state front
  pub same : (r.1).input ≡ d.input
  pub same_delimiter : (r.1).delimiter ≡ d.delimiter
  pub cursor : (r.1).cursor ≡ b + byte_len front + len_utf8 d.delimiter
  pub reset : (r.1).state ≡ State.outside

pub Scans-cases :
    {t : Text} {b : ℕ} {d : DelimiterIndices} {r : Option ℕ × DelimiterIndices}
    → Scans t b d r
    → ((r.0 ≡ none) × ((r.1).input ≡ d.input) × IsClean d.delimiter d.state t) ⊎ Found t b d r
Scans-cases (missed same clean) = inl (refl, same, clean)
Scans-cases (found p q split at out clean same same_delimiter next_cursor reset) = inr (record {
  front = p;
  back = q;
  split = split;
  index = ap some at;
  out = out;
  clean = clean;
  same = same;
  same_delimiter = same_delimiter;
  cursor = rw (sym at) next_cursor;
  reset = reset;
})
