-- ===== src/Templates/Quotes/Words.antt =====
-- The split at whitespace of crates/djls-templates/src/quotes.rs.
use django_language_server.Base.{
  ℕ, ◌+◌, true, false, ◌&&◌, ◌≡◌, ◌≢◌, refl, sym, ap, ◌∙◌, Option, none, some, List, [], ◌∷◌, ◌++◌,
  arith, append_assoc, append-nil, inl, inr, ◌⊎◌, Bool-cases, unwrap_or,
}
use django_language_server.Base.Text.{Text, byte_len, len_utf8, slice, slice_from, is_whitespace}
use django_language_server.Base.Text.Slices.{byte_len-append, slice_from-append, slice_middle}
use django_language_server.Templates.Quotes.Split.{cut_before}
use django_language_server.Templates.Quotes.{
  State, is_outside, feed_escaped, Segment, segment_of, words_loop, take_segment,
  split_on_unquoted_whitespace,
}

-- The state behind a text, where a backslash in quotes keeps the next character from ending them.
abbrev pub run_escaped : State → Text → State
run_escaped state [] = state
run_escaped state (c ∷ t) = run_escaped (feed_escaped state c) t

-- No whitespace of the text stands outside quotes.
abbrev pub IsSolid : State → Text → Type 0
IsSolid state [] = Unit
IsSolid state (c ∷ t) =
    (state ≡ State.outside → is_whitespace c ≡ false) × IsSolid (feed_escaped state c) t

-- Segments that the text from offset `o` on splits into at the whitespace outside quotes.
pub data Words : ℕ → Text → List Segment → Type 0 where
  done : {o : ℕ} → Words o [] []
  blank :
      {o : ℕ} {segments : List Segment} (w : ℕ) (t : Text)
      → is_whitespace w ≡ true
      → Words (o + len_utf8 w) t segments
      → Words o (w ∷ t) segments
  word :
      {o : ℕ} {t : Text} {segments : List Segment} (s : Text) (w : ℕ) (rest : Text)
      → t ≡ s ++ w ∷ rest
      → s ≢ []
      → IsSolid State.outside s
      → run_escaped State.outside s ≡ State.outside
      → is_whitespace w ≡ true
      → Words (o + byte_len s + len_utf8 w) rest segments
      → Words o t (segment_of s o ∷ segments)
  last : {o : ℕ} {s : Text} → s ≢ [] → IsSolid State.outside s → Words o s (segment_of s o ∷ [])

run-snoc :
    (s : State) (t : Text) (c : ℕ) → run_escaped s (t ++ c ∷ []) ≡ feed_escaped (run_escaped s t) c
run-snoc s [] c = refl
run-snoc s (x ∷ t) c = run-snoc (feed_escaped s x) t c

-- A character that is not whitespace outside quotes keeps the text solid.
IsSolid-snoc :
    (s : State) (t : Text) (c : ℕ)
    → IsSolid s t
    → (is_outside (run_escaped s t) && is_whitespace c) ≡ false
    → IsSolid s (t ++ c ∷ [])
IsSolid-snoc s [] c solid past = (λ out. rw out at past, tt)
IsSolid-snoc s (x ∷ t) c (first, solid) past =
    (first, IsSolid-snoc (feed_escaped s x) t c solid past)

snoc-ne : (t : Text) (c : ℕ) → t ++ c ∷ [] ≢ []
snoc-ne [] c e = cc
snoc-ne (x ∷ t) c e = cc

ends_word :
    (s : State) (c : ℕ)
    → (is_outside s && is_whitespace c) ≡ true
    → (s ≡ State.outside) × (is_whitespace c ≡ true)
ends_word State.outside c e = (refl, e)
ends_word (State.quoted q) c e = cc
ends_word (State.escaped q) c e = cc

byte_len-snoc : (t : Text) (c : ℕ) → byte_len (t ++ c ∷ []) ≡ byte_len t + len_utf8 c
byte_len-snoc t c = omega (arith, byte_len-append t (c ∷ []))

-- The loop stands between two segments, or in a segment `s` that is open.
abbrev IsOpen : Text → Text → Option ℕ → State → Type 0
IsOpen before s start state =
    ((s ≡ []) × (start ≡ none) × (state ≡ State.outside))
    ⊎ ((s ≢ [])
        × (start ≡ some (byte_len before))
        × IsSolid State.outside s
        × (run_escaped State.outside s ≡ state))

-- The next character goes to the open segment, or opens one.
IsOpen-snoc :
    (before s : Text) (c : ℕ) (start : Option ℕ) (state : State)
    → IsOpen before s start state
    → (is_outside state && is_whitespace c) ≡ false
    → IsOpen before
        (s ++ c ∷ [])
        (some (unwrap_or start (byte_len before + byte_len s)))
        (feed_escaped state c)
IsOpen-snoc before s c start state (inl (empty, no_start, out)) past =
    let at : byte_len before + 0 ≡ byte_len before = omega arith in
    rw (empty, no_start, out) (inr (snoc-ne [] c, ap some at, (λ o. rw out at past, tt), refl))
IsOpen-snoc before s c start state (inr (some_text, begun, solid, at)) past = rw begun (
    inr (
      snoc-ne s c,
      refl,
      IsSolid-snoc State.outside s c solid (rw at past),
      run-snoc State.outside s c ∙ ap (λ (u : State). feed_escaped u c) at,
    ))

-- At whitespace outside quotes the open segment ends.
take_word :
    (before s rest input : Text) (c : ℕ) (start : Option ℕ) (state : State) (later : List Segment)
    → input ≡ before ++ (s ++ c ∷ rest)
    → IsOpen before s start state
    → (is_outside state && is_whitespace c) ≡ true
    → Words (byte_len before + byte_len s + len_utf8 c) rest later
    → Words
        (byte_len before)
        (s ++ c ∷ rest)
        (take_segment input start (byte_len before + byte_len s) ++ later)
take_word before s rest input c start state later same (inl (empty, no_start, out)) space words =
    let at : byte_len before + 0 + len_utf8 c ≡ byte_len before + len_utf8 c = omega arith in
    rw (empty, no_start) (blank c rest (ends_word state c space).1 (rw (empty, at) at words))
take_word before s rest input c start state later same (inr (some_text, begun, solid, at)) space
      words =
    let (out, white) = ends_word state c space in
    let piece : slice input (byte_len before) (byte_len before + byte_len s) ≡ s =
      rw same (slice_middle before s (c ∷ rest)) in
    rw (begun, take_segment, piece) (word s c rest refl some_text solid (at ∙ out) white words)

words_loop-Words :
    (rest before s input : Text) (start : Option ℕ) (state : State)
    → input ≡ before ++ (s ++ rest)
    → IsOpen before s start state
    → Words
        (byte_len before)
        (s ++ rest)
        (words_loop rest (byte_len before + byte_len s) input start state)
unfolding words_loop
words_loop-Words [] before s input start state same (inl (empty, no_start, out)) =
    rw (empty, no_start) done
words_loop-Words [] before s input start state same (inr (some_text, begun, solid, at)) =
    let tail : slice_from input (byte_len before) ≡ s =
      rw (same, append-nil s) (slice_from-append before s) in
    rw (begun, words_loop, tail, append-nil s) (last some_text solid)
words_loop-Words (c ∷ rest) before s input start state same here =
    elim (Bool-cases (is_outside state && is_whitespace c)) [
      | inl space ↦
          let (split, len) = cut_before before s rest c in
          let out = (ends_word state c space).0 in
          let next : byte_len (before ++ (s ++ c ∷ [])) + 0
              ≡ byte_len before + byte_len s + len_utf8 c =
            omega (arith, len) in
          let later =
            words_loop-Words rest (before ++ (s ++ c ∷ [])) [] input none state (same ∙ split)
              (inl (refl, refl, out)) in
          rw (space, words_loop)
            (take_word before s rest input c start state
              (words_loop rest (byte_len before + byte_len s + len_utf8 c) input none state) same
              here space (rw (next, len) at later))
      | inr past ↦
          let moved : input ≡ before ++ ((s ++ c ∷ []) ++ rest) =
            same ∙ ap (λ (u : Text). before ++ u) (sym (append_assoc s (c ∷ []) rest)) in
          let later =
            words_loop-Words rest before (s ++ c ∷ []) input
              (some (unwrap_or start (byte_len before + byte_len s))) (feed_escaped state c) moved
              (IsOpen-snoc before s c start state here past) in
          let len : byte_len before + byte_len (s ++ c ∷ [])
              ≡ byte_len before + byte_len s + len_utf8 c =
            omega (arith, byte_len-append s (c ∷ [])) in
          rw (past, words_loop) (rw (len, append_assoc s (c ∷ []) rest) at later)
    ]

-- A split at whitespace cuts the input at all whitespace outside quotes and nowhere else: the segments
-- are not empty, hold no whitespace outside quotes, come in order with their offsets, and between two
-- of them stands nothing but whitespace. A backslash in quotes escapes the next character.
pub split_on_unquoted_whitespace-Words :
    (input : Text) → Words 0 input (split_on_unquoted_whitespace input)
unfolding split_on_unquoted_whitespace
split_on_unquoted_whitespace-Words input =
    words_loop-Words input [] [] input none State.outside refl (inl (refl, refl, refl))
