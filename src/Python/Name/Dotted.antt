-- ===== src/Python/Name/Dotted.antt =====
-- The names that crates/djls-project/src/python/name.rs accepts: identifiers joined by dots.
use django_language_server.Base.{
  ℕ, true, false, ◌≡◌, ◌↔◌, refl, ◌∙◌, ◌==◌, ==_iff, Option, none, some, List, [], ◌∷◌, ◌++◌, last?,
  any, arith, Bool-cases, inl, inr,
}
use mathlib.Core.Path.{subst}
use django_language_server.Base.Result.{ok, err}
use django_language_server.Base.Text.{Text, is_whitespace, trim, starts_with, text}
use django_language_server.Python.Name.{
  Letters, contains_whitespace, starts_with_dot, ends_with_dot, contains_consecutive_dots,
  contains_text, is_dot, split_dots, is_word, all_words, is_python_identifier, invalid_in,
  segments_result, parse_trimmed, parse_name,
}

module _ (letters : Letters) where
  -- One identifier, or an identifier, a dot and a dotted name.
  pub data Dotted : Text → Type 0 where
    single : (s : Text) → is_python_identifier letters s ≡ true → Dotted s
    dotted :
        (s t : Text) → is_python_identifier letters s ≡ true → Dotted t → Dotted (s ++ b'.' ∷ t)

  -- Segments joined by dots.
  abbrev join : List Text → Text
  join [] = []
  join (s ∷ []) = s
  join (s ∷ t ∷ segments) = s ++ b'.' ∷ join (t ∷ segments)

  join-add_first :
      (c : ℕ) (s : Text) (segments : List Text)
      → join ((c ∷ s) ∷ segments) ≡ c ∷ join (s ∷ segments)
  join-add_first c s [] = refl
  join-add_first c s (t ∷ segments) = refl

  -- A text is its segments, of which there is one at least.
  split_dots-join :
      (t : Text)
      → (s : Text) × (segments : List Text) × (split_dots t ≡ s ∷ segments)
        × (join (s ∷ segments) ≡ t)
  split_dots-join [] = ([], [], refl, refl)
  split_dots-join (c ∷ t) =
      let (s, segments, split, joined) = split_dots-join t in
      elim (Bool-cases (c == b'.')) [
        | inl dot ↦
            let same : c ≡ b'.' = (==_iff c b'.').0 dot in
            ([], s ∷ segments, rw (dot, split_dots, split) refl, rw (joined, same) refl)
        | inr other ↦ (
          c ∷ s,
          segments,
          rw (other, split_dots, split) refl,
          join-add_first c s segments ∙ rw joined refl,
        )
      ]

  invalid_in-none :
      (s : Text) (segments : List Text)
      → invalid_in letters (s ∷ segments) ≡ none
      → Dotted (join (s ∷ segments))
  invalid_in-none s [] e = elim (Bool-cases (is_python_identifier letters s)) [
    | inl h ↦ single s h
    | inr h ↦ let f : some s ≡ none = rw (h, invalid_in) at e in cc
  ]
  invalid_in-none s (t ∷ segments) e = elim (Bool-cases (is_python_identifier letters s)) [
    | inl h ↦ dotted s _ h (invalid_in-none t segments (rw (h, invalid_in) at e))
    | inr h ↦ let f : some s ≡ none = rw (h, invalid_in) at e in cc
  ]

  -- A word character is no dot and no white space.
  pub word_dot : (c : ℕ) → is_word letters c ≡ true → (c == b'.') ≡ false
  word_dot c e = elim (Bool-cases (c == b'.')) [
    | inl dot ↦
        let same : c ≡ b'.' = (==_iff c b'.').0 dot in
        let at_dot : is_word letters b'.' ≡ true = rw same at e in let law = letters.dot in cc
    | inr other ↦ other
  ]

  word_white : (c : ℕ) → is_word letters c ≡ true → is_whitespace c ≡ false
  unfolding is_whitespace
  word_white c e = elim (Bool-cases (is_whitespace c)) [
    | inl white ↦ let law = letters.white c white in ground (arith, law, e, white)
    | inr other ↦ other
  ]

  identifier_words :
      (s : Text)
      → is_python_identifier letters s ≡ true
      → (c : ℕ) × (t : Text) × (s ≡ c ∷ t)
        × (is_word letters c ≡ true)
        × (all_words letters t ≡ true)
  identifier_words [] e = cc
  identifier_words (c ∷ t) e = (c, t, refl, ground (arith, e), ground (arith, e))

  -- What the checks of `parse` ask.
  record Passes (t : Text) : Type 0 where
    no_white : any is_whitespace t ≡ false
    first : ℕ
    rest : Text
    begins : t ≡ first ∷ rest
    first_word : is_word letters first ≡ true
    no_last_dot : is_dot (last? t) ≡ false
    no_dots : contains_text t (text "..") ≡ false
    valid : invalid_in letters (split_dots t) ≡ none

  pub all_words-tail :
      (c : ℕ) (t : Text)
      → all_words letters (c ∷ t) ≡ true
      → (is_word letters c ≡ true) × (all_words letters t ≡ true)
  all_words-tail c t e = (ground (arith, e), ground (arith, e))

  words_no_white :
      (s u : Text) → all_words letters s ≡ true → any is_whitespace (s ++ u) ≡ any is_whitespace u
  words_no_white [] u e = refl
  words_no_white (c ∷ s) u e =
      let (head, tail) = all_words-tail c s e in rw (word_white c head) (words_no_white s u tail)

  words_white : (s : Text) → all_words letters s ≡ true → any is_whitespace s ≡ false
  words_white [] e = refl
  words_white (c ∷ s) e =
      let (head, tail) = all_words-tail c s e in rw (word_white c head) (words_white s tail)

  words_dots : (s : Text) → all_words letters s ≡ true → contains_text s (text "..") ≡ false
  unfolding starts_with
  words_dots [] e = refl
  words_dots (c ∷ s) e =
      let (head, tail) = all_words-tail c s e in rw (word_dot c head) (words_dots s tail)

  words_no_dots :
      (s u : Text)
      → all_words letters s ≡ true
      → contains_text (s ++ u) (text "..") ≡ contains_text u (text "..")
  unfolding starts_with
  words_no_dots [] u e = refl
  words_no_dots (c ∷ s) u e =
      let (head, tail) = all_words-tail c s e in rw (word_dot c head) (words_no_dots s u tail)

  words_split : (s : Text) → all_words letters s ≡ true → split_dots s ≡ s ∷ []
  words_split [] e = refl
  words_split (c ∷ s) e =
      let (head, tail) = all_words-tail c s e in
      rw (word_dot c head, split_dots, words_split s tail) refl

  words_split_dot :
      (s t : Text) → all_words letters s ≡ true → split_dots (s ++ b'.' ∷ t) ≡ s ∷ split_dots t
  words_split_dot [] t e = refl
  words_split_dot (c ∷ s) t e =
      let (head, tail) = all_words-tail c s e in
      rw (word_dot c head, split_dots, words_split_dot s t tail) refl

  words_last :
      (c : ℕ) (s : Text) → all_words letters (c ∷ s) ≡ true → is_dot (last? (c ∷ s)) ≡ false
  words_last c [] e = word_dot c (all_words-tail c [] e).0
  words_last c (d ∷ s) e = words_last d s (all_words-tail c (d ∷ s) e).1

  last?-append : (s : Text) (x y : ℕ) (u : Text) → last? (s ++ x ∷ y ∷ u) ≡ last? (y ∷ u)
  last?-append [] x y u = refl
  last?-append (a ∷ []) x y u = refl
  last?-append (a ∷ b ∷ s) x y u = last?-append (b ∷ s) x y u

  same_head :
      (d : ℕ) (u : Text) (c : ℕ) (t : Text)
      → c ∷ t ≡ d ∷ u
      → is_word letters d ≡ true
      → is_word letters c ≡ true
  same_head d u c t e word = let same : c ≡ d = cc in rw same word

  dot_no_dots : (t : Text) → Passes t → contains_text (b'.' ∷ t) (text "..") ≡ false
  unfolding starts_with
  dot_no_dots [] passes = passes.no_dots
  dot_no_dots (c ∷ t) passes =
      let same : c ∷ t ≡ passes.first ∷ passes.rest = passes.begins in
      let head : is_word letters c ≡ true =
        same_head passes.first passes.rest c t same passes.first_word in
      rw (word_dot c head) (rw (word_dot c head) at passes.no_dots)

  identifier-Passes : (s : Text) → is_python_identifier letters s ≡ true → Passes s
  unfolding starts_with
  identifier-Passes [] e = cc
  identifier-Passes (c ∷ s) e =
      let head : is_word letters c ≡ true = ground (arith, e) in
      let words : all_words letters (c ∷ s) ≡ true = ground (arith, e) in
      record {
        no_white = words_white (c ∷ s) words;
        first = c;
        rest = s;
        begins = refl;
        first_word = head;
        no_last_dot = words_last c s words;
        no_dots = words_dots (c ∷ s) words;
        valid = rw (words_split (c ∷ s) words, e) refl;
      }

  dotted-Passes :
      (s t : Text) → is_python_identifier letters s ≡ true → Passes t → Passes (s ++ b'.' ∷ t)
  unfolding starts_with is_whitespace
  dotted-Passes [] t e passes = cc
  dotted-Passes (c ∷ s) t e passes =
      let head : is_word letters c ≡ true = ground (arith, e) in
      let words : all_words letters (c ∷ s) ≡ true = ground (arith, e) in
      let last_word : is_dot (last? (passes.first ∷ passes.rest)) ≡ false =
        rw passes.begins at passes.no_last_dot in
      record {
        no_white = words_no_white (c ∷ s) (b'.' ∷ t) words ∙ passes.no_white;
        first = c;
        rest = s ++ b'.' ∷ t;
        begins = refl;
        first_word = head;
        no_last_dot =
            rw passes.begins (rw (last?-append (c ∷ s) b'.' passes.first passes.rest) last_word);
        no_dots = words_no_dots (c ∷ s) (b'.' ∷ t) words ∙ dot_no_dots t passes;
        valid = rw (words_split_dot (c ∷ s) t words, e) passes.valid;
      }

  Dotted-Passes : (t : Text) → Dotted t → Passes t
  Dotted-Passes t (single s e) = identifier-Passes s e
  Dotted-Passes t (dotted s u e rest) = dotted-Passes s u e (Dotted-Passes u rest)

  -- A text that passes is accepted as it is.
  Passes-parse_trimmed : (t : Text) → Passes t → parse_trimmed letters t ≡ ok t
  Passes-parse_trimmed [] passes = let e = passes.begins in cc
  Passes-parse_trimmed (c ∷ t) passes =
      let word = same_head passes.first passes.rest c t passes.begins passes.first_word in
      let valid = rw (word_dot c word, split_dots) at passes.valid in
      rw (passes.no_white, word_dot c word, passes.no_last_dot, passes.no_dots, valid) refl

  segments_result-ok :
      (t m : Text) (invalid : Option Text)
      → segments_result letters t invalid ≡ ok m
      → (t ≡ m) × (invalid ≡ none)
  segments_result-ok t m none e = (cc, refl)
  segments_result-ok t m (some segment) e = cc

  -- What is accepted has passed the checks that stand before its segments.
  reached :
      (c : ℕ) (t m : Text)
      → parse_trimmed letters (c ∷ t) ≡ ok m
      → segments_result letters (c ∷ t) (invalid_in letters (split_dots (c ∷ t))) ≡ ok m
  reached c t m e = elim (Bool-cases (any is_whitespace (c ∷ t))) [
    | inl white ↦ let f : err contains_whitespace ≡ ok m = rw white at e in cc
    | inr plain ↦ elim (Bool-cases (c == b'.')) [
      | inl dot ↦ let f : err starts_with_dot ≡ ok m = rw (plain, dot) at e in cc
      | inr word ↦ elim (Bool-cases (is_dot (last? (c ∷ t)))) [
        | inl dot ↦ let f : err ends_with_dot ≡ ok m = rw (plain, word, dot) at e in cc
        | inr last ↦ elim (Bool-cases (contains_text (c ∷ t) (text ".."))) [
          | inl dots ↦
              let f : err contains_consecutive_dots ≡ ok m = rw (plain, word, last, dots) at e in cc
          | inr dots ↦ rw (word, split_dots) (rw (plain, word, last, dots, split_dots) at e)
        ]
      ]
    ]
  ]

  valid-Dotted :
      (t s : Text) (segments : List Text)
      → split_dots t ≡ s ∷ segments
      → join (s ∷ segments) ≡ t
      → invalid_in letters (split_dots t) ≡ none
      → Dotted t
  valid-Dotted t s segments split joined valid =
      subst Dotted joined (invalid_in-none s segments (rw split at valid))

  parse_trimmed-Dotted : (t m : Text) → parse_trimmed letters t ≡ ok m → (t ≡ m) × Dotted m
  parse_trimmed-Dotted [] m e = cc
  parse_trimmed-Dotted (c ∷ t) m e =
      let checked : segments_result letters (c ∷ t) (invalid_in letters (split_dots (c ∷ t)))
          ≡ ok m =
        reached c t m e in
      let (same, valid) = segments_result-ok (c ∷ t) m _ checked in
      let (s, segments, split, joined) = split_dots-join (c ∷ t) in
      (same, subst Dotted same (valid-Dotted (c ∷ t) s segments split joined valid))

  -- A name is accepted exactly when it is, trimmed, one or more identifiers joined by dots: the
  -- name that is made is then the trimmed text.
  pub parse_name_iff :
      (name m : Text) → (parse_name letters name ≡ ok m) ↔ ((trim name ≡ m) × Dotted m)
  unfolding parse_name
  parse_name_iff name m = (
    λ e. parse_trimmed-Dotted (trim name) m e,
    λ (same, shape). rw same (Passes-parse_trimmed m (Dotted-Passes m shape)),
  )
