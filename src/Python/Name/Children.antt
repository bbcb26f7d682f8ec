-- ===== src/Python/Name/Children.antt =====
-- The parent and the prefixes of a module name and its children by one segment, in
-- crates/djls-project/src/python/name.rs.
use django_language_server.Base.{
  true, ◌≡◌, refl, sym, ◌==◌, ap, none, some, [], ◌∷◌, ◌++◌, map, append_assoc, arith, Bool-cases,
  inl, inr,
}
use mathlib.Core.List.{map-append}
use mathlib.Core.Path.{subst}
use django_language_server.Base.Text.{Text}
use django_language_server.Python.Name.{
  Letters, before_last_dot, rsplit_dot, before_dots, parent, prefixes, all_words,
  is_python_identifier, exact_child,
}
use django_language_server.Python.Name.Dotted.{Dotted, single, dotted, word_dot, all_words-tail}

rsplit_dot-append :
    (name segment : Text)
    → rsplit_dot segment ≡ none
    → rsplit_dot (name ++ b'.' ∷ segment) ≡ some name
rsplit_dot-append [] segment e = rw e refl
rsplit_dot-append (c ∷ t) segment e = rw (rsplit_dot-append t segment e) refl

before_dots-append :
    (name segment : Text)
    → before_dots segment ≡ []
    → before_dots (name ++ b'.' ∷ segment) ≡ before_dots name ++ name ∷ []
before_dots-append [] segment e = rw e refl
before_dots-append (c ∷ t) segment e =
    let later : map (λ before. c ∷ before) (before_dots (t ++ b'.' ∷ segment))
        ≡ map (λ before. c ∷ before) (before_dots t) ++ (c ∷ t) ∷ [] =
      rw (before_dots-append t segment e)
        (map-append (λ before. c ∷ before) (before_dots t) (t ∷ [])) in
    elim (Bool-cases (c == b'.')) [
      | inl dot ↦ rw (dot, later) refl
      | inr other ↦ rw (other, later) refl
    ]

module _ (letters : Letters) where
  words_rsplit : (s : Text) → all_words letters s ≡ true → rsplit_dot s ≡ none
  words_rsplit [] e = refl
  words_rsplit (c ∷ s) e =
      let (head, tail) = all_words-tail letters c s e in
      rw (words_rsplit s tail, before_last_dot, word_dot letters c head) refl

  words_before : (s : Text) → all_words letters s ≡ true → before_dots s ≡ []
  words_before [] e = refl
  words_before (c ∷ s) e =
      let (head, tail) = all_words-tail letters c s e in
      rw (word_dot letters c head, words_before s tail) refl

  identifier_all : (s : Text) → is_python_identifier letters s ≡ true → all_words letters s ≡ true
  identifier_all [] e = cc
  identifier_all (c ∷ t) e = ground (arith, e)

  Dotted-child :
      (name segment : Text)
      → Dotted letters name
      → is_python_identifier letters segment ≡ true
      → Dotted letters (name ++ b'.' ∷ segment)
  Dotted-child name segment (single s e) h = dotted s segment e (single segment h)
  Dotted-child name segment (dotted s t e rest) h =
      subst (Dotted letters) (sym (append_assoc s (b'.' ∷ t) (b'.' ∷ segment)))
        (dotted s _ e (Dotted-child t segment rest h))

  exact_child-child :
      (name segment child : Text)
      → exact_child letters name segment ≡ some child
      → (is_python_identifier letters segment ≡ true) × (name ++ b'.' ∷ segment ≡ child)
  unfolding exact_child
  exact_child-child name segment child e =
      elim (Bool-cases (is_python_identifier letters segment)) [
        | inl h ↦ let made : some (name ++ b'.' ∷ segment) ≡ some child = rw h at e in (h, cc)
        | inr h ↦ let f : none ≡ some child = rw h at e in cc
      ]

  -- A child by one segment of a name that is made of identifiers joined by dots is such a name
  -- again, its parent is the name, and its prefixes are those of the name and itself.
  pub exact_child_lem :
      (name segment child : Text)
      → Dotted letters name
      → exact_child letters name segment ≡ some child
      → Dotted letters child
        × (parent child ≡ some name)
        × (prefixes child ≡ prefixes name ++ child ∷ [])
  unfolding parent prefixes
  exact_child_lem name segment child shape e =
      let (h, same) = exact_child-child name segment child e in
      let words = identifier_all segment h in
      (
        subst (Dotted letters) same (Dotted-child name segment shape h),
        rw (sym same) (rsplit_dot-append name segment (words_rsplit segment words)),
        ap (λ before. before ++ child ∷ [])
            (rw (sym same) (before_dots-append name segment (words_before segment words))),
      )
