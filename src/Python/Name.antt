-- ===== src/Python/Name.antt =====
-- crates/djls-project/src/python/name.rs: dotted Python module names. Which characters are alphabetic and
-- which numeric is a parameter, with what Unicode says of the dot and of white space.
pub mod Dotted
pub mod Children
mod Tests
use django_language_server.Base.{
  ℕ, Bool, true, false, not, ◌&&◌, ◌||◌, ◌≡◌, ◌==◌, if◌then◌else◌, Option, none, some, List, [],
  ◌∷◌, ◌++◌, last?, any, map,
}
use django_language_server.Base.Result.{Result, ok, err}
use django_language_server.Base.Text.{Text, is_whitespace, trim, starts_with, text}

-- `char::is_alphabetic` and `char::is_numeric`.
pub record Letters : Type 0 where
  pub is_alphabetic : ℕ → Bool
  pub is_numeric : ℕ → Bool
  pub dot : (is_alphabetic b'.' || is_numeric b'.') ≡ false
  pub white : (c : ℕ) → is_whitespace c ≡ true → (is_alphabetic c || is_numeric c) ≡ false

pub data InvalidModuleName : Type 0 where
  empty contains_whitespace starts_with_dot ends_with_dot contains_consecutive_dots :
      InvalidModuleName
  invalid_segment : Text → InvalidModuleName
  must_have_py_extension : InvalidModuleName
  source_path_is_absolute : Text → InvalidModuleName

-- `str::contains`.
abbrev pub contains_text : Text → Text → Bool
contains_text [] p = starts_with [] p
contains_text (c ∷ t) p = starts_with (c ∷ t) p || contains_text t p

abbrev pub is_dot : Option ℕ → Bool
is_dot none = false
is_dot (some c) = c == b'.'

-- `str::split('.')`.
abbrev pub add_first : ℕ → List Text → List Text
add_first c [] = (c ∷ []) ∷ []
add_first c (segment ∷ segments) = (c ∷ segment) ∷ segments

abbrev pub split_dots : Text → List Text
split_dots [] = [] ∷ []
split_dots (c ∷ t) = let rest = split_dots t in if c == b'.' then [] ∷ rest else add_first c rest

-- `str::rsplit_once('.')`: what stands before the last dot.
abbrev pub before_last_dot : ℕ → Option Text → Option Text
before_last_dot c none = if c == b'.' then some [] else none
before_last_dot c (some before) = some (c ∷ before)

abbrev pub rsplit_dot : Text → Option Text
rsplit_dot [] = none
rsplit_dot (c ∷ t) = before_last_dot c (rsplit_dot t)

-- `str::match_indices('.')` with the slice before each match.
abbrev pub before_dots : Text → List Text
before_dots [] = []
before_dots (c ∷ t) =
    let later = map (λ before. c ∷ before) (before_dots t) in
    if c == b'.' then [] ∷ later else later

-- `PythonModuleName::parent`.
unfoldable pub parent : Text → Option Text
parent name = rsplit_dot name

-- `PythonModuleName::prefixes`.
unfoldable pub prefixes : Text → List Text
prefixes name = before_dots name ++ name ∷ []

module _ (letters : Letters) where
  -- `_` or `char::is_alphanumeric`.
  abbrev pub is_word : ℕ → Bool
  is_word c = c == b'_' || (letters.is_alphabetic c || letters.is_numeric c)

  abbrev pub all_words : Text → Bool
  all_words [] = true
  all_words (c ∷ t) = is_word c && all_words t

  abbrev pub is_python_identifier : Text → Bool
  is_python_identifier [] = false
  is_python_identifier (c ∷ t) = (c == b'_' || letters.is_alphabetic c) && all_words t

  -- The loop over the segments: the first that is no identifier.
  abbrev pub invalid_in : List Text → Option Text
  invalid_in [] = none
  invalid_in (segment ∷ segments) =
      let later = invalid_in segments in
      if is_python_identifier segment then later else some segment

  abbrev pub segments_result : Text → Option Text → Result InvalidModuleName Text
  segments_result trimmed none = ok trimmed
  segments_result trimmed (some segment) = err (invalid_segment segment)

  -- `PythonModuleName::parse`, behind the trim.
  abbrev pub parse_trimmed : Text → Result InvalidModuleName Text
  parse_trimmed [] = err empty
  parse_trimmed (c ∷ t) =
      if any is_whitespace (c ∷ t)
      then err contains_whitespace
      else if c == b'.'
      then err starts_with_dot
      else if is_dot (last? (c ∷ t))
      then err ends_with_dot
      else if contains_text (c ∷ t) (text "..")
      then err contains_consecutive_dots
      else segments_result (c ∷ t) (invalid_in (split_dots (c ∷ t)))

  unfoldable pub parse_name : Text → Result InvalidModuleName Text
  unfolding trim
  parse_name name = parse_trimmed (trim name)

  -- `PythonModuleName::exact_child`.
  unfoldable pub exact_child : Text → Text → Option Text
  exact_child name segment =
      if is_python_identifier segment then some (name ++ b'.' ∷ segment) else none
