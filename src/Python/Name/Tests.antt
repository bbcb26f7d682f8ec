-- ===== src/Python/Name/Tests.antt =====
-- Module names of crates/djls-project/src/python/name.rs, with the letters and digits of ASCII.
use django_language_server.Base.{◌||◌, ◌&&◌, ◌≡◌, ◌↔◌, refl, leb, some, [], ◌∷◌, ◌++◌, arith}
use django_language_server.Base.Result.{ok, err}
use django_language_server.Base.Text.{text, trim, is_whitespace, starts_with}
use django_language_server.Python.Name.{
  Letters, InvalidModuleName, parse_name, exact_child, parent, prefixes,
}
use django_language_server.Python.Name.Dotted.{Dotted, single, dotted, parse_name_iff}
use django_language_server.Python.Name.Children.{exact_child_lem}

abbrev ascii : Letters
unfolding is_whitespace
ascii = record {
  is_alphabetic = λ c. leb b'a' c && leb c b'z' || leb b'A' c && leb c b'Z';
  is_numeric = λ c. leb b'0' c && leb c b'9';
  dot = refl;
  white = λ c e. ground (arith, e);
}

trims : parse_name ascii (text " app.models ") ≡ ok (text "app.models")
unfolding parse_name trim starts_with
trims = refl

consecutive :
    parse_name ascii (text "app..models") ≡ err InvalidModuleName.contains_consecutive_dots
unfolding parse_name trim starts_with
consecutive = refl

starts_with_digit :
    parse_name ascii (text "app.2") ≡ err (InvalidModuleName.invalid_segment (text "2"))
unfolding parse_name trim starts_with
starts_with_digit = refl

prefixes_of_two : prefixes (text "app.models") ≡ text "app" ∷ text "app.models" ∷ []
unfolding prefixes
prefixes_of_two = refl

parse_name_iff_example :
    (parse_name ascii (text " app.models ") ≡ ok (text "app.models"))
    ↔ ((trim (text " app.models ") ≡ text "app.models") × Dotted ascii (text "app.models"))
parse_name_iff_example = parse_name_iff ascii (text " app.models ") (text "app.models")

exact_child_lem_example :
    Dotted ascii (text "app.models.fields")
    × (parent (text "app.models.fields") ≡ some (text "app.models"))
    × (prefixes (text "app.models.fields")
        ≡ prefixes (text "app.models") ++ text "app.models.fields" ∷ [])
unfolding exact_child ascii
exact_child_lem_example =
    exact_child_lem ascii (text "app.models") (text "fields") (text "app.models.fields")
      (dotted (text "app") (text "models") refl (single (text "models") refl)) refl
