-- ===== src/Templates/Parser/TagArgs.antt =====
-- When `parse_tag_args` of crates/djls-templates/src/parser.rs finds a tag empty.
use django_language_server.Base.{
  ℕ, ◌≡◌, ◌≢◌, ◌↔◌, refl, sym, true, List, [], ◌∷◌, ◌++◌, All, append-nil,
}
use django_language_server.Base.Result.{err}
use django_language_server.Base.Text.{Text, is_whitespace}
use django_language_server.Templates.Quotes.{State, Segment, split_on_unquoted_whitespace}
use django_language_server.Templates.Quotes.Words.{
  Words, done, blank, word, last, IsSolid, split_on_unquoted_whitespace-Words,
}
use django_language_server.Templates.Nodes.{empty_tag}
use django_language_server.Templates.Parser.{parse_tag_args, tag_args}

abbrev pub IsBlank : Text → Type 0
IsBlank t = All (λ c. is_whitespace c ≡ true) t

-- A solid text that is not empty starts with no whitespace.
solid_start : (s rest : Text) → s ≢ [] → IsSolid State.outside s → IsBlank (s ++ rest) → ⊥
solid_start [] rest some_text solid blanks = some_text refl
solid_start (c ∷ s) rest some_text solid blanks = cc (solid.0 refl, blanks.0)

Words-IsBlank :
    {o : ℕ} {t : Text} {segments : List Segment} → Words o t segments → (segments ≡ []) ↔ IsBlank t
Words-IsBlank done = (λ e. tt, λ h. refl)
Words-IsBlank (blank w t white later) =
    let both = Words-IsBlank later in (λ e. (white, both.0 e), λ h. both.1 h.1)
Words-IsBlank (word s w rest split some_text solid out white later) =
    (λ e. cc, λ h. absurd (solid_start s (w ∷ rest) some_text solid (rw split at h)))
Words-IsBlank (last {s = s} some_text solid) =
    (λ e. cc, λ h. absurd (solid_start s [] some_text solid (rw (sym (append-nil s)) at h)))

tag_args_lem :
    (position : ℕ) (segments : List Segment)
    → (tag_args position segments ≡ err (empty_tag position)) ↔ (segments ≡ [])
tag_args_lem position [] = (λ e. refl, λ e. refl)
tag_args_lem position (name ∷ rest) = (λ e. cc, λ e. cc)

-- The content of a tag is refused, as an empty tag at its position, exactly where it holds nothing but
-- whitespace.
pub parse_tag_args_lem :
    (content : Text) (position : ℕ)
    → (parse_tag_args content position ≡ err (empty_tag position)) ↔ IsBlank content
unfolding parse_tag_args
parse_tag_args_lem content position =
    let args = tag_args_lem position (split_on_unquoted_whitespace content) in
    let words = Words-IsBlank (split_on_unquoted_whitespace-Words content) in
    (λ e. words.0 (args.0 e), λ h. args.1 (words.1 h))
