-- ===== src/Semantic/Scoping/Cache/Tests.antt =====
-- The cache of crates/djls-semantic/src/scoping.rs at concrete lookups.
use django_language_server.Base.{ℕ, ◌≡◌, ◌+◌, List, [], ◌∷◌, map}
use django_language_server.Base.Text.{Text, text, byte_len}
use django_language_server.Semantic.Scoping.Cache.{resolve_all, resolve_all_lem}

-- A fact for each prefix and name.
abbrev facts : ℕ → Text → ℕ
facts count name = count + byte_len name

abbrev lookups : List (ℕ × Text)
lookups = (0, text "url") ∷ (1, text "url") ∷ (0, text "url") ∷ []

resolve_all_lem_example :
    resolve_all facts [] lookups ≡ map (λ (count, name). facts count name) lookups
resolve_all_lem_example = resolve_all_lem facts lookups
