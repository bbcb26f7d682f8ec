-- ===== src/Semantic/Scoping/Loads/Names.antt =====
-- The names of the libraries that load a symbol, in crates/djls-semantic/src/scoping/loads.rs, are those
-- of the statements in force.
use django_language_server.Base.Bools.{||-false, ||-assoc, &&-true, &&-false}
use django_language_server.Base.{
  ℕ, Bool, true, false, ◌||◌, ◌≡◌, refl, sym, ◌∙◌, some, List, [], ◌∷◌, ◌++◌, map, any, last?,
  Bool-cases, Option-cases, inl, inr,
}
use django_language_server.Base.Search.{partition_point}
use django_language_server.Base.Text.{Text, text_eq}
use django_language_server.Base.Text.Slices.{text_eq_iff}
use django_language_server.Semantic.Scoping.Loads.{
  LoadKind, full_load, selective_import, LoadStatement, take, ends_by, indexed, available_at,
  is_symbol_available, push_new, loading_step, loading, libraries_loading_symbol,
}
use django_language_server.Semantic.Scoping.Loads.Index.{provides}
use django_language_server.Semantic.Scoping.Loads.Availability.{
  offers, InOrder, any-partition, indexed_available,
}

-- The name is among the names.
abbrev pub includes : List Text → Text → Bool
includes names library = any (λ n. text_eq n library) names

any-append {ℓ} :
    {A : Type ℓ} (p : A → Bool) (xs ys : List A) → any p (xs ++ ys) ≡ (any p xs || any p ys)
any-append p [] ys = refl
any-append p (x ∷ xs) ys = rw (any-append p xs ys) (sym (||-assoc (p x) (any p xs) (any p ys)))

any-map {ℓ κ} :
    {A : Type ℓ} {B : Type κ} (p : B → Bool) (f : A → B) (xs : List A)
    → any p (map f xs) ≡ any (λ x. p (f x)) xs
any-map p f [] = refl
any-map p f (x ∷ xs) = rw (any-map p f xs) refl

any-last? {ℓ} :
    {A : Type ℓ} (p : A → Bool) (xs : List A) (x : A)
    → last? xs ≡ some x
    → (any p xs || p x) ≡ any p xs
any-last? p [] x e = cc
any-last? p (a ∷ []) x e = let same : a ≡ x = cc in rw same (twice (p x))
  where
    twice : (b : Bool) → ((b || false) || b) ≡ (b || false)
    twice true = refl
    twice false = refl
any-last? p (a ∷ b ∷ xs) x e =
    ||-assoc (p a) (any p (b ∷ xs)) (p x) ∙ rw (any-last? p (b ∷ xs) x e) refl

includes-push :
    (library name : Text) (names : List Text)
    → includes (names ++ name ∷ []) library ≡ (includes names library || text_eq name library)
includes-push library name names =
    any-append (λ n. text_eq n library) names (name ∷ [])
    ∙ rw (||-false (text_eq name library)) refl

includes-push_new :
    (library name : Text) (names : List Text)
    → includes (push_new name (last? names) names) library
      ≡ (includes names library || text_eq name library)
includes-push_new library name names = elim (Option-cases (last? names)) [
  | inl e ↦ rw e (includes-push library name names)
  | inr (last, e) ↦ elim (Bool-cases (text_eq last name)) [
    | inl same ↦
        let last_name : last ≡ name = (text_eq_iff last name).0 same in
        let at_end : last? names ≡ some name = rw (sym last_name) e in
        rw (e, push_new, same, push_new)
          (sym (any-last? (λ n. text_eq n library) names name at_end))
    | inr other ↦ rw (e, push_new, other, push_new) (includes-push library name names)
  ]
]

includes-loading_step :
    (library symbol : Text) (kind : LoadKind) (names : List Text)
    → includes (loading_step symbol kind names) library
      ≡ (includes names library || provides library symbol kind)
includes-loading_step library symbol (full_load loaded) names =
    any-append (λ n. text_eq n library) names (map (λ a. a.name) loaded)
    ∙ rw (any-map (λ n. text_eq n library) (λ a. a.name) loaded) refl
includes-loading_step library symbol (selective_import symbols from) names =
    elim (Bool-cases (any (λ a. text_eq a.name symbol) symbols)) [
      | inl e ↦
          rw (e, loading_step, &&-true (text_eq from.name library))
            (includes-push_new library from.name names)
      | inr e ↦
          rw (e, loading_step, &&-false (text_eq from.name library))
            (sym (||-false (includes names library)))
    ]

includes-loading :
    (library symbol : Text) (statements : List LoadStatement) (names : List Text)
    → includes (loading symbol statements names) library
      ≡ (includes names library || any (offers library symbol) statements)
includes-loading library symbol [] names = sym (||-false (includes names library))
includes-loading library symbol (s ∷ statements) names =
    includes-loading library symbol statements (loading_step symbol s.kind names)
    ∙ rw (includes-loading_step library symbol s.kind names) (
        ||-assoc (includes names library) (offers library symbol s)
          (any (offers library symbol) statements))

-- At an offset, over load statements in order of their ends, `libraries_loading_symbol` names exactly
-- the libraries for which `is_symbol_available` holds.
pub libraries_loading_symbol_lem :
    (statements : List LoadStatement) (position : ℕ) (library symbol : Text)
    → InOrder statements
    → let state = available_at (indexed statements) position in
      includes (libraries_loading_symbol state symbol) library
      ≡ is_symbol_available state library symbol
unfolding libraries_loading_symbol available_at indexed
libraries_loading_symbol_lem statements position library symbol ordered =
    includes-loading library symbol
      (take (partition_point (ends_by position) statements) statements) []
    ∙ any-partition position (offers library symbol) statements ordered
    ∙ sym (indexed_available statements position library symbol ordered)
