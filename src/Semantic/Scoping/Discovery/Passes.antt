-- ===== src/Semantic/Scoping/Discovery/Passes.antt =====
-- What the passes of crates/djls-semantic/src/scoping.rs come to.
use django_language_server.Base.{ℕ, suc, ◌<◌, ◌≤◌, ◌≡◌, ◌≢◌, ◌⊎◌, some, List, []}
use django_language_server.Templates.Nodes.{Node}
use django_language_server.Semantic.Scoping.Loads.{LoadStatement, LoadedLibraries, indexed}
use django_language_server.Semantic.Scoping.Loads.Availability.{InOrder}
use django_language_server.Semantic.Scoping.Discovery.{
  Grammar, find_statements, discover, tag_count,
}

module _ (grammar_of : LoadedLibraries → Grammar) (nodes : List Node) where
  -- A pass with these statements finds the same ones again.
  abbrev pub IsFixed : LoadedLibraries → Type 0
  IsFixed loaded = discover (grammar_of loaded) nodes ≡ some loaded

  -- A pass with these statements finds some that are not in source order.
  abbrev pub Unordered : LoadedLibraries → Type 0
  Unordered loaded =
      (statements : List LoadStatement) × (find_statements (grammar_of loaded) nodes
        ≡ some statements)
      × ¬ InOrder statements

  -- A number of passes each of which finds other statements than it was given.
  pub data Changes : ℕ → LoadedLibraries → LoadedLibraries → Type 0 where
    start : (loaded : LoadedLibraries) → Changes 0 loaded loaded
    pass :
        (n : ℕ) (loaded next last : LoadedLibraries)
        → discover (grammar_of loaded) nodes ≡ some next
        → next ≢ loaded
        → Changes n next last
        → Changes (suc n) loaded last

  abbrev Settles : ℕ → LoadedLibraries → (LoadedLibraries → Type 0) → Type 0
  Settles limit loaded P =
      (n : ℕ) × (last : LoadedLibraries) × (n < limit) × Changes n loaded last × P last

  -- The loop finds a fixed point within the limit, or a pass panics, or each pass up to the limit
  -- changes the statements.
  abbrev Outcome : ℕ → LoadedLibraries → Type 0
  Outcome limit loaded =
      Settles limit loaded IsFixed
      ⊎ (Settles limit loaded Unordered ⊎ ((last : LoadedLibraries) × Changes limit loaded last))

  -- Passes from no statements on, no more than there are tags, each of which changes the statements.
  abbrev pub Reaches : LoadedLibraries → Type 0
  Reaches last = (n : ℕ) × (n ≤ tag_count nodes) × Changes n (indexed []) last
