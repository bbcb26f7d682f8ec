-- ===== src/Semantic/Scoping/Cache.antt =====
-- `ContextualFactCache` of crates/djls-semantic/src/scoping.rs: facts by the number of load statements in
-- force and by name. The closure that resolves a fact is the value that it would give.
mod Tests
use django_language_server.Base.{
  ℕ, Bool, true, false, ◌≡◌, refl, sym, ◌==◌, ==_iff, if◌then◌else◌, Option, none, some, unwrap_or,
  List, [], ◌∷◌, map, arith, Bool-cases, Option-cases, inl, inr,
}
use django_language_server.Base.Text.{Text, text_eq}
use django_language_server.Base.Text.Slices.{text_eq_iff}
use django_language_server.Semantic.Scoping.Maps.{get, entry, get-entry, get-entry_other}

module _ {T : Type 0} where
  -- `BTreeMap` by number.
  abbrev pub get_prefix : List (ℕ × List (Text × T)) → ℕ → Option (List (Text × T))
  get_prefix [] count = none
  get_prefix ((n, facts) ∷ rest) count = if n == count then some facts else get_prefix rest count

  abbrev pub set_prefix :
      List (ℕ × List (Text × T)) → ℕ → List (Text × T) → List (ℕ × List (Text × T))
  set_prefix [] count facts = (count, facts) ∷ []
  set_prefix ((n, old) ∷ rest) count facts =
      let later = set_prefix rest count facts in
      if n == count then (n, facts) ∷ rest else (n, old) ∷ later

  -- The facts of a prefix, after `entry(count).or_default()`.
  abbrev pub facts_of : List (ℕ × List (Text × T)) → ℕ → List (Text × T)
  facts_of cache count = unwrap_or (get_prefix cache count) []

  -- `ContextualFactCache::resolve`.
  unfoldable pub resolve :
      List (ℕ × List (Text × T)) → ℕ → Text → T → T × List (ℕ × List (Text × T))
  resolve cache count name resolved = elim (get (facts_of cache count) name) [
    | some fact ↦ (fact, set_prefix cache count (facts_of cache count))
    | none ↦ (
      resolved,
      set_prefix cache count (entry (facts_of cache count) name resolved (λ old. resolved)),
    )
  ]

  -- Each cached fact is the one that would be resolved.
  abbrev pub Coherent : (ℕ → Text → T) → List (ℕ × List (Text × T)) → Type 0
  Coherent facts cache =
      (count : ℕ) (name : Text) (fact : T)
      → get (facts_of cache count) name ≡ some fact
      → fact ≡ facts count name

  facts_of-set_prefix :
      (cache : List (ℕ × List (Text × T))) (count : ℕ) (facts : List (Text × T))
      → facts_of (set_prefix cache count facts) count ≡ facts
  facts_of-set_prefix [] count facts = ground arith
  facts_of-set_prefix ((n, old) ∷ rest) count facts = elim (Bool-cases (n == count)) [
    | inl same ↦ rw (same, set_prefix, same, get_prefix) refl
    | inr other ↦ rw (other, set_prefix, other, get_prefix) (facts_of-set_prefix rest count facts)
  ]

  facts_of-set_prefix_other :
      (cache : List (ℕ × List (Text × T))) (count other : ℕ) (facts : List (Text × T))
      → (count == other) ≡ false
      → facts_of (set_prefix cache count facts) other ≡ facts_of cache other
  facts_of-set_prefix_other [] count other facts differ = rw (differ, get_prefix) refl
  facts_of-set_prefix_other ((n, old) ∷ rest) count other facts differ =
      elim (Bool-cases (n == count)) [
        | inl same ↦
            let apart : (n == other) ≡ false = ground (arith, same, differ) in
            rw (same, set_prefix, apart, get_prefix) refl
        | inr new ↦ elim (Bool-cases (n == other)) [
          | inl here ↦ rw (new, set_prefix, here, get_prefix) refl
          | inr there ↦
              rw (new, set_prefix, there, get_prefix)
                (facts_of-set_prefix_other rest count other facts differ)
        ]
      ]

  -- The facts of one prefix are replaced by facts that are right.
  Coherent-set_prefix :
      (facts : ℕ → Text → T) (cache : List (ℕ × List (Text × T))) (count : ℕ)
      (new : List (Text × T))
      → Coherent facts cache
      → ((name : Text) (fact : T) → get new name ≡ some fact → fact ≡ facts count name)
      → Coherent facts (set_prefix cache count new)
  Coherent-set_prefix facts cache count new coherent right n name fact e =
      elim (Bool-cases (count == n)) [
        | inl same ↦
            let count_n : count ≡ n = (==_iff count n).0 same in
            let shown : get (facts_of (set_prefix cache count new) count) name ≡ some fact =
              rw (sym count_n) at e in
            rw (sym count_n) (right name fact (rw (facts_of-set_prefix cache count new) at shown))
        | inr other ↦
            coherent n name fact (rw (facts_of-set_prefix_other cache count n new other) at e)
      ]

  -- A name that is looked up is right, and so is what the cache then holds.
  resolve-Coherent :
      (facts : ℕ → Text → T) (cache : List (ℕ × List (Text × T))) (count : ℕ) (name : Text)
      → Coherent facts cache
      → ((resolve cache count name (facts count name)).0 ≡ facts count name)
        × Coherent facts (resolve cache count name (facts count name)).1
  unfolding resolve
  resolve-Coherent facts cache count name coherent =
      elim (Option-cases (get (facts_of cache count) name)) [
        | inl new ↦ rw (new, resolve) (refl, Coherent-set_prefix facts cache count _ coherent added)
        | inr (fact, old) ↦
            rw (old, resolve)
              (
                coherent count name fact old,
                Coherent-set_prefix facts cache count (facts_of cache count) coherent
                    (coherent count),
              )
      ]
    where
      added :
          (other : Text) (fact : T)
          → get
              (entry (facts_of cache count) name (facts count name) (λ old. facts count name))
              other
            ≡ some fact
          → fact ≡ facts count other
      added other fact e = elim (Bool-cases (text_eq name other)) [
        | inl same ↦
            let name_other : name ≡ other = (text_eq_iff name other).0 same in
            let shown : some (facts count other) ≡ some fact =
              rw
                (
                  name_other,
                  get-entry (facts_of cache count) other (facts count other)
                      (λ old. facts count other),
                )
                at e in
            cc
        | inr differ ↦ coherent count other fact (
            rw
              (get-entry_other (facts_of cache count) name other (facts count name)
                (λ old. facts count name) differ)
              at e)
      ]

  -- The answers to a sequence of lookups, each with the facts that a closure would resolve.
  abbrev pub resolve_all : (ℕ → Text → T) → List (ℕ × List (Text × T)) → List (ℕ × Text) → List T
  resolve_all facts cache [] = []
  resolve_all facts cache ((count, name) ∷ lookups) =
      let next = resolve cache count name (facts count name) in
      next.0 ∷ resolve_all facts next.1 lookups

  resolve_all-Coherent :
      (facts : ℕ → Text → T) (lookups : List (ℕ × Text)) (cache : List (ℕ × List (Text × T)))
      → Coherent facts cache
      → resolve_all facts cache lookups ≡ map (λ (count, name). facts count name) lookups
  resolve_all-Coherent facts [] cache coherent = refl
  resolve_all-Coherent facts ((count, name) ∷ lookups) cache coherent =
      let (right, next) = resolve-Coherent facts cache count name coherent in
      rw (right, resolve_all-Coherent facts lookups _ next) refl

  -- Where what a closure resolves depends only on the number of load statements in force and on the name,
  -- each lookup through the cache, from the empty one on, gives what its closure resolves.
  pub resolve_all_lem :
      (facts : ℕ → Text → T) (lookups : List (ℕ × Text))
      → resolve_all facts [] lookups ≡ map (λ (count, name). facts count name) lookups
  resolve_all_lem facts lookups = resolve_all-Coherent facts lookups [] (λ count name fact e. cc)
