-- ===== src/Semantic/Scoping/Loads/Cursor.antt =====
-- The load cursor of crates/djls-semantic/src/scoping/loads.rs, advanced over offsets in source order,
-- gives what the lookup at each offset gives.
use django_language_server.Base.{
  ℕ, zero, suc, ◌+◌, ◌≤◌, Bool, ◌≡◌, refl, ap, ◌∙◌, true, leb, Option, some, and_then, List, [],
  ◌∷◌, map, arith, Bool-cases, inl, inr,
}
use django_language_server.Base.Search.{leading}
use django_language_server.Semantic.Scoping.Loads.{
  LoadStatement, drop, LoadedLibraries, ends_by, indexed, new_loaded, LoadState, available_at,
  LoadCursor, cursor, advance_end, advance_to,
}
use django_language_server.Semantic.Scoping.Loads.Availability.{
  InOrder, partition_point-leading, new_loaded-indexed,
}

-- The offsets increase, from `lo` on.
abbrev pub Ascending : ℕ → List ℕ → Type 0
Ascending lo [] = Unit
Ascending lo (x ∷ xs) = (lo ≤ x) × Ascending x xs

-- The states of a walk over offsets: none where an assertion fails.
abbrev pub walk : LoadCursor → List ℕ → Option (List LoadState)
walk c [] = some []
walk c (position ∷ positions) =
    and_then (advance_to c position)
      (λ step. and_then (walk step.0 positions) (λ states. some (step.1 ∷ states)))

advance_end_lem :
    (position : ℕ) (statements : List LoadStatement) (end : ℕ)
    → advance_end end statements position ≡ end + leading (ends_by position) statements
advance_end_lem position [] end = omega arith
advance_end_lem position (s ∷ statements) end = elim (Bool-cases (ends_by position s)) [
  | inl e ↦ rw (e, advance_end) (omega (arith, advance_end_lem position statements (suc end)))
  | inr e ↦ rw (e, advance_end) (omega arith)
]

leading-drop :
    (p : LoadStatement → Bool) (statements : List LoadStatement) (end : ℕ)
    → end ≤ leading p statements
    → end + leading p (drop end statements) ≡ leading p statements
leading-drop p statements zero h = omega arith
leading-drop p [] (suc end) h = absurd (omega (arith, h))
leading-drop p (s ∷ statements) (suc end) h = elim (Bool-cases (p s)) [
  | inl e ↦
      let h' : end ≤ leading p statements = ground (arith, h, e) in
      rw (e, leading) (omega (arith, leading-drop p statements end h'))
  | inr e ↦ ground (arith, h, e)
]

leading_le :
    (lo hi : ℕ) (statements : List LoadStatement)
    → lo ≤ hi
    → leading (ends_by lo) statements ≤ leading (ends_by hi) statements
leading_le lo hi [] h = omega arith
leading_le lo hi (s ∷ statements) h = ground (arith, h, leading_le lo hi statements h)

-- No statement before the cursor is behind its offset.
abbrev Valid : LoadCursor → Type 0
Valid c = c.end ≤ leading (ends_by c.position) c.loaded.statements

walk-Valid :
    (positions : List ℕ) (c : LoadCursor)
    → InOrder c.loaded.statements
    → Valid c
    → Ascending c.position positions
    → walk c positions ≡ some (map (available_at c.loaded) positions)
unfolding advance_to available_at
walk-Valid [] c ordered valid ascending = refl
walk-Valid (position ∷ positions) c ordered valid (later, ascending) =
    let point = leading (ends_by position) c.loaded.statements in
    let small = leading_le c.position position c.loaded.statements later in
    let end : advance_end c.end (drop c.end c.loaded.statements) position ≡ point =
      advance_end_lem position (drop c.end c.loaded.statements) c.end
      ∙ leading-drop (ends_by position) c.loaded.statements c.end (omega (arith, valid, small)) in
    let found = partition_point-leading position c.loaded.statements ordered in
    let next : LoadCursor = record { loaded = c.loaded; end = point; position = position } in
    let asserted : leb c.position position ≡ true = ground (arith, later) in
    rw (asserted, end, walk-Valid positions next ordered (omega arith) ascending, found) refl

-- Over statements that pass the assertion on their order, and offsets in ascending order, the cursor
-- passes its assertion and gives the states that the lookups at the offsets give.
pub walk_lem :
    (statements : List LoadStatement) (loaded : LoadedLibraries) (positions : List ℕ)
    → new_loaded statements ≡ some loaded
    → Ascending 0 positions
    → walk (cursor loaded) positions ≡ some (map (available_at loaded) positions)
unfolding cursor indexed
walk_lem statements loaded positions made ascending =
    let (ordered, same) = new_loaded-indexed statements loaded made in
    let kept : InOrder loaded.statements =
      rw (ap (λ (l : LoadedLibraries). l.statements) same) at ordered in
    walk-Valid positions (cursor loaded) kept (omega arith) ascending
