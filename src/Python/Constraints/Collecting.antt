-- ===== src/Python/Constraints/Collecting.antt =====
-- `collect_joins` of crates/djls-project/src/python/evaluation/constraints.rs: no assertion on the joins of
-- canonical diagrams fails.
use django_language_server.Base.{
  true, ◌≡◌, refl, sym, ==_iff, ◌==◌, Option, some, List, [], ◌∷◌, ◌++◌, All, All-append, arith,
  inl, inr, Option-cases,
}
use django_language_server.Base.Ordering.{Ordering, Ordering-cases}
use django_language_server.Python.Constraints.Joins.{BranchJoin, identity_cmp}
use django_language_server.Python.Constraints.Diagram.{
  ConstraintNode, impossible, unconstrained, branch, Arms, end, arm, find_join, add_join,
  collect_joins, collect_arms,
}
use django_language_server.Python.Constraints.Worlds.{Domain, IsDomain, Formed, Formeds}

-- The join is of the domain.
abbrev pub InDomain : Domain → BranchJoin → Type 0
InDomain d j = j.arm_count ≡ d j

module _ (d : Domain) (domain : IsDomain d) where
  -- The joins of a canonical diagram are of its domain, and no assertion on them fails.
  find_join-IsSame :
      (j existing : BranchJoin) (joins : List BranchJoin)
      → find_join j joins ≡ some existing
      → All (InDomain d) joins
      → InDomain d existing × (identity_cmp existing j ≡ Ordering.eq)
  find_join-IsSame j existing [] e all = cc
  find_join-IsSame j existing (k ∷ joins) e all = elim (Ordering-cases (identity_cmp k j)) [
    | inl f ↦ find_join-IsSame j existing joins (rw (f, find_join) at e) all.1
    | inr (inl f) ↦
        let shown : some k ≡ some existing = rw (f, find_join) at e in
        let same : k ≡ existing = cc in rw (sym same) (all.0, f)
    | inr (inr f) ↦ find_join-IsSame j existing joins (rw (f, find_join) at e) all.1
  ]

  abbrev pub Collected : Option (List BranchJoin) → Type 0
  Collected r = (joins : List BranchJoin) × (r ≡ some joins) × All (InDomain d) joins

  add_join-Collected :
      (j : BranchJoin) (joins : List BranchJoin)
      → InDomain d j
      → All (InDomain d) joins
      → Collected (add_join j joins)
  add_join-Collected j joins own all = elim (Option-cases (find_join j joins)) [
    | inl new ↦ (
      joins ++ j ∷ [],
      rw (new, add_join) refl,
      All-append (InDomain d) joins (j ∷ []) all (own, tt),
    )
    | inr (existing, e) ↦
        let (old, same) = find_join-IsSame j existing joins e all in
        let counts : (existing.arm_count == j.arm_count) ≡ true =
          (==_iff existing.arm_count j.arm_count).1
            (omega (arith, own, old, domain.respects existing j same)) in
        (joins, rw (e, add_join, counts) refl, all)
  ]

  mutual
    unfolding collect_joins

    pub collect_joins-Collected :
        (a : ConstraintNode) (joins : List BranchJoin)
        → Formed d a
        → All (InDomain d) joins
        → Collected (collect_joins a joins)
    collect_joins-Collected impossible joins formed all = (joins, refl, all)
    collect_joins-Collected unconstrained joins formed all = (joins, refl, all)
    collect_joins-Collected (branch j arms) joins formed all =
        let (joins', e, all') = add_join-Collected j joins formed.0 all in
        let (more, f, all'') = collect_arms-Collected j arms joins' formed.3 all' in
        (more, rw e f, all'')

    collect_arms-Collected :
        (j : BranchJoin) (arms : Arms) (joins : List BranchJoin)
        → Formeds d j arms
        → All (InDomain d) joins
        → Collected (collect_arms arms joins)
    collect_arms-Collected j end joins formeds all = (joins, refl, all)
    collect_arms-Collected j (arm a arms) joins formeds all =
        let (joins', e, all') = collect_joins-Collected a joins formeds.1 all in
        let (more, f, all'') = collect_arms-Collected j arms joins' formeds.2 all' in
        (more, rw e f, all'')
