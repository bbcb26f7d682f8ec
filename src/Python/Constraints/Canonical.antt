-- ===== src/Python/Constraints/Canonical.antt =====
-- `union_canonical`, `intersection_canonical` and `forget` of
-- crates/djls-project/src/python/evaluation/constraints.rs.
use django_language_server.Base.{
  and_then, ℕ, zero, suc, ◌+◌, ◌==◌, if◌then◌else◌, Option, none, some,
}
use django_language_server.Base.Ordering.{Ordering}
use django_language_server.Python.Constraints.Joins.{BranchJoin, identity_cmp}
use django_language_server.Python.Constraints.Diagram.{
  ConstraintNode, impossible, unconstrained, branch, Arms, end, arm, ConstraintNode-discrete,
  new_branch, depth,
}

abbrev pub map_arms : (ConstraintNode → Option ConstraintNode) → Arms → Option Arms
map_arms f end = some end
map_arms f (arm a arms) =
    and_then (f a) (λ a'. and_then (map_arms f arms) (λ rest. some (arm a' rest)))

abbrev pub zip_arms :
    (ConstraintNode → ConstraintNode → Option ConstraintNode) → Arms → Arms → Option Arms
zip_arms f end rs = some end
zip_arms f (arm l ls) end = some end
zip_arms f (arm l ls) (arm r rs) =
    and_then (f l r) (λ a. and_then (zip_arms f ls rs) (λ rest. some (arm a rest)))

-- The last arm of `union_canonical` and of `intersection_canonical`, where both diagrams branch.
abbrev pub combine_branches :
    (ConstraintNode → ConstraintNode → Option ConstraintNode)
    → BranchJoin
    → Arms
    → BranchJoin
    → Arms
    → Option ConstraintNode
combine_branches rec j ls k rs = elim (identity_cmp j k) [
  | Ordering.lt ↦ and_then (map_arms (λ a. rec a (branch k rs)) ls) (new_branch j)
  | Ordering.gt ↦ and_then (map_arms (λ a. rec (branch j ls) a) rs) (new_branch k)
  | Ordering.eq ↦
      if j.arm_count == k.arm_count then and_then (zip_arms rec ls rs) (new_branch j) else none
]

abbrev pub union_cases :
    (ConstraintNode → ConstraintNode → Option ConstraintNode)
    → ConstraintNode
    → ConstraintNode
    → Option ConstraintNode
union_cases rec unconstrained other = some unconstrained
union_cases rec impossible other = some other
union_cases rec (branch j ls) unconstrained = some unconstrained
union_cases rec (branch j ls) impossible = some (branch j ls)
union_cases rec (branch j ls) (branch k rs) = combine_branches rec j ls k rs

unfoldable pub union_canonical : ℕ → ConstraintNode → ConstraintNode → Option ConstraintNode
unfolding new_branch identity_cmp ConstraintNode-discrete
union_canonical zero a b = none
union_canonical (suc fuel) a b = elim (ConstraintNode-discrete a b) [
  | yes e ↦ some a
  | no e ↦ union_cases (λ l r. union_canonical fuel l r) a b
]

abbrev pub intersection_cases :
    (ConstraintNode → ConstraintNode → Option ConstraintNode)
    → ConstraintNode
    → ConstraintNode
    → Option ConstraintNode
intersection_cases rec impossible other = some impossible
intersection_cases rec unconstrained other = some other
intersection_cases rec (branch j ls) impossible = some impossible
intersection_cases rec (branch j ls) unconstrained = some (branch j ls)
intersection_cases rec (branch j ls) (branch k rs) = combine_branches rec j ls k rs

unfoldable pub intersection_canonical : ℕ → ConstraintNode → ConstraintNode → Option ConstraintNode
unfolding new_branch identity_cmp ConstraintNode-discrete
intersection_canonical zero a b = none
intersection_canonical (suc fuel) a b = elim (ConstraintNode-discrete a b) [
  | yes e ↦ some a
  | no e ↦ intersection_cases (λ l r. intersection_canonical fuel l r) a b
]

abbrev pub enough : ConstraintNode → ConstraintNode → ℕ
enough a b = suc (depth a + depth b)

-- The fold of `forget` over the arms of the forgotten join.
unfoldable pub union_arms : ConstraintNode → Arms → Option ConstraintNode
unfolding union_canonical
union_arms result end = some result
union_arms result (arm a arms) =
    and_then (union_canonical (enough result a) result a) (λ next. union_arms next arms)

-- The arms of a `match` on an ordering: less, greater and equal.
abbrev pub by_order : {A : Type 0} → Ordering → A → A → A → A
by_order Ordering.lt less greater equal = less
by_order Ordering.gt less greater equal = greater
by_order Ordering.eq less greater equal = equal

unfoldable mutual
  unfolding union_arms new_branch

  pub forget : BranchJoin → ConstraintNode → Option ConstraintNode
  forget forgotten impossible = some impossible
  forget forgotten unconstrained = some unconstrained
  forget forgotten (branch join arms) =
      by_order (identity_cmp join forgotten)
        (and_then (forget_arms forgotten arms) (new_branch join)) (some (branch join arms))
        (if join.arm_count == forgotten.arm_count then union_arms impossible arms else none)

  pub forget_arms : BranchJoin → Arms → Option Arms
  forget_arms forgotten end = some end
  forget_arms forgotten (arm a arms) =
      and_then (forget forgotten a)
        (λ a'. and_then (forget_arms forgotten arms) (λ rest. some (arm a' rest)))
