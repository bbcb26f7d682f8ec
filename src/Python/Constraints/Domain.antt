-- ===== src/Python/Constraints/Domain.antt =====
-- `BranchConstraints` of crates/djls-project/src/python/evaluation/constraints.rs: the diagrams with their
-- widening, which forgets the predicates behind the first four.
use django_language_server.Base.{
  and_then, ℕ, zero, suc, Bool, true, false, not, Option, some, List, [], ◌∷◌,
}
use django_language_server.Base.Ordering.{Ordering}
use django_language_server.Python.Constraints.Joins.{
  BranchJoin, BranchJoinKind, control, binding_choice, predicate, join_cmp,
}
use django_language_server.Python.Constraints.Diagram.{
  ConstraintNode, impossible, unconstrained, selected, collect_joins, assert_compatible_domains,
}
use django_language_server.Python.Constraints.Canonical.{
  enough, union_canonical, intersection_canonical, forget,
}

abbrev pub max_tracked_predicates : ℕ
max_tracked_predicates = 4

-- `kind == BranchJoinKind::Predicate`.
abbrev pub is_predicate_kind : BranchJoinKind → Bool
is_predicate_kind control = false
is_predicate_kind binding_choice = false
is_predicate_kind predicate = true

abbrev pub is_predicate : BranchJoin → Bool
is_predicate join = is_predicate_kind join.kind

abbrev pub predicates_of : List BranchJoin → List BranchJoin
predicates_of [] = []
predicates_of (join ∷ joins) = elim (is_predicate join) [
  | true ↦ join ∷ predicates_of joins
  | false ↦ predicates_of joins
]

-- `sort_by`, which is stable: by insertion.
abbrev pub insert_join : BranchJoin → List BranchJoin → List BranchJoin
insert_join join [] = join ∷ []
insert_join join (other ∷ joins) = elim (join_cmp join other) [
  | Ordering.gt ↦ other ∷ insert_join join joins
  | _ ↦ join ∷ other ∷ joins
]

abbrev pub sort_joins : List BranchJoin → List BranchJoin
sort_joins [] = []
sort_joins (join ∷ joins) = insert_join join (sort_joins joins)

-- `Iterator::skip`.
abbrev pub skip : ℕ → List BranchJoin → List BranchJoin
skip zero joins = joins
skip (suc n) [] = []
skip (suc n) (join ∷ joins) = skip n joins

abbrev pub forget_joins : List BranchJoin → ConstraintNode → Option ConstraintNode
forget_joins [] node = some node
forget_joins (join ∷ joins) node = and_then (forget join node) (forget_joins joins)

unfoldable pub widen_predicates : ConstraintNode → Option ConstraintNode
unfolding collect_joins join_cmp forget
widen_predicates node =
    and_then (collect_joins node [])
      (λ joins. forget_joins (skip max_tracked_predicates (sort_joins (predicates_of joins))) node)

-- `ConstraintNode::union` and `ConstraintNode::intersection`.
unfoldable pub union : ConstraintNode → ConstraintNode → Option ConstraintNode
unfolding assert_compatible_domains union_canonical widen_predicates
union a b =
    and_then (assert_compatible_domains a b)
      (λ joins. and_then (union_canonical (enough a b) a b) widen_predicates)

unfoldable pub intersection_node : ConstraintNode → ConstraintNode → Option ConstraintNode
unfolding assert_compatible_domains intersection_canonical widen_predicates
intersection_node a b =
    and_then (assert_compatible_domains a b)
      (λ joins. and_then (intersection_canonical (enough a b) a b) widen_predicates)

pub record BranchConstraints : Type 0 where
  pub root : ConstraintNode

abbrev pub of_root : ConstraintNode → Option BranchConstraints
of_root root = some (record { root = root })

abbrev pub unconstrained_constraints : BranchConstraints
unconstrained_constraints = record { root = unconstrained }

abbrev pub impossible_constraints : BranchConstraints
impossible_constraints = record { root = impossible }

unfoldable pub select : BranchConstraints → BranchJoin → ℕ → Option BranchConstraints
unfolding forget intersection_node selected
select c join i = and_then (forget join c.root) (λ forgotten.
    and_then (selected join i) (λ node. and_then (intersection_node forgotten node) of_root))

unfoldable pub required : BranchJoin → ℕ → Option BranchConstraints
unfolding selected
required join i = and_then (selected join i) of_root

unfoldable pub merge : BranchConstraints → BranchConstraints → Option BranchConstraints
unfolding union
merge c other = and_then (union c.root other.root) of_root

unfoldable pub is_impossible : BranchConstraints → Bool
is_impossible c = elim c.root [ ConstraintNode.impossible ↦ true | _ ↦ false ]

unfoldable pub intersection : BranchConstraints → BranchConstraints → Option BranchConstraints
unfolding intersection_node
intersection c other = and_then (intersection_node c.root other.root) of_root

unfoldable pub compatible_with : BranchConstraints → BranchConstraints → Option Bool
unfolding intersection is_impossible
compatible_with c other = and_then (intersection c other) (λ both. some (not (is_impossible both)))
