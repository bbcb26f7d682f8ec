-- ===== src/Python/Constraints/Diagram.antt =====
-- The diagrams of crates/djls-project/src/python/evaluation/constraints.rs, how a branch is built and
-- which joins a diagram has.
unfoldable use native.Mathlib.Decide.{ℕ_discrete}
use django_language_server.Base.{
  and_then, ℕ, zero, suc, Bool, true, false, ltb, ◌==◌, if◌then◌else◌, max, Option, none, some,
  List, [], ◌∷◌, ◌++◌,
}
use django_language_server.Base.Ordering.{Ordering}
use django_language_server.Python.Constraints.Joins.{BranchJoin, identity_cmp}

mutual
  pub data ConstraintNode : Type 0 where
    impossible unconstrained : ConstraintNode
    branch : BranchJoin → Arms → ConstraintNode

  pub data Arms : Type 0 where
    end : Arms
    arm : ConstraintNode → Arms → Arms

-- `==` on diagrams.
unfoldable pub ConstraintNode-discrete : Discrete ConstraintNode
ConstraintNode-discrete = hlevel ℕ_discrete

-- `Vec::len`, and `vec![Impossible; n]` with one arm set.
abbrev pub count : Arms → ℕ
count end = 0
count (arm a arms) = suc (count arms)

abbrev pub impossible_arms : ℕ → Arms
impossible_arms zero = end
impossible_arms (suc n) = arm impossible (impossible_arms n)

abbrev pub set_arm : Arms → ℕ → ConstraintNode → Arms
set_arm end i node = end
set_arm (arm a arms) zero node = arm node arms
set_arm (arm a arms) (suc i) node = arm a (set_arm arms i node)

-- `arms.iter().all(|arm| arm == first)`.
abbrev pub all_equal : ConstraintNode → Arms → Bool
all_equal first end = true
all_equal first (arm a arms) = elim (ConstraintNode-discrete a first) [
  | yes e ↦ all_equal first arms
  | no e ↦ false
]

-- The shared child of arms that are all equal.
abbrev pub shared : Arms → Option ConstraintNode
shared end = none
shared (arm first arms) = if all_equal first (arm first arms) then some first else none

abbrev pub reduced : BranchJoin → Arms → Option ConstraintNode → ConstraintNode
reduced join arms none = ConstraintNode.branch join arms
reduced join arms (some first) = first

-- `ConstraintNode::branch`.
unfoldable pub new_branch : BranchJoin → Arms → Option ConstraintNode
new_branch join arms =
    if count arms == join.arm_count then some (reduced join arms (shared arms)) else none

-- `ConstraintNode::selected`.
unfoldable pub selected : BranchJoin → ℕ → Option ConstraintNode
unfolding new_branch
selected join i =
    if ltb i join.arm_count
    then new_branch join (set_arm (impossible_arms join.arm_count) i unconstrained)
    else none

abbrev pub find_join : BranchJoin → List BranchJoin → Option BranchJoin
find_join join [] = none
find_join join (existing ∷ joins) = elim (identity_cmp existing join) [
  | Ordering.eq ↦ some existing
  | _ ↦ find_join join joins
]

-- A join whose coordinate is there has the domain that is there, or the assertion fails.
abbrev pub add_join : BranchJoin → List BranchJoin → Option (List BranchJoin)
add_join join joins = elim (find_join join joins) [
  | some existing ↦ if existing.arm_count == join.arm_count then some joins else none
  | none ↦ some (joins ++ join ∷ [])
]

unfoldable mutual
  pub collect_joins : ConstraintNode → List BranchJoin → Option (List BranchJoin)
  collect_joins impossible joins = some joins
  collect_joins unconstrained joins = some joins
  collect_joins (branch join arms) joins =
      and_then (add_join join joins) (λ joins'. collect_arms arms joins')

  pub collect_arms : Arms → List BranchJoin → Option (List BranchJoin)
  collect_arms end joins = some joins
  collect_arms (arm a arms) joins =
      and_then (collect_joins a joins) (λ joins'. collect_arms arms joins')

-- `ConstraintNode::assert_compatible_domains`.
unfoldable pub assert_compatible_domains :
    ConstraintNode → ConstraintNode → Option (List BranchJoin)
unfolding collect_joins
assert_compatible_domains a b = and_then (collect_joins a []) (collect_joins b)

abbrev mutual
  pub depth : ConstraintNode → ℕ
  depth impossible = 0
  depth unconstrained = 0
  depth (branch join arms) = suc (depth_arms arms)

  pub depth_arms : Arms → ℕ
  depth_arms end = 0
  depth_arms (arm a arms) = max (depth a) (depth_arms arms)
