-- ===== src/Python/Constraints/Tests.antt =====
-- Diagrams of crates/djls-project/src/python/evaluation/constraints.rs at concrete joins.
unfoldable use native.Mathlib.Decide.{ℕ_discrete}
use django_language_server.Base.{
  ℕ, ◌≡◌, ◌↔◌, Bool, true, false, ◌&&◌, ◌||◌, ◌==◌, refl, none, some, arith, [],
}
use django_language_server.Base.Text.{text}
use django_language_server.Source.Position.{span_of}
use django_language_server.Python.Identity.{
  PythonSourceModule, first_party, Origin, module_cmp, search_path_cmp, origin_cmp,
}
use django_language_server.Python.Constraints.Joins.{BranchJoin, BranchJoinKind}
use django_language_server.Python.Constraints.Diagram.{
  impossible, unconstrained, branch, end, arm, ConstraintNode-discrete,
}
use django_language_server.Python.Constraints.Domain.{
  BranchConstraints, unconstrained_constraints, select, merge, intersection, is_impossible,
  compatible_with,
}
use django_language_server.Python.Constraints.Worlds.{Domain, IsDomain, World, IsWorld}
use django_language_server.Python.Constraints.Assign.{assign, any_below}
use django_language_server.Python.Constraints.Meaning.{
  WellFormed, allows, Covers, merge-Covers, intersection-Covers, select-Covers, is_impossible_iff,
  compatible_with_lem,
}

abbrev settings : PythonSourceModule
settings = record {
  name = text "settings";
  package_name = none;
  path = [];
  file = 0;
  search_path = first_party [];
}

abbrev origin_at : ℕ → Origin
origin_at start = record { file = 0; span = span_of start 1 }

-- An `if` at 1, and a predicate at 2.
abbrev branching : BranchJoin
branching = record {
  module_name = settings;
  origin = origin_at 1;
  arm_count = 2;
  kind = BranchJoinKind.control;
  predicate_discriminator = none;
}

abbrev predicated : BranchJoin
predicated = record {
  module_name = settings;
  origin = origin_at 2;
  arm_count = 2;
  kind = BranchJoinKind.predicate;
  predicate_discriminator = some (text "DEBUG");
}

abbrev two : Domain
two j = 2

two-IsDomain : IsDomain two
two-IsDomain = record { positive = λ j. omega arith; respects = λ j k e. refl }

abbrev first_arm : BranchConstraints
first_arm = record { root = branch branching (arm unconstrained (arm impossible end)) }

abbrev truthy : BranchConstraints
truthy = record { root = branch predicated (arm impossible (arm unconstrained end)) }

first_arm-WellFormed : WellFormed two first_arm
unfolding ConstraintNode-discrete
first_arm-WellFormed = (refl, refl, refl, (tt, tt, (tt, tt, tt)))

truthy-WellFormed : WellFormed two truthy
unfolding ConstraintNode-discrete
truthy-WellFormed = (refl, refl, refl, (tt, tt, (tt, tt, tt)))

selection_replaces : select first_arm branching 1 ≡ select unconstrained_constraints branching 1
unfolding select module_cmp search_path_cmp origin_cmp
selection_replaces = refl

arms_merge :
    merge first_arm (record { root = branch branching (arm impossible (arm unconstrained end)) })
    ≡ some unconstrained_constraints
unfolding merge module_cmp search_path_cmp origin_cmp ℕ_discrete
arms_merge = refl

merge-Covers_example :
    Covers two (λ w. allows first_arm w || allows truthy w) (merge first_arm truthy)
merge-Covers_example =
    merge-Covers two two-IsDomain first_arm truthy first_arm-WellFormed truthy-WellFormed

intersection-Covers_example :
    Covers two (λ w. allows first_arm w && allows truthy w) (intersection first_arm truthy)
intersection-Covers_example =
    intersection-Covers two two-IsDomain first_arm truthy first_arm-WellFormed truthy-WellFormed

select-Covers_example :
    Covers two
      (λ w. any_below 2 (λ k. allows first_arm (assign w branching k)) && w branching == 1)
      (select first_arm branching 1)
select-Covers_example =
    select-Covers two two-IsDomain first_arm branching 1 first_arm-WellFormed refl (omega arith)

is_impossible_iff_example :
    (is_impossible first_arm ≡ true) ↔ ((w : World) → IsWorld two w → allows first_arm w ≡ false)
is_impossible_iff_example = is_impossible_iff two two-IsDomain first_arm first_arm-WellFormed

compatible_with_lem_example :
    (r : Bool) × (compatible_with first_arm truthy ≡ some r)
    × ((r ≡ true)
        ↔ ((w : World) × IsWorld two w × ((allows first_arm w && allows truthy w) ≡ true)))
compatible_with_lem_example =
    compatible_with_lem two two-IsDomain first_arm truthy first_arm-WellFormed truthy-WellFormed
