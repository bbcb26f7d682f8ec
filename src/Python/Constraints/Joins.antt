-- ===== src/Python/Constraints/Joins.antt =====
-- The joins of crates/djls-project/src/python/evaluation/constraints.rs: what a branch node decides.
use django_language_server.Base.{ℕ, ltb, if◌then◌else◌, Option, none, some}
use django_language_server.Base.Ordering.{
  Ordering, compare, then_with, option_cmp, Lawful, nat-Lawful, on-Lawful, then-Lawful,
  option-Lawful,
}
use django_language_server.Base.Text.{Text}
use django_language_server.Python.Identity.{
  Origin, PythonSourceModule, origin_cmp, module_cmp, text_cmp, text-Lawful, origin-Lawful,
  module-Lawful,
}

pub data BranchJoinKind : Type 0 where
  control binding_choice predicate : BranchJoinKind

pub record PredicateIdentity : Type 0 where
  pub module_name : Option PythonSourceModule
  pub origin : Origin
  pub discriminator : Option Text

-- `PredicateIdentity::new` and `PredicateIdentity::discriminate`.
abbrev pub new_identity : Origin → PredicateIdentity
new_identity origin = record { module_name = none; origin = origin; discriminator = none }

-- `Option::or` of what is there and what is new.
abbrev or_else : {A : Type 0} → Option A → Option A → Option A
or_else none later = later
or_else (some a) later = some a

unfoldable pub discriminate :
    PredicateIdentity → Text → Option PythonSourceModule → PredicateIdentity
discriminate identity name module_name = record identity {
  module_name = or_else identity.module_name module_name;
  discriminator = or_else identity.discriminator (some name);
}

pub record BranchJoin : Type 0 where
  pub module_name : PythonSourceModule
  pub origin : Origin
  pub arm_count : ℕ
  pub kind : BranchJoinKind
  pub predicate_discriminator : Option Text

-- `BranchJoin::new`, `BranchJoin::binding_choice` and `BranchJoin::predicate`.
unfoldable pub new_join : PythonSourceModule → Origin → ℕ → Option BranchJoin
new_join m origin arm_count =
    if ltb 0 arm_count
    then some (record {
      module_name = m;
      origin = origin;
      arm_count = arm_count;
      kind = BranchJoinKind.control;
      predicate_discriminator = none;
    })
    else none

unfoldable pub binding_choice_join : PythonSourceModule → Origin → Text → BranchJoin
binding_choice_join m origin name = record {
  module_name = m;
  origin = origin;
  arm_count = 2;
  kind = BranchJoinKind.binding_choice;
  predicate_discriminator = some name;
}

abbrev pub unwrap_module : Option PythonSourceModule → PythonSourceModule → PythonSourceModule
unwrap_module none m = m
unwrap_module (some own) m = own

unfoldable pub predicate_join : PythonSourceModule → PredicateIdentity → BranchJoin
predicate_join m identity = record {
  module_name = unwrap_module identity.module_name m;
  origin = identity.origin;
  arm_count = 2;
  kind = BranchJoinKind.predicate;
  predicate_discriminator = identity.discriminator;
}

-- `Ord for BranchJoinKind`.
abbrev pub kind_rank : BranchJoinKind → ℕ
kind_rank control = 0
kind_rank binding_choice = 1
kind_rank predicate = 2

unfoldable pub identity_cmp : BranchJoin → BranchJoin → Ordering
identity_cmp a b =
    then_with
      (then_with
        (then_with (compare (kind_rank a.kind) (kind_rank b.kind))
          (module_cmp a.module_name b.module_name))
        (origin_cmp a.origin b.origin))
      (option_cmp text_cmp a.predicate_discriminator b.predicate_discriminator)

unfoldable pub join_cmp : BranchJoin → BranchJoin → Ordering
unfolding identity_cmp
join_cmp a b = then_with (identity_cmp a b) (compare a.arm_count b.arm_count)

pub identity-Lawful : Lawful BranchJoin identity_cmp
unfolding identity_cmp
identity-Lawful =
    then-Lawful
      (then-Lawful
        (then-Lawful (on-Lawful (λ j. kind_rank j.kind) nat-Lawful)
          (on-Lawful (λ j. j.module_name) module-Lawful))
        (on-Lawful (λ j. j.origin) origin-Lawful))
      (on-Lawful (λ j. j.predicate_discriminator) (option-Lawful text-Lawful))
