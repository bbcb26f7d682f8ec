-- ===== src/Python/Truthiness.antt =====
-- crates/djls-project/src/python/evaluation/truthiness.rs: the truth of a Python expression, where it is
-- known. An expression of a kind that the code does not look into is a number that tells it apart.
pub mod Sound
mod Tests
use django_language_server.Base.{ℕ, Bool, true, false, Option, none, some}
use django_language_server.Base.Text.{Text}

pub data Truthiness : Type 0 where
  falsy truthy : Truthiness

-- The expressions of `ruff_python_ast` that are told apart. `and` and `or` have a first value.
mutual
  pub data Expr : Type 0 where
    name : Text → Expr
    boolean_literal : Bool → Expr
    not_op : Expr → Expr
    and_op or_op : Expr → Exprs → Expr
    other : ℕ → Expr

  pub data Exprs : Type 0 where
    end : Exprs
    value : Expr → Exprs → Exprs

abbrev pub from_bool : Bool → Truthiness
from_bool true = truthy
from_bool false = falsy

abbrev pub branch_arm : Truthiness → ℕ
branch_arm falsy = 0
branch_arm truthy = 1

abbrev pub negate : Truthiness → Truthiness
negate falsy = truthy
negate truthy = falsy

abbrev pub negated : Option Truthiness → Option Truthiness
negated none = none
negated (some t) = some (negate t)

abbrev pub and_truth : Option Truthiness → Option Truthiness → Option Truthiness
and_truth (some falsy) right = some falsy
and_truth (some truthy) (some falsy) = some falsy
and_truth (some truthy) (some truthy) = some truthy
and_truth (some truthy) none = none
and_truth none (some falsy) = some falsy
and_truth none (some truthy) = none
and_truth none none = none

abbrev pub or_truth : Option Truthiness → Option Truthiness → Option Truthiness
or_truth (some truthy) right = some truthy
or_truth (some falsy) (some truthy) = some truthy
or_truth (some falsy) (some falsy) = some falsy
or_truth (some falsy) none = none
or_truth none (some truthy) = some truthy
or_truth none (some falsy) = none
or_truth none none = none

unfoldable mutual
  pub of_expr : (Text → Option Truthiness) → Expr → Option Truthiness
  of_expr known (name n) = known n
  of_expr known (boolean_literal b) = some (from_bool b)
  of_expr known (not_op operand) = negated (of_expr known operand)
  of_expr known (and_op first values) =
      and_values known (and_truth (some truthy) (of_expr known first)) values
  of_expr known (or_op first values) =
      or_values known (or_truth (some falsy) (of_expr known first)) values
  of_expr known (other n) = none

  -- The loops over the values of `and` and of `or`.
  pub and_values : (Text → Option Truthiness) → Option Truthiness → Exprs → Option Truthiness
  and_values known result end = result
  and_values known result (value e values) =
      and_values known (and_truth result (of_expr known e)) values

  pub or_values : (Text → Option Truthiness) → Option Truthiness → Exprs → Option Truthiness
  or_values known result end = result
  or_values known result (value e values) =
      or_values known (or_truth result (of_expr known e)) values
