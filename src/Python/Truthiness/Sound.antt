-- ===== src/Python/Truthiness/Sound.antt =====
-- The truth that crates/djls-project/src/python/evaluation/truthiness.rs reports is that of the value to
-- which Python evaluates the expression.
use django_language_server.Base.{
  ℕ, Bool, true, false, not, ◌≡◌, refl, if◌then◌else◌, Option, none, some,
}
use django_language_server.Base.Text.{Text}
use django_language_server.Python.Truthiness.{
  Truthiness, falsy, truthy, Expr, name, boolean_literal, not_op, and_op, or_op, other, Exprs, end,
  value, from_bool, negate, negated, and_truth, or_truth, of_expr, and_values, or_values,
}

-- What Python's values are for truth tests: `bool(v)`, and the values `True` and `False`.
pub record Values (V : Type 0) : Type 0 where
  pub truth : V → Bool
  pub bool_value : Bool → V
  pub truth-bool_value : (b : Bool) → truth (bool_value b) ≡ b

module _ {V : Type 0} (python : Values V) (names : Text → V) (others : ℕ → V) where
  -- `and` gives the first value that is false, or else the last; `or` the first that is true.
  unfoldable mutual
    pub evaluate : Expr → V
    evaluate (name n) = names n
    evaluate (boolean_literal b) = python.bool_value b
    evaluate (not_op operand) = python.bool_value (not (python.truth (evaluate operand)))
    evaluate (and_op first values) = evaluate_and (evaluate first) values
    evaluate (or_op first values) = evaluate_or (evaluate first) values
    evaluate (other n) = others n

    pub evaluate_and : V → Exprs → V
    evaluate_and v end = v
    evaluate_and v (value e values) = if python.truth v then evaluate_and (evaluate e) values else v

    pub evaluate_or : V → Exprs → V
    evaluate_or v end = v
    evaluate_or v (value e values) = if python.truth v then v else evaluate_or (evaluate e) values

-- What is reported, if anything is, is the truth.
abbrev pub Agrees : Option Truthiness → Bool → Type 0
Agrees none b = Unit
Agrees (some t) b = t ≡ from_bool b

from_bool-not : (b : Bool) → negate (from_bool b) ≡ from_bool (not b)
from_bool-not true = refl
from_bool-not false = refl

negated-Agrees : (r : Option Truthiness) (b : Bool) → Agrees r b → Agrees (negated r) (not b)
negated-Agrees none b h = tt
negated-Agrees (some t) b h = rw h (from_bool-not b)

and_first-Agrees :
    (r : Option Truthiness) (b : Bool) → Agrees r b → Agrees (and_truth (some truthy) r) b
and_first-Agrees none b h = tt
and_first-Agrees (some falsy) b h = h
and_first-Agrees (some truthy) b h = h

or_first-Agrees :
    (r : Option Truthiness) (b : Bool) → Agrees r b → Agrees (or_truth (some falsy) r) b
or_first-Agrees none b h = tt
or_first-Agrees (some falsy) b h = h
or_first-Agrees (some truthy) b h = h

-- A true value leaves the truth to the next one, and a false value settles `and`.
and_next-Agrees :
    (r x : Option Truthiness) (b : Bool) → Agrees r true → Agrees x b → Agrees (and_truth r x) b
and_next-Agrees none none b h g = tt
and_next-Agrees none (some falsy) b h g = g
and_next-Agrees none (some truthy) b h g = tt
and_next-Agrees (some falsy) x b h g = cc
and_next-Agrees (some truthy) none b h g = tt
and_next-Agrees (some truthy) (some falsy) b h g = g
and_next-Agrees (some truthy) (some truthy) b h g = g

and_settled-Agrees : (r x : Option Truthiness) → Agrees r false → Agrees (and_truth r x) false
and_settled-Agrees none none h = tt
and_settled-Agrees none (some falsy) h = refl
and_settled-Agrees none (some truthy) h = tt
and_settled-Agrees (some falsy) x h = refl
and_settled-Agrees (some truthy) x h = cc

or_next-Agrees :
    (r x : Option Truthiness) (b : Bool) → Agrees r false → Agrees x b → Agrees (or_truth r x) b
or_next-Agrees none none b h g = tt
or_next-Agrees none (some truthy) b h g = g
or_next-Agrees none (some falsy) b h g = tt
or_next-Agrees (some truthy) x b h g = cc
or_next-Agrees (some falsy) none b h g = tt
or_next-Agrees (some falsy) (some falsy) b h g = g
or_next-Agrees (some falsy) (some truthy) b h g = g

or_settled-Agrees : (r x : Option Truthiness) → Agrees r true → Agrees (or_truth r x) true
or_settled-Agrees none none h = tt
or_settled-Agrees none (some truthy) h = refl
or_settled-Agrees none (some falsy) h = tt
or_settled-Agrees (some truthy) x h = refl
or_settled-Agrees (some falsy) x h = cc

and_values-settled :
    (known : Text → Option Truthiness) (values : Exprs) (r : Option Truthiness)
    → Agrees r false
    → Agrees (and_values known r values) false
unfolding of_expr
and_values-settled known end r h = h
and_values-settled known (value e values) r h =
    and_values-settled known values (and_truth r (of_expr known e))
      (and_settled-Agrees r (of_expr known e) h)

or_values-settled :
    (known : Text → Option Truthiness) (values : Exprs) (r : Option Truthiness)
    → Agrees r true
    → Agrees (or_values known r values) true
unfolding of_expr
or_values-settled known end r h = h
or_values-settled known (value e values) r h =
    or_values-settled known values (or_truth r (of_expr known e))
      (or_settled-Agrees r (of_expr known e) h)

module _ {V : Type 0} (python : Values V) (names : Text → V) (others : ℕ → V)
    (known : Text → Option Truthiness)
    (right : (n : Text) → Agrees (known n) (python.truth (names n))) where
  -- The value of an `and` or an `or` whose first value has the truth `b`.
  by_truth :
      (o : Option Truthiness) (b : Bool) (u v : V)
      → (b ≡ true → Agrees o (python.truth u))
      → (b ≡ false → Agrees o (python.truth v))
      → Agrees o (python.truth (if b then u else v))
  by_truth o true u v on_true on_false = on_true refl
  by_truth o false u v on_true on_false = on_false refl

  mutual
    unfolding of_expr evaluate

    sound : (e : Expr) → Agrees (of_expr known e) (python.truth (evaluate python names others e))
    sound (name n) = right n
    sound (boolean_literal b) = rw (python.truth-bool_value b) refl
    sound (not_op operand) =
        rw (python.truth-bool_value (not (python.truth (evaluate python names others operand))))
          (negated-Agrees (of_expr known operand) _ (sound operand))
    sound (and_op first values) =
        sound_and values (evaluate python names others first)
          (and_truth (some truthy) (of_expr known first))
          (and_first-Agrees (of_expr known first) _ (sound first))
    sound (or_op first values) =
        sound_or values (evaluate python names others first)
          (or_truth (some falsy) (of_expr known first))
          (or_first-Agrees (of_expr known first) _ (sound first))
    sound (other n) = tt

    sound_and :
        (values : Exprs) (v : V) (r : Option Truthiness)
        → Agrees r (python.truth v)
        → Agrees
            (and_values known r values)
            (python.truth (evaluate_and python names others v values))
    sound_and end v r h = h
    sound_and (value e values) v r h =
        by_truth _ (python.truth v)
          (evaluate_and python names others (evaluate python names others e) values) v
          (λ t.
            sound_and values (evaluate python names others e) (and_truth r (of_expr known e))
              (and_next-Agrees r (of_expr known e) _ (rw t at h) (sound e)))
          (λ f. rw f (
            and_values-settled known values (and_truth r (of_expr known e))
              (and_settled-Agrees r (of_expr known e) (rw f at h))))

    sound_or :
        (values : Exprs) (v : V) (r : Option Truthiness)
        → Agrees r (python.truth v)
        → Agrees
            (or_values known r values)
            (python.truth (evaluate_or python names others v values))
    sound_or end v r h = h
    sound_or (value e values) v r h =
        by_truth _ (python.truth v) v
          (evaluate_or python names others (evaluate python names others e) values)
          (λ t. rw t (
            or_values-settled known values (or_truth r (of_expr known e))
              (or_settled-Agrees r (of_expr known e) (rw t at h))))
          (λ f.
            sound_or values (evaluate python names others e) (or_truth r (of_expr known e))
              (or_next-Agrees r (of_expr known e) _ (rw f at h) (sound e)))

  -- If what is known of names is the truth of their values, then what is reported of an expression is the
  -- truth of the value that Python gives it, short circuits included, whatever the values of names and of
  -- expressions that are not looked into are.
  pub of_expr-Agrees :
      (e : Expr) → Agrees (of_expr known e) (python.truth (evaluate python names others e))
  of_expr-Agrees e = sound e
