-- ===== src/Semantic/IfExpression/Accepts.antt =====
-- The parser of crates/djls-semantic/src/validation/if_expressions.rs lets pass exactly the language
-- of Language.antt.
use django_language_server.Base.{
  ℕ, zero, suc, ◌+◌, ◌≤◌, ◌<◌, Bool, true, false, ltb, ◌≡◌, ◌≢◌, refl, sym, ◌∙◌, Option, none, some,
  List, [], ◌∷◌, length, All, arith, Bool-cases, inl, inr, ◌&&◌, if◌then◌else◌,
}
use django_language_server.Base.Result.{Result, ok, err}
use django_language_server.Base.Text.{Text}
use django_language_server.Templates.Filters.{TagBit}
use django_language_server.Semantic.IfExpression.{
  Operator, Token, literal, operator, end, lbp, operator_lbp, single, is_word, tokenize,
  IfExpressionParser, at, Step, accept, operand, refuse, nud, led, Phase, start, loop, and_then,
  expression, at_end, parse_result, parse, validate_expression,
}
use django_language_server.Semantic.IfExpression.Language.{Want, an_operand, an_operator, accepts}

abbrev NotEnd : Token → Type 0
NotEnd t = t ≢ end

-- What a token does where an operand is wanted, and where an operator is.
data Reads (want : Want) (step : Step) (t : Token) (ts : List Token) : Type 0 where
  accepted : step ≡ accept → accepts want (t ∷ ts) ≡ accepts an_operator ts → Reads want step t ts
  inner :
      (power : ℕ)
      → step ≡ operand power
      → accepts want (t ∷ ts) ≡ accepts an_operand ts
      → Reads want step t ts
  refused : (m : Text) → step ≡ refuse m → accepts want (t ∷ ts) ≡ false → Reads want step t ts

nud-Reads : (t : Token) (ts : List Token) → Reads an_operand (nud t) t ts
nud-Reads (literal s) ts = accepted refl refl
nud-Reads (operator Operator.not) ts = inner _ refl refl
nud-Reads (operator Operator.or) ts = refused _ refl refl
nud-Reads (operator Operator.and) ts = refused _ refl refl
nud-Reads (operator Operator.is_in) ts = refused _ refl refl
nud-Reads (operator Operator.not_in) ts = refused _ refl refl
nud-Reads (operator Operator.is) ts = refused _ refl refl
nud-Reads (operator Operator.is_not) ts = refused _ refl refl
nud-Reads (operator Operator.eq) ts = refused _ refl refl
nud-Reads (operator Operator.ne) ts = refused _ refl refl
nud-Reads (operator Operator.gt) ts = refused _ refl refl
nud-Reads (operator Operator.ge) ts = refused _ refl refl
nud-Reads (operator Operator.lt) ts = refused _ refl refl
nud-Reads (operator Operator.le) ts = refused _ refl refl
nud-Reads end ts = refused _ refl refl

led-Reads : (t : Token) (ts : List Token) → Reads an_operator (led t) t ts
led-Reads (literal s) ts = refused _ refl refl
led-Reads (operator Operator.not) ts = refused _ refl refl
led-Reads (operator Operator.or) ts = inner _ refl refl
led-Reads (operator Operator.and) ts = inner _ refl refl
led-Reads (operator Operator.is_in) ts = inner _ refl refl
led-Reads (operator Operator.not_in) ts = inner _ refl refl
led-Reads (operator Operator.is) ts = inner _ refl refl
led-Reads (operator Operator.is_not) ts = inner _ refl refl
led-Reads (operator Operator.eq) ts = inner _ refl refl
led-Reads (operator Operator.ne) ts = inner _ refl refl
led-Reads (operator Operator.gt) ts = inner _ refl refl
led-Reads (operator Operator.ge) ts = inner _ refl refl
led-Reads (operator Operator.lt) ts = inner _ refl refl
led-Reads (operator Operator.le) ts = inner _ refl refl
led-Reads end ts = refused _ refl refl

-- The run ends, either before tokens that decide whether the rest is accepted, or with an error where
-- the tokens are not accepted.
data Settles (want : Want) (ts : List Token) (rbp : ℕ) (r : Option (Result Text IfExpressionParser))
    : Type 0 where
  passes :
      (later : List Token)
      → r ≡ some (ok (at later))
      → accepts want ts ≡ accepts an_operator later
      → length later ≤ length ts
      → ltb rbp (lbp (at later).current) ≡ false
      → All NotEnd later
      → Settles want ts rbp r
  fails : (m : Text) → r ≡ some (err m) → accepts want ts ≡ false → Settles want ts rbp r

abbrev want_of : Phase → Want
want_of start = an_operand
want_of loop = an_operator

Settles-weaken :
    (want next : Want) (ts later : List Token) (rbp : ℕ)
    (r : Option (Result Text IfExpressionParser))
    → accepts want ts ≡ accepts next later
    → length later ≤ length ts
    → Settles next later rbp r
    → Settles want ts rbp r
Settles-weaken want next ts later rbp r same shorter (passes last e a len stops all) =
    passes last e (same ∙ a) (omega (arith, len, shorter)) stops all
Settles-weaken want next ts later rbp r same shorter (fails m e a) = fails m e (same ∙ a)

and_then-Settles :
    (want : Want) (ts : List Token) (power rbp : ℕ) (r : Option (Result Text IfExpressionParser))
    (next : IfExpressionParser → Option (Result Text IfExpressionParser))
    → Settles want ts power r
    → ((later : List Token)
        → All NotEnd later
        → length later ≤ length ts
        → Settles an_operator later rbp (next (at later)))
    → Settles want ts rbp (and_then r next)
and_then-Settles want ts power rbp r next (fails m e a) go_on = rw (e, and_then) (fails m refl a)
and_then-Settles want ts power rbp r next (passes later e a len stops all) go_on =
    rw (e, and_then)
      (Settles-weaken want an_operator ts later rbp (next (at later)) a len (go_on later all len))

expression-Settles :
    (fuel : ℕ) (phase : Phase) (rbp : ℕ) (ts : List Token)
    → All NotEnd ts
    → length ts < fuel
    → Settles (want_of phase) ts rbp (expression fuel phase rbp (at ts))
unfolding expression
expression-Settles zero phase rbp ts all enough = absurd (omega arith)
expression-Settles (suc fuel) start rbp [] all enough = fails _ refl refl
expression-Settles (suc fuel) start rbp (t ∷ ts) all enough = elim (nud-Reads t ts) [
  | accepted e a ↦
      rw (e, expression)
        (Settles-weaken an_operand an_operator (t ∷ ts) ts rbp (expression fuel loop rbp (at ts)) a
          (omega arith) (expression-Settles fuel loop rbp ts all.1 (omega arith)))
  | refused m e a ↦ rw (e, expression) (fails m refl a)
  | inner power e a ↦
      rw (e, expression)
        (Settles-weaken an_operand an_operand (t ∷ ts) ts rbp _ a (omega arith) (
          and_then-Settles an_operand ts power rbp (expression fuel start power (at ts))
            (λ p'. expression fuel loop rbp p')
            (expression-Settles fuel start power ts all.1 (omega arith))
            (λ later all' len. expression-Settles fuel loop rbp later all' (omega (arith, len)))))
]
expression-Settles (suc fuel) loop rbp [] all enough =
    let stop : ltb rbp 0 ≡ false = ground arith in
    rw (stop, expression) (passes [] refl refl (omega arith) stop tt)
expression-Settles (suc fuel) loop rbp (t ∷ ts) all enough = elim (Bool-cases (ltb rbp (lbp t))) [
  | inr stop ↦ rw (stop, expression) (passes (t ∷ ts) refl refl (omega arith) stop all)
  | inl on ↦ elim (led-Reads t ts) [
    | accepted e a ↦
        rw (on, e, expression)
          (Settles-weaken an_operator an_operator (t ∷ ts) ts rbp (expression fuel loop rbp (at ts))
            a (omega arith) (expression-Settles fuel loop rbp ts all.1 (omega arith)))
    | refused m e a ↦ rw (on, e, expression) (fails m refl a)
    | inner power e a ↦
        rw (on, e, expression)
          (Settles-weaken an_operator an_operand (t ∷ ts) ts rbp _ a (omega arith) (
            and_then-Settles an_operand ts power rbp (expression fuel start power (at ts))
              (λ p'. expression fuel loop rbp p')
              (expression-Settles fuel start power ts all.1 (omega arith))
              (λ later all' len. expression-Settles fuel loop rbp later all' (omega (arith, len)))))
  ]
]

operator_lbp-pos : (op : Operator) → 0 < operator_lbp op
operator_lbp-pos Operator.or = omega arith
operator_lbp-pos Operator.and = omega arith
operator_lbp-pos Operator.not = omega arith
operator_lbp-pos Operator.is_in = omega arith
operator_lbp-pos Operator.not_in = omega arith
operator_lbp-pos Operator.is = omega arith
operator_lbp-pos Operator.is_not = omega arith
operator_lbp-pos Operator.eq = omega arith
operator_lbp-pos Operator.ne = omega arith
operator_lbp-pos Operator.gt = omega arith
operator_lbp-pos Operator.ge = omega arith
operator_lbp-pos Operator.lt = omega arith
operator_lbp-pos Operator.le = omega arith

abbrev pub is_none : Option Text → Bool
is_none none = true
is_none (some m) = false

at_end_lem :
    (later : List Token)
    → ltb 0 (lbp (at later).current) ≡ false
    → All NotEnd later
    → is_none (at_end (at later)) ≡ accepts an_operator later
at_end_lem [] stop all = refl
at_end_lem (literal s ∷ later) stop all = refl
at_end_lem (end ∷ later) stop all = absurd (all.0 refl)
at_end_lem (operator op ∷ later) stop all = absurd (ground (arith, operator_lbp-pos op, stop))

parse-accepts :
    (tokens : List Token)
    → All NotEnd tokens
    → (e : Option Text) × (parse tokens ≡ some e) × (is_none e ≡ accepts an_operand tokens)
unfolding parse
parse-accepts tokens all =
    elim (expression-Settles (length tokens + 1) start 0 tokens all (omega arith)) [
      | passes later e a len stops all' ↦
          (at_end (at later), rw (e, parse_result) refl, at_end_lem later stops all' ∙ sym a)
      | fails m e a ↦ (some m, rw (e, parse_result) refl, sym a)
    ]

if-NotEnd : (c : Bool) (x y : Token) → NotEnd x → NotEnd y → NotEnd (if c then x else y)
if-NotEnd true x y hx hy = hx
if-NotEnd false x y hx hy = hy

if-All :
    (c : Bool) (xs ys : List Token)
    → All NotEnd xs
    → All NotEnd ys
    → All NotEnd (if c then xs else ys)
if-All true xs ys hx hy = hx
if-All false xs ys hx hy = hy

operator-NotEnd : (op : Operator) → NotEnd (operator op)
operator-NotEnd op e = cc

literal-NotEnd : (s : Text) → NotEnd (literal s)
literal-NotEnd s e = cc

keyword-NotEnd :
    (word : Text) (op : Operator) (other : Token)
    → NotEnd other
    → NotEnd (if is_word word op then operator op else other)
keyword-NotEnd word op other h =
    if-NotEnd (is_word word op) (operator op) other (operator-NotEnd op) h

single-NotEnd : (word : Text) → NotEnd (single word)
single-NotEnd word = keyword-NotEnd word Operator.or _ (
    keyword-NotEnd word Operator.and _ (
      keyword-NotEnd word Operator.not _ (
        keyword-NotEnd word Operator.is_in _ (
          keyword-NotEnd word Operator.is _ (
            keyword-NotEnd word Operator.eq _ (
              keyword-NotEnd word Operator.ne _ (
                keyword-NotEnd word Operator.gt _ (
                  keyword-NotEnd word Operator.ge _ (
                    keyword-NotEnd word Operator.lt _
                      (keyword-NotEnd word Operator.le _ (literal-NotEnd word)))))))))))

tokenize-NotEnd : (bits : List TagBit) → All NotEnd (tokenize bits)
unfolding tokenize
tokenize-NotEnd [] = tt
tokenize-NotEnd (bit ∷ []) = (single-NotEnd bit.text, tt)
tokenize-NotEnd (bit ∷ next ∷ bits) =
    let rest = tokenize-NotEnd bits in
    if-All (is_word bit.text Operator.is && is_word next.text Operator.not) _ _
      (operator-NotEnd Operator.is_not, rest)
      (if-All (is_word bit.text Operator.not && is_word next.text Operator.is_in) _ _
        (operator-NotEnd Operator.not_in, rest)
        (single-NotEnd bit.text, tokenize-NotEnd (next ∷ bits)))

-- The check of a condition comes to an end for every list of bits, and finds no error exactly where
-- the bits, read as tokens, are operands with an infix operator between each two of them, an operand
-- being a literal behind any number of `not`.
pub validate_expression-accepts :
    (bits : List TagBit)
    → (e : Option Text) × (validate_expression bits ≡ some e)
      × (is_none e ≡ accepts an_operand (tokenize bits))
unfolding validate_expression
validate_expression-accepts [] = (some _, refl, unfold tokenize in refl)
validate_expression-accepts (bit ∷ bits) =
    parse-accepts (tokenize (bit ∷ bits)) (tokenize-NotEnd (bit ∷ bits))
