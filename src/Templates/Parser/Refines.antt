-- ===== src/Templates/Parser/Refines.antt =====
-- The parser of crates/djls-templates/src/parser.rs follows its rules.
use django_language_server.Base.{
  ℕ, zero, suc, ◌≤◌, true, false, ◌≡◌, refl, ap, ◌∙◌, List, [], ◌∷◌, ◌++◌, length, length-append,
  arith, inl, inr, ◌⊎◌, Bool-cases,
}
use django_language_server.Base.Result.{Result, ok, err}
use django_language_server.Source.Position.{span_end}
use django_language_server.Templates.Tokens.{Token, full_span_or_fallback, spans}
use django_language_server.Templates.Nodes.{Node, ParseError}
use django_language_server.Templates.Parser.{
  Parser, new, next_node, dispatch, parse_block, parse_comment, parse_error, parse_variable,
  parse_text, text_from, text_loop, recover, error_spans, parse_loop, parse, is_sync_point,
  with_previous, block_node, comment_node, error_node, variable_node,
}
use django_language_server.Templates.Parser.Grammar.{
  node_of, is_special, Yields, done, merged, made, failed,
}
use django_language_server.Templates.Parser.Rounds.{
  At, Behind, Stops, Stops-nil, advance, At-advance, Behind-advance, at_end_nil, at_end_cons,
  length_at, consume_cons, text_loop-Stops, synchronize_loop-Stops,
}

pub Result-cases :
    {E A : Type 0} (r : Result E A) → ((a : A) × (r ≡ ok a)) ⊎ ((e : E) × (r ≡ err e))
Result-cases (ok a) = inl (a, refl)
Result-cases (err e) = inr (e, refl)

with_previous_lem :
    (node : Token → Result ParseError Node) (p : Parser) (t : Token)
    → Behind p t
    → with_previous node p ≡ node t
with_previous_lem node p t h = rw (h, with_previous) refl

dispatch_special :
    (p : Parser) (t : Token) → Behind p t → is_special t ≡ true → dispatch p (ok t) ≡ (node_of t, p)
unfolding parse_block parse_comment parse_error parse_variable
dispatch_special p (Token.block c s) h e =
    ap (λ r. (r, p)) (with_previous_lem block_node p (Token.block c s) h)
dispatch_special p (Token.comment c s) h e =
    ap (λ r. (r, p)) (with_previous_lem comment_node p (Token.comment c s) h)
dispatch_special p (Token.error c s d) h e =
    ap (λ r. (r, p)) (with_previous_lem error_node p (Token.error c s d) h)
dispatch_special p Token.eof h e = refl
dispatch_special p (Token.variable c s) h e =
    ap (λ r. (r, p)) (with_previous_lem variable_node p (Token.variable c s) h)
dispatch_special p (Token.newline s) h e = cc
dispatch_special p (Token.text c s) h e = cc
dispatch_special p (Token.whitespace s) h e = cc

dispatch_plain : (p : Parser) (t : Token) → is_special t ≡ false → dispatch p (ok t) ≡ parse_text p
dispatch_plain p (Token.block c s) e = cc
dispatch_plain p (Token.comment c s) e = cc
dispatch_plain p (Token.error c s d) e = cc
dispatch_plain p Token.eof e = cc
dispatch_plain p (Token.variable c s) e = cc
dispatch_plain p (Token.newline s) e = refl
dispatch_plain p (Token.text c s) e = refl
dispatch_plain p (Token.whitespace s) e = refl

next_node_lem :
    (p : Parser) (t : Token) (rest : List Token)
    → At p (t ∷ rest)
    → next_node p ≡ dispatch (advance p) (ok t)
unfolding next_node
next_node_lem p t rest at = ap (λ r. dispatch r.1 r.0) (consume_cons p t rest at)

parse_text_lem : (p : Parser) (t : Token) → Behind p t → parse_text p ≡ text_from p (ok t)
unfolding parse_text
parse_text_lem p t h = ap (λ r. text_from p r) h

recover-Stops : (p : Parser) (rest : List Token) → At p rest → Stops is_sync_point rest (recover p)
recover-Stops p [] at = rw (at_end_nil p at) (Stops-nil is_sync_point p at)
recover-Stops p (t ∷ rest) at = rw (at_end_cons p t rest at) (
    synchronize_loop-Stops (length p.tokens) p (t ∷ rest) at
      (omega (arith, length_at p (t ∷ rest) at)))

error_spans_lem : (p : Parser) (t : Token) → Behind p t → error_spans p ≡ spans t
error_spans_lem p t h = rw h refl

later_length :
    {A : Type 0} (rest run later : List A) (n : ℕ)
    → rest ≡ run ++ later
    → length rest ≤ n
    → length later ≤ n
later_length rest run later n split le =
    omega (arith, ap (λ xs. length xs) split, length-append run later, le)

parse_loop-Yields :
    (fuel : ℕ) (p : Parser) (rest : List Token)
    → At p rest
    → length rest ≤ fuel
    → Yields rest (parse_loop fuel p).0 (parse_loop fuel p).1
unfolding parse_loop
parse_loop-Yields zero p [] at enough = done
parse_loop-Yields zero p (t ∷ rest) at enough = absurd (omega arith)
parse_loop-Yields (suc fuel) p [] at enough = rw (at_end_nil p at, parse_loop) done
parse_loop-Yields (suc fuel) p (t ∷ rest) at enough =
    let moved = At-advance p t rest at in
    let behind = Behind-advance p t rest at in
    elim (Bool-cases (is_special t)) [
      | inl special ↦
          let step = next_node_lem p t rest at ∙ dispatch_special (advance p) t behind special in
          elim (Result-cases (node_of t)) [
            | inl (node, made_node) ↦
                let later = parse_loop-Yields fuel (advance p) rest moved (omega arith) in
                rw (at_end_cons p t rest at, step, made_node, step, parse_loop)
                  (made t node rest special made_node later)
            | inr (e, broken) ↦
                let s = recover-Stops (advance p) rest moved in
                let later =
                  parse_loop-Yields fuel (recover (advance p)) s.later s.at
                    (later_length rest s.run s.later fuel s.split (omega arith)) in
                rw
                  (
                    at_end_cons p t rest at,
                    step,
                    broken,
                    step,
                    error_spans_lem (advance p) t behind,
                    parse_loop,
                  )
                  (failed t e s.run s.later s.split special broken s.passed s.stops later)
          ]
      | inr plain ↦
          let start = full_span_or_fallback t in
          let step =
            next_node_lem p t rest at
            ∙ dispatch_plain (advance p) t plain
            ∙ parse_text_lem (advance p) t behind in
          let (s, end) =
            text_loop-Stops (length p.tokens) (advance p) (span_end start) rest moved
              (omega (arith, length_at (advance p) rest moved)) in
          let p' = (text_loop (length p.tokens) (advance p) (span_end start)).1 in
          let later =
            parse_loop-Yields fuel p' s.later s.at
              (later_length rest s.run s.later fuel s.split (omega arith)) in
          rw (at_end_cons p t rest at, step, end, step, parse_loop)
            (merged t s.run s.later s.split plain s.passed s.stops later)
    ]

-- On every list of tokens that ends in `Eof` the parser comes to the end, and gives the nodes and the
-- errors of the rules: each longest run of text, whitespace and line breaks is one text node with the
-- span from its start to its furthest end; every other token before the last gives its own node or
-- its own error, and behind an error all is skipped up to the next tag, variable or comment.
pub parse-Yields :
    (tokens : List Token)
    → Yields tokens (parse (tokens ++ Token.eof ∷ [])).0 (parse (tokens ++ Token.eof ∷ [])).1
unfolding parse
parse-Yields tokens =
    parse_loop-Yields (length (tokens ++ Token.eof ∷ [])) (new (tokens ++ Token.eof ∷ [])) tokens
      (record { before = []; split = refl; here = refl })
      (omega (arith, length-append tokens (Token.eof ∷ [])))
