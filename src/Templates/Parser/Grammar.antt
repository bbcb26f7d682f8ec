-- ===== src/Templates/Parser/Grammar.antt =====
-- What crates/djls-templates/src/parser.rs makes of a list of tokens, as rules.
use django_language_server.Base.{ℕ, ◌-◌, max, Bool, true, false, ◌≡◌, List, [], ◌∷◌, ◌++◌, All}
use django_language_server.Base.Result.{Result, ok, err}
use django_language_server.Source.Position.{span_of, span_end}
use django_language_server.Templates.Tokens.{Token, full_span_or_fallback, spans}
use django_language_server.Templates.Nodes.{Node, ParseError, StreamError, stream_error}
use django_language_server.Templates.Parser.{
  is_sync_point, block_node, comment_node, error_node, variable_node,
}

-- The node of a token that is not plain.
abbrev pub node_of : Token → Result ParseError Node
node_of (Token.block c s) = block_node (Token.block c s)
node_of (Token.comment c s) = comment_node (Token.comment c s)
node_of (Token.error c s d) = error_node (Token.error c s d)
node_of (Token.variable c s) = variable_node (Token.variable c s)
node_of token = err (stream_error StreamError.at_end)

-- The furthest end of a run of tokens.
abbrev pub run_end : ℕ → List Token → ℕ
run_end end [] = end
run_end end (token ∷ run) = run_end (max end (span_end (full_span_or_fallback token))) run

-- The first token, if there is one, passes the test.
abbrev pub StopsAt : (Token → Bool) → List Token → Type 0
StopsAt test [] = Unit
StopsAt test (token ∷ rest) = test token ≡ true

abbrev pub is_special : Token → Bool
is_special (Token.text c s) = false
is_special (Token.whitespace s) = false
is_special (Token.newline s) = false
is_special token = true

-- The nodes and the errors of the tokens before the last one. Plain tokens merge to the longest run;
-- a token that is malformed costs the plain and the malformed tokens behind it as well.
pub data Yields : List Token → List Node → List ParseError → Type 0 where
  done : Yields [] [] []
  merged :
      {nodes : List Node} {errors : List ParseError} {behind : List Token} (first : Token)
      (run rest : List Token)
      → behind ≡ run ++ rest
      → is_special first ≡ false
      → All (λ t. is_special t ≡ false) run
      → StopsAt is_special rest
      → Yields rest nodes errors
      → Yields
          (first ∷ behind)
          (Node.text (
              span_of (full_span_or_fallback first).start (
                run_end (span_end (full_span_or_fallback first)) run
                - (full_span_or_fallback first).start))
            ∷ nodes)
          errors
  made :
      {nodes : List Node} {errors : List ParseError} (token : Token) (node : Node)
      (rest : List Token)
      → is_special token ≡ true
      → node_of token ≡ ok node
      → Yields rest nodes errors
      → Yields (token ∷ rest) (node ∷ nodes) errors
  failed :
      {nodes : List Node} {errors : List ParseError} {behind : List Token} (token : Token)
      (e : ParseError) (skipped rest : List Token)
      → behind ≡ skipped ++ rest
      → is_special token ≡ true
      → node_of token ≡ err e
      → All (λ t. is_sync_point t ≡ false) skipped
      → StopsAt is_sync_point rest
      → Yields rest nodes errors
      → Yields (token ∷ behind) (Node.error (spans token).0 (spans token).1 e ∷ nodes) (e ∷ errors)
