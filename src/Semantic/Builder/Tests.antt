-- ===== src/Semantic/Builder/Tests.antt =====
-- Runs of crates/djls-semantic/src/structure/builder.rs.
use django_language_server.Base.{true, false, List, [], ◌∷◌}
use django_language_server.Base.Text.{text as literal}
use django_language_server.Source.Position.{span_of}
use django_language_server.Templates.Nodes.{Node}
use django_language_server.Semantic.Frames.{SparseTagGrammar, OpeningContract, opener_class}
use django_language_server.Semantic.Builder.{visit_node, model_data}
use django_language_server.Semantic.BuilderState.{new}
use django_language_server.Semantic.Builder.Bounds.{WellFormed}
use django_language_server.Semantic.Builder.Steps.{WellFormed-new}
use django_language_server.Semantic.Builder.Visits.{visit_node-WellFormed}
use django_language_server.Semantic.Builder.Complete.{Completes, model_data-Completes}

abbrev if_contract : OpeningContract
if_contract = record {
  closer = literal "endif";
  intermediates = literal "else" ∷ [];
  end_required = true;
  is_opaque = false;
}

-- Tags whose names start at 3 and at 30 open an `if`.
abbrev grammar : SparseTagGrammar
grammar = record { facts = opener_class if_contract ∷ []; occurrences = (3, 0) ∷ (30, 0) ∷ [] }

abbrev if_tag : Node
if_tag = Node.tag (literal "if") (span_of 3 2) [] (span_of 2 4)

abbrev nodes : List Node
nodes =
    if_tag
    ∷ Node.text (span_of 8 2)
    ∷ Node.tag (literal "else") (span_of 13 4) [] (span_of 12 6)
    ∷ Node.tag (literal "endif") (span_of 23 5) [] (span_of 22 7)
    ∷ Node.tag (literal "if") (span_of 30 2) [] (span_of 29 4)
    ∷ []

visit_node-WellFormed_example : WellFormed (visit_node (new grammar) if_tag)
visit_node-WellFormed_example = visit_node-WellFormed (new grammar) if_tag (WellFormed-new grammar)

model_data-Completes_example : Completes (model_data grammar nodes)
model_data-Completes_example = model_data-Completes grammar nodes
