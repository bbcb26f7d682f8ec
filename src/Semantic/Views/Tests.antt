-- ===== src/Semantic/Views/Tests.antt =====
-- The views of a tree of crates/djls-semantic/src/structure at concrete nodes.
use django_language_server.Base.{◌≡◌, true, false, none, some, List, [], ◌∷◌, length}
use django_language_server.Base.Text.{text}
use django_language_server.Source.Position.{span_of}
use django_language_server.Templates.Nodes.{Node}
use django_language_server.Semantic.Frames.{SparseTagGrammar, opener_class}
use django_language_server.Semantic.Operations.{TemplateTreeData}
use django_language_server.Semantic.Builder.{model_data}
use django_language_server.Semantic.Views.Folding.{collect_folds_for_region}
use django_language_server.Semantic.Views.Active.{collect_active_nodes}
use django_language_server.Semantic.Views.Total.{IsSome, views_end}

-- The tag whose name starts at 3 opens a `with`.
abbrev grammar : SparseTagGrammar
grammar = record {
  facts =
      opener_class (record {
        closer = text "endwith";
        intermediates = [];
        end_required = true;
        is_opaque = false;
      })
      ∷ [];
  occurrences = (3, 0) ∷ [];
}

-- "{% with %}x{% endwith %}".
abbrev nodes : List Node
nodes =
    Node.tag (text "with") (span_of 3 4) [] (span_of 2 6)
    ∷ Node.text (span_of 10 1)
    ∷ Node.tag (text "endwith") (span_of 14 7) [] (span_of 13 9)
    ∷ []

views_end_example :
    (t : TemplateTreeData) × (model_data grammar nodes ≡ some t)
    × IsSome (collect_folds_for_region (length t.regions) t.regions t.root)
    × IsSome (collect_active_nodes (length t.regions) t.regions none t.root)
views_end_example = views_end grammar nodes
