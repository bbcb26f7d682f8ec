-- ===== src/Semantic/Opaque/Tests.antt =====
-- The opaque regions of crates/djls-semantic/src/structure/opaque.rs at concrete spans.
use django_language_server.Base.{true, false, ◌≡◌, refl, none, [], ◌∷◌, any, arith, inr}
use django_language_server.Base.Text.{text}
use django_language_server.Source.Position.{Span, span_of, contains}
use django_language_server.Semantic.Tree.{TemplateNode, Regions}
use django_language_server.Semantic.Opaque.{is_opaque, bodies_of, opaque_regions_from_tree}
use django_language_server.Semantic.Opaque.Search.{is_opaque_lem}

abbrev opaque_node : Span → TemplateNode
opaque_node body = TemplateNode.opaque (text "comment") body [] body body

-- Bodies from 30 to 40, and from 10 to 20.
abbrev regions : Regions
regions =
    (record {
      span = span_of 0 50;
      nodes =
          opaque_node (span_of 30 10)
          ∷ TemplateNode.text (span_of 20 10)
          ∷ opaque_node (span_of 10 10)
          ∷ [];
      parent = none;
    })
    ∷ []

inside_first : is_opaque (opaque_regions_from_tree regions) 15 ≡ true
unfolding is_opaque opaque_regions_from_tree
inside_first = refl

between : is_opaque (opaque_regions_from_tree regions) 20 ≡ false
unfolding is_opaque opaque_regions_from_tree
between = refl

is_opaque_lem_example :
    is_opaque (opaque_regions_from_tree regions) 35 ≡ any (λ s. contains s 35) (bodies_of regions)
is_opaque_lem_example = is_opaque_lem regions 35 ((inr (omega arith, omega arith), tt), (tt, tt))
