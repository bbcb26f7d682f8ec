-- ===== src/Semantic/Tree/Tests.antt =====
-- Runs of crates/djls-semantic/src/structure/tree.rs.
use django_language_server.Base.{◌≡◌, min, max, arith}
use django_language_server.Source.Position.{span_of, span_end}
use django_language_server.Semantic.Tree.{extend_span}
use django_language_server.Semantic.Tree.Hull.{extend_span-hull}

extend_span-hull_example :
    ((extend_span (span_of 7 3) (span_of 2 4)).start ≡ min 7 2)
    × (span_end (extend_span (span_of 7 3) (span_of 2 4))
        ≡ max (span_end (span_of 7 3)) (span_end (span_of 2 4)))
extend_span-hull_example = extend_span-hull (span_of 7 3) (span_of 2 4) (omega arith) (omega arith)
