-- ===== src/Semantic/Tree/Hull.antt =====
-- The span of a region of crates/djls-semantic/src/structure/tree.rs grows to hold what is added.
use django_language_server.Base.{min, max, ◌≡◌, arith}
use django_language_server.Source.Position.{Span, span_end, expand}
use django_language_server.Source.Position.Bounds.{Fits}
use django_language_server.Semantic.Tree.{extend_span}

-- Of two spans whose ends are in the range of `u32`, the first extended by the second starts where
-- the first of them starts and ends where the last of them ends.
pub extend_span-hull :
    (own span : Span)
    → Fits own
    → Fits span
    → ((extend_span own span).start ≡ min own.start span.start)
      × (span_end (extend_span own span) ≡ max (span_end own) (span_end span))
unfolding extend_span expand
extend_span-hull own span own_fits span_fits = ground (arith, own_fits, span_fits)
