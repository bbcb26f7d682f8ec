-- ===== src/Semantic/Operations.antt =====
-- The operations of crates/djls-semantic/src/structure/builder.rs, applied to the regions.
use django_language_server.Base.{Option, none, some, List, [], ◌∷◌, ◌++◌}
use django_language_server.Semantic.Tree.{
  RegionId, Regions, push_node, extend_region, finalize_region_span,
}
use django_language_server.Semantic.Frames.{
  ValidationError, TreeOp, CapturedClosingTag, add_node, extend_region_span, finalize_span_to,
  accumulate_diagnostic,
}

-- One operation, on the regions and the diagnostics so far.
abbrev pub with_diagnostics :
    List ValidationError → Option Regions → Option (Regions × List ValidationError)
with_diagnostics diagnostics none = none
with_diagnostics diagnostics (some regions) = some (regions, diagnostics)

unfoldable pub apply_op :
    TreeOp → Regions → List ValidationError → Option (Regions × List ValidationError)
apply_op (add_node target node) regions diagnostics =
    with_diagnostics diagnostics (push_node regions target node)
apply_op (extend_region_span id span) regions diagnostics =
    with_diagnostics diagnostics (extend_region regions id span)
apply_op (finalize_span_to id end) regions diagnostics =
    with_diagnostics diagnostics (finalize_region_span regions id end)
apply_op (accumulate_diagnostic e) regions diagnostics = some (regions, diagnostics ++ e ∷ [])

unfoldable pub apply_ops :
    List TreeOp → Regions → List ValidationError → Option (Regions × List ValidationError)
apply_ops [] regions diagnostics = some (regions, diagnostics)
apply_ops (op ∷ ops) regions diagnostics = elim (apply_op op regions diagnostics) [
  | none ↦ none
  | some (regions', diagnostics') ↦ apply_ops ops regions' diagnostics'
]

pub record TemplateTreeData : Type 0 where
  pub root : RegionId
  pub regions : Regions
  pub captured_closers : List CapturedClosingTag
  pub diagnostics : List ValidationError
