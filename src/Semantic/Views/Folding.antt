-- ===== src/Semantic/Views/Folding.antt =====
-- crates/djls-semantic/src/structure/folding.rs: the folds of a template.
use django_language_server.Base.{
  ℕ, zero, suc, ltb, if◌then◌else◌, Option, none, some, List, [], ◌∷◌, get_elem?,
}
use django_language_server.Base.Text.{Text, text_eq, text}
use django_language_server.Source.Position.{Span, span_end, saturating_from_bounds_usize}
use django_language_server.Semantic.Tree.{
  RegionId, BlockRole, TemplateNode, TemplateRegion, Regions,
}
use django_language_server.Semantic.Views.{append_all, for_each}

pub data TemplateFoldKind : Type 0 where
  region comment : TemplateFoldKind

pub record TemplateFold : Type 0 where
  pub span : Span
  pub kind : TemplateFoldKind

abbrev pub from_tag_name : Text → TemplateFoldKind
from_tag_name name =
    if text_eq name (text "comment") then TemplateFoldKind.comment else TemplateFoldKind.region

-- The fold of a block whose body ends at `end`, if that is behind the opener.
abbrev pub block_fold : Text → Span → ℕ → List TemplateFold
block_fold tag full_span end =
    if ltb (span_end full_span) end
    then (record {
      span = saturating_from_bounds_usize full_span.start end;
      kind = from_tag_name tag;
    })
      ∷ []
    else []

abbrev pub body_fold : Text → Span → Option TemplateRegion → Option (List TemplateFold)
body_fold tag full_span none = none
body_fold tag full_span (some r) = some (block_fold tag full_span (span_end r.span))

-- The arms of `collect_folds_for_region`, with the walk of a body.
abbrev pub node_folds :
    (RegionId → Option (List TemplateFold)) → Regions → TemplateNode → Option (List TemplateFold)
node_folds walk regions (TemplateNode.block tag name_span bits full_span body BlockRole.opener) =
    append_all (body_fold tag full_span (get_elem? regions body)) (walk body)
node_folds walk regions (TemplateNode.block tag name_span bits full_span body BlockRole.segment) =
    walk body
node_folds walk regions (TemplateNode.opaque tag name_span bits full_span body_span) =
    some ((record { span = full_span; kind = from_tag_name tag }) ∷ [])
node_folds walk regions (TemplateNode.standalone_tag tag name_span bits full_span) = some []
node_folds walk regions (TemplateNode.variable var var_span filters span) = some []
node_folds walk regions (TemplateNode.comment span) = some []
node_folds walk regions (TemplateNode.text span) = some []
node_folds walk regions (TemplateNode.error span full_span) = some []

unfoldable pub collect_folds_for_region : ℕ → Regions → RegionId → Option (List TemplateFold)
collect_folds_for_region zero regions id = none
collect_folds_for_region (suc fuel) regions id = elim (get_elem? regions id) [
  | none ↦ none
  | some r ↦
      for_each (node_folds (λ body. collect_folds_for_region fuel regions body) regions) r.nodes
]
