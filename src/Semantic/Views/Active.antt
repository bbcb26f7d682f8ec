-- ===== src/Semantic/Views/Active.antt =====
-- crates/djls-semantic/src/structure/active.rs: the tags and variables that take effect.
use django_language_server.Base.{
  ℕ, zero, suc, ◌+◌, ◌-◌, Bool, ◌&&◌, ◌==◌, if◌then◌else◌, Option, none, some, List, [], ◌∷◌,
  get_elem?,
}
use django_language_server.Base.Text.{Text}
use django_language_server.Source.Position.{Span, span_end, saturating_from_bounds_usize}
use django_language_server.Templates.Tokens.{delimiter_length}
use django_language_server.Templates.Filters.{TagBit, Filter}
use django_language_server.Semantic.Tree.{RegionId, BlockRole, TemplateNode, Regions}
use django_language_server.Semantic.Views.{append_all, for_each}

pub data StructuralOccurrenceMeaning : Type 0 where
  definition captured_intermediate captured_closer : StructuralOccurrenceMeaning

pub record ActiveTemplateTag : Type 0 where
  pub tag : Text
  pub name_span : Span
  pub bits : List TagBit
  pub span : Span
  pub full_span : Span
  pub structural_meaning : StructuralOccurrenceMeaning

-- `ActiveTemplateTag::new`: the span is that between the delimiters.
abbrev pub new_tag :
    Text → Span → List TagBit → Span → StructuralOccurrenceMeaning → ActiveTemplateTag
new_tag tag name_span bits full_span structural_meaning = record {
  tag = tag;
  name_span = name_span;
  bits = bits;
  span =
      saturating_from_bounds_usize (full_span.start + delimiter_length)
        (span_end full_span - delimiter_length);
  full_span = full_span;
  structural_meaning = structural_meaning;
}

pub record ActiveTemplateVariable : Type 0 where
  pub var : Text
  pub var_span : Span
  pub filters : List Filter
  pub span : Span

pub data ActiveTemplateNode : Type 0 where
  tag : ActiveTemplateTag → ActiveTemplateNode
  variable : ActiveTemplateVariable → ActiveTemplateNode

-- `==` on spans.
abbrev pub same_span : Span → Span → Bool
same_span a b = a.start == b.start && a.length == b.length

-- A walk of a region, or of the body of a block with the span of its opener.
abbrev pub Walk : Type 0
Walk = Option Span → RegionId → Option (List ActiveTemplateNode)

abbrev pub push_tag :
    Text
    → Span
    → List TagBit
    → Span
    → StructuralOccurrenceMeaning
    → Option (List ActiveTemplateNode)
    → Option (List ActiveTemplateNode)
push_tag name name_span bits full_span meaning later =
    append_all (some (ActiveTemplateNode.tag (new_tag name name_span bits full_span meaning) ∷ []))
      later

-- `collect_active_nodes_for_node`, with the walk of a body.
abbrev pub node_active : Walk → TemplateNode → Option (List ActiveTemplateNode)
node_active walk (TemplateNode.block name name_span bits full_span body BlockRole.opener) =
    push_tag name name_span bits full_span definition (walk (some full_span) body)
node_active walk (TemplateNode.block name name_span bits full_span body BlockRole.segment) =
    push_tag name name_span bits full_span captured_intermediate (walk none body)
node_active walk (TemplateNode.standalone_tag name name_span bits full_span) =
    push_tag name name_span bits full_span definition (some [])
node_active walk (TemplateNode.variable var var_span filters span) = some (
    ActiveTemplateNode.variable
      (record { var = var; var_span = var_span; filters = filters; span = span })
    ∷ [])
node_active walk (TemplateNode.opaque name name_span bits full_span body_span) =
    push_tag name name_span bits (saturating_from_bounds_usize full_span.start body_span.start)
      definition (some [])
node_active walk (TemplateNode.comment span) = some []
node_active walk (TemplateNode.text span) = some []
node_active walk (TemplateNode.error span full_span) = some []

-- The arms of `collect_active_nodes_for_block_body`: the first segment stands where the opener does.
abbrev pub body_active : Walk → Span → TemplateNode → Option (List ActiveTemplateNode)
body_active walk opener_span
      (TemplateNode.block name name_span bits full_span body BlockRole.segment) =
    if same_span full_span opener_span
    then walk none body
    else node_active walk (TemplateNode.block name name_span bits full_span body BlockRole.segment)
body_active walk opener_span node = node_active walk node

-- `collect_active_nodes_for_region` and `collect_active_nodes_for_block_body`.
abbrev pub visit : Walk → Option Span → TemplateNode → Option (List ActiveTemplateNode)
visit walk none node = node_active walk node
visit walk (some opener_span) node = body_active walk opener_span node

unfoldable pub collect_active_nodes :
    ℕ → Regions → Option Span → RegionId → Option (List ActiveTemplateNode)
collect_active_nodes zero regions within id = none
collect_active_nodes (suc fuel) regions within id = elim (get_elem? regions id) [
  | none ↦ none
  | some r ↦
      for_each (visit (λ within' body. collect_active_nodes fuel regions within' body) within)
        r.nodes
]
