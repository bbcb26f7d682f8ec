-- ===== src/Semantic/Tree.antt =====
-- crates/djls-semantic/src/structure/tree.rs: the arena of regions. An index out of range panics in
-- the source and is `none` here.
pub mod Hull
mod Tests
use django_language_server.Base.{
  ℕ, zero, suc, ◌+◌, ◌-◌, Option, none, some, List, [], ◌∷◌, ◌++◌, map, get_elem?,
}
use django_language_server.Base.Text.{Text}
use django_language_server.Source.Position.{Span, span_end, expand, saturating_from_bounds_usize}
use django_language_server.Templates.Filters.{TagBit, Filter}

-- `RegionId`.
abbrev pub RegionId : Type 0
RegionId = ℕ

pub data BlockRole : Type 0 where
  opener segment : BlockRole

pub data TemplateNode : Type 0 where
  block :
      (tag : Text) (name_span : Span) (bits : List TagBit) (full_span : Span) (body : RegionId)
      (role : BlockRole)
      → TemplateNode
  opaque :
      (tag : Text) (name_span : Span) (bits : List TagBit) (full_span body_span : Span)
      → TemplateNode
  standalone_tag :
      (tag : Text) (name_span : Span) (bits : List TagBit) (full_span : Span) → TemplateNode
  variable : (var : Text) (var_span : Span) (filters : List Filter) (span : Span) → TemplateNode
  comment : (span : Span) → TemplateNode
  text : (span : Span) → TemplateNode
  error : (span full_span : Span) → TemplateNode

-- `TemplateNode::span`.
abbrev pub node_span : TemplateNode → Span
node_span (TemplateNode.block tag name_span bits full_span body role) = full_span
node_span (TemplateNode.opaque tag name_span bits full_span body_span) = full_span
node_span (TemplateNode.standalone_tag tag name_span bits full_span) = full_span
node_span (TemplateNode.error span full_span) = full_span
node_span (TemplateNode.variable var var_span filters span) = span
node_span (TemplateNode.comment span) = span
node_span (TemplateNode.text span) = span

pub record TemplateRegion : Type 0 where
  pub span : Span
  pub nodes : List TemplateNode
  pub parent : Option RegionId

abbrev pub Regions : Type 0
Regions = List TemplateRegion

-- `TemplateRegion::new`.
abbrev pub new : Span × Option RegionId → TemplateRegion
new (span, parent) = record { span = span; nodes = []; parent = parent }

-- `TemplateRegion::extend_span`.
unfoldable pub extend_span : Span → Span → Span
extend_span own span = expand own (own.start - span.start) (span_end span - span_end own)

abbrev pub set_span : Span → TemplateRegion → TemplateRegion
set_span span region = record region { span = span }

abbrev pub from_allocations : List (Span × Option RegionId) → Regions
from_allocations allocations = map new allocations

-- The region at `id` is replaced.
unfoldable pub region_mut : Regions → RegionId → (TemplateRegion → TemplateRegion) → Option Regions
region_mut [] id change = none
region_mut (region ∷ regions) zero change = some (change region ∷ regions)
region_mut (region ∷ regions) (suc id) change = elim (region_mut regions id change) [
  | none ↦ none
  | some regions' ↦ some (region ∷ regions')
]

abbrev pub extended : Span → TemplateRegion → TemplateRegion
extended span region = set_span (extend_span region.span span) region

abbrev pub extend_region : Regions → RegionId → Span → Option Regions
extend_region regions id span = region_mut regions id (extended span)

abbrev pub finalized : ℕ → TemplateRegion → TemplateRegion
finalized end region = set_span (saturating_from_bounds_usize region.span.start end) region

abbrev pub finalize_region_span : Regions → RegionId → ℕ → Option Regions
finalize_region_span regions id end = region_mut regions id (finalized end)

abbrev pub with_node : TemplateNode → TemplateRegion → TemplateRegion
with_node node region = record region { nodes = region.nodes ++ node ∷ [] }

abbrev pub push_node : Regions → RegionId → TemplateNode → Option Regions
push_node regions target node = elim (extend_region regions target (node_span node)) [
  | none ↦ none
  | some regions' ↦ region_mut regions' target (with_node node)
]
