-- ===== src/Semantic/Builder/Opens.antt =====
-- The steps of crates/djls-semantic/src/structure/builder.rs that open a block, opaque content or a segment.
use django_language_server.Base.{
  ◌+◌, ◌-◌, ◌<◌, ◌≡◌, some, List, [], ◌∷◌, length, length-append, arith, Bool-cases, inl, inr,
  saturating_add,
}
use django_language_server.Base.Text.{Text}
use django_language_server.Source.Position.{Span, span_of, span_end}
use django_language_server.Templates.Tokens.{delimiter_length}
use django_language_server.Templates.Filters.{TagBit}
use django_language_server.Semantic.Tree.{RegionId, BlockRole, TemplateNode}
use django_language_server.Semantic.Frames.{
  OpeningContract, finalize_span_to, add_node, BlockFrame, TreeFrame, block_frame, opaque_frame,
  has_name,
}
use django_language_server.Semantic.Builder.{open_segment, intermediate_at, open_opaque, open_block}
use django_language_server.Semantic.BuilderState.{
  TemplateTreeBuilder, push_op, alloc_region, active_region, expand_template_tag_marker,
}
use django_language_server.Semantic.Builder.Bounds.{WellFormed, frames-weaken, active_region-lt}
use django_language_server.Semantic.Builder.Steps.{
  FramesInRange, push_op-WellFormed, set_stack-WellFormed, alloc_region-WellFormed,
}

length-alloc :
    (b : TemplateTreeBuilder) (span : Span) (parent : RegionId)
    → length (alloc_region b span parent).region_allocs ≡ length b.region_allocs + 1
length-alloc b span parent = length-append b.region_allocs ((span, some parent) ∷ [])

open_segment-WellFormed :
    (b : TemplateTreeBuilder) (f : BlockFrame) (frames : List TreeFrame) (name : Text)
    (name_span : Span) (bits : List TagBit) (span : Span)
    → WellFormed b
    → FramesInRange b (block_frame f ∷ frames)
    → WellFormed (open_segment b f frames name name_span bits span)
open_segment-WellFormed b f frames name name_span bits span w ((container, parent, segment), h) =
    let n = length b.region_allocs in
    let start = span_of (saturating_add (span_end span) delimiter_length) 0 in
    let b1 = alloc_region b start f.container_body in
    let len : length b1.region_allocs ≡ n + 1 = length-alloc b start f.container_body in
    let w1 = alloc_region-WellFormed b start f.container_body w container in
    let close = finalize_span_to f.segment_body (span.start - delimiter_length) in
    let w2 = push_op-WellFormed b1 close w1 (omega (arith, len, segment)) in
    let node =
      TemplateNode.block name name_span bits (expand_template_tag_marker span) n
        BlockRole.segment in
    let w3 =
      push_op-WellFormed (push_op b1 close) (add_node f.container_body node) w2
        (omega (arith, len, container), (container, omega (arith, len))) in
    set_stack-WellFormed (push_op (push_op b1 close) (add_node f.container_body node))
      (block_frame (record f { segment_body = n }) ∷ frames) w3
      (
        (omega (arith, len, container), omega (arith, len, parent), omega (arith, len)),
        frames-weaken n (length b1.region_allocs) frames (omega (arith, len)) h,
      )

pub intermediate_at-WellFormed :
    (b : TemplateTreeBuilder) (frames : List TreeFrame) (name : Text) (name_span : Span)
    (bits : List TagBit) (span : Span)
    → WellFormed b
    → FramesInRange b frames
    → WellFormed (intermediate_at b frames name name_span bits span)
intermediate_at-WellFormed b [] name name_span bits span w h = w
intermediate_at-WellFormed b (opaque_frame f ∷ frames) name name_span bits span w h = w
intermediate_at-WellFormed b (block_frame f ∷ frames) name name_span bits span w h =
    elim (Bool-cases (has_name f.contract.intermediates name)) [
      | inl known ↦
          rw (known, intermediate_at)
            (open_segment-WellFormed b f frames name name_span bits span w h)
      | inr other ↦ rw (other, intermediate_at) w
    ]

pub open_opaque-WellFormed :
    (b : TemplateTreeBuilder) (contract : OpeningContract) (name : Text) (name_span : Span)
    (bits : List TagBit) (span : Span)
    → WellFormed b
    → WellFormed (open_opaque b contract name name_span bits span)
open_opaque-WellFormed b contract name name_span bits span w =
    set_stack-WellFormed b
      (opaque_frame (record {
        opener_name = name;
        contract = contract;
        name_span = name_span;
        bits = bits;
        opener_span = expand_template_tag_marker span;
        parent_region = active_region b;
        body_start = saturating_add (span_end span) delimiter_length;
      })
        ∷ b.stack)
      w (active_region-lt b w, w.frames)

pub open_block-WellFormed :
    (b : TemplateTreeBuilder) (contract : OpeningContract) (name : Text) (name_span : Span)
    (bits : List TagBit) (span : Span)
    → WellFormed b
    → WellFormed (open_block b contract name name_span bits span)
open_block-WellFormed b contract name name_span bits span w =
    let n = length b.region_allocs in
    let parent = active_region b in
    let parent_in : parent < n = active_region-lt b w in
    let full_span = expand_template_tag_marker span in
    let start = span_of (saturating_add (span_end span) delimiter_length) 0 in
    let b1 = alloc_region b span parent in
    let len1 : length b1.region_allocs ≡ n + 1 = length-alloc b span parent in
    let w1 = alloc_region-WellFormed b span parent w parent_in in
    let inner = length b1.region_allocs in
    let b2 = alloc_region b1 start n in
    let len2 : length b2.region_allocs ≡ inner + 1 = length-alloc b1 start n in
    let w2 = alloc_region-WellFormed b1 start n w1 (omega (arith, len1)) in
    let outer_op =
      add_node parent (TemplateNode.block name name_span bits full_span n BlockRole.opener) in
    let w3 =
      push_op-WellFormed b2 outer_op w2
        (omega (arith, len1, len2, parent_in), (parent_in, omega (arith, len1, len2))) in
    let inner_op =
      add_node n (TemplateNode.block name name_span bits full_span inner BlockRole.segment) in
    let w4 =
      push_op-WellFormed (push_op b2 outer_op) inner_op w3
        (omega (arith, len1, len2), (omega (arith, len1), omega (arith, len2))) in
    set_stack-WellFormed (push_op (push_op b2 outer_op) inner_op)
      (block_frame (record {
        opener_name = name;
        contract = contract;
        opener_bits = bits;
        opener_span = full_span;
        container_body = n;
        parent_region = parent;
        segment_body = inner;
      })
        ∷ b.stack)
      w4
      (
        (omega (arith, len1, len2), omega (arith, len1, len2, parent_in), omega (arith, len2)),
        frames-weaken n (length b2.region_allocs) b.stack (omega (arith, len1, len2)) w.frames,
      )
