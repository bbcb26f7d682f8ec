-- ===== src/Semantic/Builder.antt =====
-- crates/djls-semantic/src/structure/builder.rs: the stack machine that makes the tree of a template.
-- The grammar is what grammar.rs classified. The last frame of the stack is the head of the list; an
-- index into the stack counts from its other end, as in the source.
pub mod Bounds
pub mod Steps
pub mod Opens
pub mod Visits
pub mod Complete
mod Tests
use django_language_server.Base.{
  ℕ, zero, suc, ◌+◌, ◌-◌, Bool, true, false, ◌&&◌, not, ◌==◌, ltb, any, if◌then◌else◌, Option, none,
  some, List, [], ◌∷◌, ◌++◌, map, length, get_elem?, saturating_add,
}
use django_language_server.Base.Text.{Text, text_eq, text as literal}
use django_language_server.Source.Position.{
  Span, span_of, span_end, expand, saturating_from_bounds_usize,
}
use django_language_server.Templates.Tokens.{delimiter_length}
use django_language_server.Templates.Filters.{TagBit, Filter}
use django_language_server.Templates.Nodes.{Node}
use django_language_server.Semantic.Tree.{
  RegionId, BlockRole, opener, segment, TemplateNode, Regions, from_allocations, push_node,
  extend_region, finalize_region_span,
}
use django_language_server.Semantic.Frames.{
  ValidationError, OpeningContract, TagClassification, SparseTagGrammar, find_key, for_name_span,
  CloseValidation, validate_close, TreeOp, CapturedClosingTag, BlockFrame, OpaqueFrame, TreeFrame,
  frame_contract, closer_name, has_name, accepts_intermediate, into_opener_name, frame_bits,
  frame_opener_span, unclosed_tag, orphaned_tag, orphaned_closing_tag, unmatched_block_name,
  opener_class, standalone, closer_class, intermediate, inconclusive, unknown, valid,
  argument_mismatch, add_node, extend_region_span, finalize_span_to, accumulate_diagnostic,
  block_frame, opaque_frame,
}
use django_language_server.Semantic.Operations.{
  with_diagnostics, apply_op, apply_ops, TemplateTreeData,
}
use django_language_server.Semantic.BuilderState.{
  TemplateTreeBuilder, new, push_op, set_stack, push_frame, alloc_region, next_region,
  expand_template_tag_marker, active_region, in_opaque_content, add_standalone_tag,
  accumulate_orphaned_closer, accumulate_orphaned_intermediate, accumulate_unclosed, capture_closer,
}

abbrev pub finalize_frame : TemplateTreeBuilder → TreeFrame → Span → Span → TemplateTreeBuilder
finalize_frame b (block_frame f) closer_span closer_full_span =
    push_op
      (push_op (push_op b (finalize_span_to f.segment_body (closer_span.start - delimiter_length)))
        (extend_region_span f.container_body closer_full_span))
      (extend_region_span f.parent_region closer_full_span)
finalize_frame b (opaque_frame f) closer_span closer_full_span =
    let body_span =
      saturating_from_bounds_usize f.body_start (closer_span.start - delimiter_length) in
    let full_span = saturating_from_bounds_usize f.opener_span.start (span_end closer_full_span) in
    push_op b (
      add_node f.parent_region
        (TemplateNode.opaque f.opener_name f.name_span f.bits full_span body_span))

-- The arms on `validate_close`, and the frame that is closed.
abbrev pub close_frame :
    TemplateTreeBuilder → TreeFrame → CloseValidation → Span → Span → TemplateTreeBuilder
close_frame b frame valid span full_span = finalize_frame b frame span full_span
close_frame b frame (argument_mismatch expected got got_span) span full_span =
    finalize_frame
      (push_op b (
        accumulate_diagnostic
          (unmatched_block_name expected got got_span full_span (frame_opener_span frame))))
      frame span full_span

-- A frame that was popped is closed.
abbrev pub close_popped :
    TemplateTreeBuilder → TreeFrame → Text → Span → List TagBit → Span → Span → TemplateTreeBuilder
close_popped b frame closer name_span closer_bits span full_span =
    close_frame (capture_closer b closer name_span closer_bits full_span) frame
      (validate_close (frame_bits frame) closer_bits) span full_span

-- `rposition` on the stack: the last frame that `name` closes, counted from the first.
abbrev pub rposition : Text → List TreeFrame → Option ℕ
rposition name [] = none
rposition name (frame ∷ frames) =
    if text_eq (closer_name frame) name then some (length frames) else rposition name frames

-- The loop of `close_block_at`, on the stack.
unfoldable pub pop_above : TemplateTreeBuilder → ℕ → List TreeFrame → TemplateTreeBuilder
pop_above b frame_idx [] = set_stack b []
pop_above b frame_idx (frame ∷ frames) = elim (ltb (frame_idx + 1) (length (frame ∷ frames))) [
  | true ↦ pop_above (accumulate_unclosed b frame) frame_idx frames
  | false ↦ set_stack b (frame ∷ frames)
]

abbrev pub close_top :
    TemplateTreeBuilder → List TreeFrame → Text → Span → List TagBit → Span → TemplateTreeBuilder
close_top b [] closer name_span closer_bits span = b
close_top b (frame ∷ frames) closer name_span closer_bits span =
    close_popped (set_stack b frames) frame closer name_span closer_bits span
      (expand_template_tag_marker span)

unfoldable pub close_block_at :
    TemplateTreeBuilder → Text → Span → ℕ → List TagBit → Span → TemplateTreeBuilder
close_block_at b closer name_span frame_idx closer_bits span =
    let b' = pop_above b frame_idx b.stack in
    close_top b' b'.stack closer name_span closer_bits span

-- `close_active_opaque_if_closer`: none where the source returns `false`.
abbrev pub close_opaque :
    TemplateTreeBuilder
    → List TreeFrame
    → Text
    → Span
    → List TagBit
    → Span
    → Span
    → Option TemplateTreeBuilder
close_opaque b [] closer name_span closer_bits span full_span = none
close_opaque b (block_frame f ∷ frames) closer name_span closer_bits span full_span = none
close_opaque b (opaque_frame f ∷ frames) closer name_span closer_bits span full_span =
    if text_eq f.contract.closer closer
    then some (
        close_popped (set_stack b frames) (opaque_frame f) closer name_span closer_bits span
          full_span)
    else none

unfoldable pub close_active_opaque_if_closer :
    TemplateTreeBuilder → Text → Span → List TagBit → Span → Span → Option TemplateTreeBuilder
close_active_opaque_if_closer b closer name_span closer_bits span full_span =
    close_opaque b b.stack closer name_span closer_bits span full_span

-- The new segment of the block frame on the stack.
abbrev pub open_segment :
    TemplateTreeBuilder
    → BlockFrame
    → List TreeFrame
    → Text
    → Span
    → List TagBit
    → Span
    → TemplateTreeBuilder
open_segment b f frames name name_span bits span =
    let new_segment = next_region b in
    let b1 =
      alloc_region b (span_of (saturating_add (span_end span) delimiter_length) 0)
        f.container_body in
    let b2 = push_op b1 (finalize_span_to f.segment_body (span.start - delimiter_length)) in
    let node =
      TemplateNode.block name name_span bits (expand_template_tag_marker span) new_segment
        BlockRole.segment in
    let b3 = push_op b2 (add_node f.container_body node) in
    set_stack b3 (block_frame (record f { segment_body = new_segment }) ∷ frames)

abbrev pub intermediate_at :
    TemplateTreeBuilder → List TreeFrame → Text → Span → List TagBit → Span → TemplateTreeBuilder
intermediate_at b [] name name_span bits span = b
intermediate_at b (opaque_frame f ∷ frames) name name_span bits span = b
intermediate_at b (block_frame f ∷ frames) name name_span bits span =
    if has_name f.contract.intermediates name
    then open_segment b f frames name name_span bits span
    else b

unfoldable pub add_intermediate :
    TemplateTreeBuilder → Text → Span → List TagBit → Span → TemplateTreeBuilder
add_intermediate b name name_span bits span = intermediate_at b b.stack name name_span bits span

abbrev pub open_opaque :
    TemplateTreeBuilder → OpeningContract → Text → Span → List TagBit → Span → TemplateTreeBuilder
open_opaque b contract name name_span bits span = push_frame b (
    opaque_frame (record {
      opener_name = name;
      contract = contract;
      name_span = name_span;
      bits = bits;
      opener_span = expand_template_tag_marker span;
      parent_region = active_region b;
      body_start = saturating_add (span_end span) delimiter_length;
    }))

abbrev pub open_block :
    TemplateTreeBuilder → OpeningContract → Text → Span → List TagBit → Span → TemplateTreeBuilder
open_block b contract name name_span bits span =
    let parent = active_region b in
    let full_span = expand_template_tag_marker span in
    let container = next_region b in
    let b1 = alloc_region b span parent in
    let inner = next_region b1 in
    let b2 =
      alloc_region b1 (span_of (saturating_add (span_end span) delimiter_length) 0) container in
    let b3 = push_op b2 (
      add_node parent
        (TemplateNode.block name name_span bits full_span container BlockRole.opener)) in
    let b4 = push_op b3 (
      add_node container
        (TemplateNode.block name name_span bits full_span inner BlockRole.segment)) in
    push_frame b4 (
      block_frame (record {
        opener_name = name;
        contract = contract;
        opener_bits = bits;
        opener_span = full_span;
        container_body = container;
        parent_region = parent;
        segment_body = inner;
      }))

-- The arms of `handle_tag` on the classification.
abbrev pub classified :
    TemplateTreeBuilder
    → Option TagClassification
    → Text
    → Span
    → List TagBit
    → Span
    → TemplateTreeBuilder
classified b (some (opener_class contract)) name name_span bits span =
    if contract.is_opaque
    then open_opaque b contract name name_span bits span
    else open_block b contract name name_span bits span
classified b (some (closer_class openers)) name name_span bits span =
    accumulate_orphaned_closer b name openers (expand_template_tag_marker span)
classified b (some (intermediate openers)) name name_span bits span =
    accumulate_orphaned_intermediate b name openers (expand_template_tag_marker span)
classified b (some standalone) name name_span bits span =
    add_standalone_tag b name name_span bits (expand_template_tag_marker span)
classified b (some inconclusive) name name_span bits span =
    add_standalone_tag b name name_span bits (expand_template_tag_marker span)
classified b (some unknown) name name_span bits span =
    add_standalone_tag b name name_span bits (expand_template_tag_marker span)
classified b none name name_span bits span =
    add_standalone_tag b name name_span bits (expand_template_tag_marker span)

abbrev pub top_accepts : List TreeFrame → Text → Bool
top_accepts [] name = false
top_accepts (frame ∷ frames) name = accepts_intermediate frame name

-- `handle_tag` outside opaque content.
abbrev pub handle_in_block :
    TemplateTreeBuilder → Text → Span → List TagBit → Span → Option ℕ → TemplateTreeBuilder
handle_in_block b name name_span bits span (some frame_idx) =
    close_block_at b name name_span frame_idx bits span
handle_in_block b name name_span bits span none =
    if top_accepts b.stack name
    then add_intermediate b name name_span bits span
    else classified b (for_name_span b.grammar name_span) name name_span bits span

unfoldable pub handle_tag :
    TemplateTreeBuilder → Text → Span → List TagBit → Span → TemplateTreeBuilder
handle_tag b name name_span bits span =
    elim (close_active_opaque_if_closer b name name_span bits span
      (expand_template_tag_marker span)) [
        | some b' ↦ b'
        | none ↦
            if in_opaque_content b
            then b
            else handle_in_block b name name_span bits span (rposition name b.stack)
      ]

-- A node that is no tag.
abbrev pub visit_leaf : TemplateTreeBuilder → TemplateNode → TemplateTreeBuilder
visit_leaf b node = if in_opaque_content b then b else push_op b (add_node (active_region b) node)

-- `visit_node`, by `walk_node` of crates/djls-templates/src/visitor.rs.
unfoldable pub visit_node : TemplateTreeBuilder → Node → TemplateTreeBuilder
visit_node b (Node.tag name name_span bits span) = handle_tag b name name_span bits span
visit_node b (Node.variable var var_span filters span) =
    visit_leaf b (TemplateNode.variable var var_span filters span)
visit_node b (Node.comment content span) = visit_leaf b (TemplateNode.comment span)
visit_node b (Node.text span) = visit_leaf b (TemplateNode.text span)
visit_node b (Node.error span full_span e) = visit_leaf b (TemplateNode.error span full_span)

abbrev pub finish_frame : TemplateTreeBuilder → TreeFrame → TemplateTreeBuilder
finish_frame b (opaque_frame f) = accumulate_unclosed b (opaque_frame f)
finish_frame b (block_frame f) =
    if f.contract.end_required
    then accumulate_unclosed b (block_frame f)
    else push_op b (extend_region_span f.container_body f.opener_span)

-- The loop of `finish`, on the stack.
abbrev pub finish_frames : TemplateTreeBuilder → List TreeFrame → TemplateTreeBuilder
finish_frames b [] = set_stack b []
finish_frames b (frame ∷ frames) = finish_frames (finish_frame b frame) frames

unfoldable pub finish : TemplateTreeBuilder → TemplateTreeBuilder
finish b = finish_frames b b.stack

abbrev pub visit_all : TemplateTreeBuilder → List Node → TemplateTreeBuilder
visit_all b [] = b
visit_all b (node ∷ nodes) = visit_all (visit_node b node) nodes

unfoldable pub apply_operations : TemplateTreeBuilder → Option TemplateTreeData
apply_operations b = elim (apply_ops b.ops (from_allocations b.region_allocs) []) [
  | none ↦ none
  | some (regions, diagnostics) ↦ some (record {
    root = b.root;
    regions = regions;
    captured_closers = b.captured_closers;
    diagnostics = diagnostics;
  })
]

unfoldable pub model_data : SparseTagGrammar → List Node → Option TemplateTreeData
model_data grammar nodes = apply_operations (finish (visit_all (new grammar) nodes))
