-- ===== src/Semantic/Builder/Steps.antt =====
-- Every step of the builder of crates/djls-semantic/src/structure/builder.rs keeps its regions in
-- range.
use django_language_server.Base.{
  ℕ, ◌+◌, ◌-◌, ◌<◌, ltb, ◌≡◌, refl, Option, none, some, List, [], ◌∷◌, ◌++◌, length, length-append,
  All, All-append, arith, Bool-cases, inl, inr,
}
use django_language_server.Base.Text.{Text, text_eq}
use django_language_server.Source.Position.{Span, span_end, saturating_from_bounds_usize}
use django_language_server.Templates.Tokens.{delimiter_length}
use django_language_server.Templates.Filters.{TagBit}
use django_language_server.Semantic.Tree.{RegionId, TemplateNode}
use django_language_server.Semantic.Frames.{
  SparseTagGrammar, CloseValidation, valid, argument_mismatch, validate_close, ValidationError,
  unmatched_block_name, unclosed_tag, frame_opener_span, into_opener_name, finalize_span_to, TreeOp,
  add_node, accumulate_diagnostic, extend_region_span, TreeFrame, block_frame, opaque_frame,
  frame_bits,
}
use django_language_server.Semantic.Builder.{
  finalize_frame, close_frame, close_popped, pop_above, close_top, close_block_at, close_opaque,
}
use django_language_server.Semantic.BuilderState.{
  TemplateTreeBuilder, new, push_op, set_stack, alloc_region, accumulate_unclosed, capture_closer,
  expand_template_tag_marker,
}
use django_language_server.Semantic.Builder.Bounds.{
  WellFormed, OpInRange, FrameInRange, AllocsBelow-snoc, ops-weaken, frames-weaken,
}

abbrev pub InRange : TemplateTreeBuilder → TreeOp → Type 0
InRange b op = OpInRange (length b.region_allocs) op

abbrev pub FramesInRange : TemplateTreeBuilder → List TreeFrame → Type 0
FramesInRange b frames = All (FrameInRange (length b.region_allocs)) frames

pub WellFormed-new : (grammar : SparseTagGrammar) → WellFormed (new grammar)
WellFormed-new grammar = record {
  at_root = refl;
  some_region = omega arith;
  parents = (refl, tt);
  frames = tt;
  in_range = tt;
}

pub push_op-WellFormed :
    (b : TemplateTreeBuilder) (op : TreeOp)
    → WellFormed b
    → InRange b op
    → WellFormed (push_op b op)
push_op-WellFormed b op w h = record {
  at_root = w.at_root;
  some_region = w.some_region;
  parents = w.parents;
  frames = w.frames;
  in_range = All-append (OpInRange (length b.region_allocs)) b.ops (op ∷ []) w.in_range (h, tt);
}

pub set_stack-WellFormed :
    (b : TemplateTreeBuilder) (frames : List TreeFrame)
    → WellFormed b
    → FramesInRange b frames
    → WellFormed (set_stack b frames)
set_stack-WellFormed b frames w h = record {
  at_root = w.at_root;
  some_region = w.some_region;
  parents = w.parents;
  frames = h;
  in_range = w.in_range;
}

pub alloc_region-WellFormed :
    (b : TemplateTreeBuilder) (span : Span) (parent : RegionId)
    → WellFormed b
    → parent < length b.region_allocs
    → WellFormed (alloc_region b span parent)
alloc_region-WellFormed b span parent w lt =
    let n = length b.region_allocs in
    let m = length (b.region_allocs ++ (span, some parent) ∷ []) in
    let len : m ≡ n + 1 = length-append b.region_allocs ((span, some parent) ∷ []) in
    record {
      at_root = w.at_root;
      some_region = omega (arith, len);
      parents = AllocsBelow-snoc 0 b.region_allocs span parent w.parents (omega (arith, lt));
      frames = frames-weaken n m b.stack (omega (arith, len)) w.frames;
      in_range = ops-weaken n m b.ops (omega (arith, len)) w.in_range;
    }

pub accumulate-WellFormed :
    (b : TemplateTreeBuilder) (e : ValidationError)
    → WellFormed b
    → WellFormed (push_op b (accumulate_diagnostic e))
accumulate-WellFormed b e w = push_op-WellFormed b (accumulate_diagnostic e) w tt

capture_closer-WellFormed :
    (b : TemplateTreeBuilder) (tag : Text) (name_span : Span) (bits : List TagBit)
    (full_span : Span)
    → WellFormed b
    → WellFormed (capture_closer b tag name_span bits full_span)
capture_closer-WellFormed b tag name_span bits full_span w = record {
  at_root = w.at_root;
  some_region = w.some_region;
  parents = w.parents;
  frames = w.frames;
  in_range = w.in_range;
}

finalize_frame-WellFormed :
    (b : TemplateTreeBuilder) (frame : TreeFrame) (span full_span : Span)
    → WellFormed b
    → FrameInRange (length b.region_allocs) frame
    → WellFormed (finalize_frame b frame span full_span)
finalize_frame-WellFormed b (block_frame f) span full_span w h =
    let b1 = push_op b (finalize_span_to f.segment_body (span.start - delimiter_length)) in
    let b2 = push_op b1 (extend_region_span f.container_body full_span) in
    push_op-WellFormed b2 (extend_region_span f.parent_region full_span)
      (push_op-WellFormed b1 (extend_region_span f.container_body full_span)
        (push_op-WellFormed b (finalize_span_to f.segment_body (span.start - delimiter_length)) w
          h.2)
        h.0)
      h.1
finalize_frame-WellFormed b (opaque_frame f) span full_span w h =
    push_op-WellFormed b
      (add_node f.parent_region (
        TemplateNode.opaque f.opener_name f.name_span f.bits
          (saturating_from_bounds_usize f.opener_span.start (span_end full_span))
          (saturating_from_bounds_usize f.body_start (span.start - delimiter_length))))
      w (h, tt)

close_frame-WellFormed :
    (b : TemplateTreeBuilder) (frame : TreeFrame) (v : CloseValidation) (span full_span : Span)
    → WellFormed b
    → FrameInRange (length b.region_allocs) frame
    → WellFormed (close_frame b frame v span full_span)
close_frame-WellFormed b frame valid span full_span w h =
    finalize_frame-WellFormed b frame span full_span w h
close_frame-WellFormed b frame (argument_mismatch expected got got_span) span full_span w h =
    let e = unmatched_block_name expected got got_span full_span (frame_opener_span frame) in
    finalize_frame-WellFormed (push_op b (accumulate_diagnostic e)) frame span full_span
      (accumulate-WellFormed b e w) h

close_popped-WellFormed :
    (b : TemplateTreeBuilder) (frame : TreeFrame) (closer : Text) (name_span : Span)
    (bits : List TagBit) (span full_span : Span)
    → WellFormed b
    → FrameInRange (length b.region_allocs) frame
    → WellFormed (close_popped b frame closer name_span bits span full_span)
close_popped-WellFormed b frame closer name_span bits span full_span w h =
    close_frame-WellFormed (capture_closer b closer name_span bits full_span) frame
      (validate_close (frame_bits frame) bits) span full_span
      (capture_closer-WellFormed b closer name_span bits full_span w) h

pop_above-WellFormed :
    (b : TemplateTreeBuilder) (idx : ℕ) (frames : List TreeFrame)
    → WellFormed b
    → FramesInRange b frames
    → WellFormed (pop_above b idx frames)
unfolding pop_above
pop_above-WellFormed b idx [] w h = set_stack-WellFormed b [] w tt
pop_above-WellFormed b idx (frame ∷ frames) w h =
    elim (Bool-cases (ltb (idx + 1) (length (frame ∷ frames)))) [
      | inl above ↦
          rw (above, pop_above)
            (pop_above-WellFormed (accumulate_unclosed b frame) idx frames
              (accumulate-WellFormed b
                (unclosed_tag (into_opener_name frame) (frame_opener_span frame)) w)
              h.1)
      | inr there ↦ rw (there, pop_above) (set_stack-WellFormed b (frame ∷ frames) w h)
    ]

close_top-WellFormed :
    (b : TemplateTreeBuilder) (frames : List TreeFrame) (closer : Text) (name_span : Span)
    (bits : List TagBit) (span : Span)
    → WellFormed b
    → FramesInRange b frames
    → WellFormed (close_top b frames closer name_span bits span)
close_top-WellFormed b [] closer name_span bits span w h = w
close_top-WellFormed b (frame ∷ frames) closer name_span bits span w h =
    close_popped-WellFormed (set_stack b frames) frame closer name_span bits span
      (expand_template_tag_marker span) (set_stack-WellFormed b frames w h.1) h.0

pub close_block_at-WellFormed :
    (b : TemplateTreeBuilder) (closer : Text) (name_span : Span) (idx : ℕ) (bits : List TagBit)
    (span : Span)
    → WellFormed b
    → WellFormed (close_block_at b closer name_span idx bits span)
unfolding close_block_at
close_block_at-WellFormed b closer name_span idx bits span w =
    let popped = pop_above-WellFormed b idx b.stack w w.frames in
    close_top-WellFormed (pop_above b idx b.stack) (pop_above b idx b.stack).stack closer name_span
      bits span popped popped.frames

-- What the source does where it returns `false` is nothing.
abbrev pub IfSome : Option TemplateTreeBuilder → Type 0
IfSome none = Unit
IfSome (some b) = WellFormed b

pub close_opaque-WellFormed :
    (b : TemplateTreeBuilder) (frames : List TreeFrame) (closer : Text) (name_span : Span)
    (bits : List TagBit) (span full_span : Span)
    → WellFormed b
    → FramesInRange b frames
    → IfSome (close_opaque b frames closer name_span bits span full_span)
close_opaque-WellFormed b [] closer name_span bits span full_span w h = tt
close_opaque-WellFormed b (block_frame f ∷ frames) closer name_span bits span full_span w h = tt
close_opaque-WellFormed b (opaque_frame f ∷ frames) closer name_span bits span full_span w h =
    elim (Bool-cases (text_eq f.contract.closer closer)) [
      | inl here ↦
          rw (here, close_opaque)
            (close_popped-WellFormed (set_stack b frames) (opaque_frame f) closer name_span bits
              span full_span (set_stack-WellFormed b frames w h.1) h.0)
      | inr other ↦ rw (other, close_opaque) tt
    ]
