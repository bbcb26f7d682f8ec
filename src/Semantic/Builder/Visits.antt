-- ===== src/Semantic/Builder/Visits.antt =====
-- The tags and the other nodes that the builder of crates/djls-semantic/src/structure/builder.rs visits
-- keep its regions in range.
use mathlib.Core.Path.{subst}
use django_language_server.Base.{
  ℕ, Bool, true, false, ◌≡◌, refl, sym, Option, none, some, List, [], ◌∷◌, length, All, Bool-cases,
  Option-cases, inl, inr, if◌then◌else◌,
}
use django_language_server.Base.Text.{Text}
use django_language_server.Source.Position.{Span}
use django_language_server.Templates.Filters.{TagBit}
use django_language_server.Templates.Nodes.{Node}
use django_language_server.Semantic.Tree.{RegionId, TemplateNode}
use django_language_server.Semantic.Frames.{
  SparseTagGrammar, TagClassification, opener_class, standalone, closer_class, intermediate,
  inconclusive, unknown, add_node, extend_region_span, TreeFrame, block_frame, opaque_frame,
  for_name_span,
}
use django_language_server.Semantic.Builder.{
  rposition, close_opaque, close_active_opaque_if_closer, add_intermediate, open_opaque, open_block,
  classified, handle_in_block, handle_tag, visit_leaf, visit_node, finish_frame, finish_frames,
  finish, visit_all, top_accepts,
}
use django_language_server.Semantic.BuilderState.{
  TemplateTreeBuilder, new, push_op, active_region, in_opaque_content, expand_template_tag_marker,
}
use django_language_server.Semantic.Builder.Bounds.{
  WellFormed, FrameInRange, BodyBelow, active_region-lt,
}
use django_language_server.Semantic.Builder.Steps.{
  FramesInRange, WellFormed-new, push_op-WellFormed, set_stack-WellFormed, accumulate-WellFormed,
  close_block_at-WellFormed, close_opaque-WellFormed,
}
use django_language_server.Semantic.Builder.Opens.{
  intermediate_at-WellFormed, open_opaque-WellFormed, open_block-WellFormed,
}

add_here-WellFormed :
    (b : TemplateTreeBuilder) (node : TemplateNode)
    → WellFormed b
    → BodyBelow (length b.region_allocs) (active_region b) node
    → WellFormed (push_op b (add_node (active_region b) node))
add_here-WellFormed b node w h =
    push_op-WellFormed b (add_node (active_region b) node) w (active_region-lt b w, h)

if-WellFormed :
    (c : Bool) (x y : TemplateTreeBuilder)
    → WellFormed x
    → WellFormed y
    → WellFormed (if c then x else y)
if-WellFormed true x y hx hy = hx
if-WellFormed false x y hx hy = hy

classified-WellFormed :
    (b : TemplateTreeBuilder) (c : Option TagClassification) (name : Text) (name_span : Span)
    (bits : List TagBit) (span : Span)
    → WellFormed b
    → WellFormed (classified b c name name_span bits span)
classified-WellFormed b (some (opener_class contract)) name name_span bits span w =
    if-WellFormed contract.is_opaque (open_opaque b contract name name_span bits span)
      (open_block b contract name name_span bits span)
      (open_opaque-WellFormed b contract name name_span bits span w)
      (open_block-WellFormed b contract name name_span bits span w)
classified-WellFormed b (some (closer_class openers)) name name_span bits span w =
    accumulate-WellFormed b _ w
classified-WellFormed b (some (intermediate openers)) name name_span bits span w =
    accumulate-WellFormed b _ w
classified-WellFormed b (some standalone) name name_span bits span w = add_here-WellFormed b _ w tt
classified-WellFormed b (some inconclusive) name name_span bits span w =
    add_here-WellFormed b _ w tt
classified-WellFormed b (some unknown) name name_span bits span w = add_here-WellFormed b _ w tt
classified-WellFormed b none name name_span bits span w = add_here-WellFormed b _ w tt

handle_in_block-WellFormed :
    (b : TemplateTreeBuilder) (name : Text) (name_span : Span) (bits : List TagBit) (span : Span)
    (at : Option ℕ)
    → WellFormed b
    → WellFormed (handle_in_block b name name_span bits span at)
unfolding add_intermediate
handle_in_block-WellFormed b name name_span bits span (some idx) w =
    close_block_at-WellFormed b name name_span idx bits span w
handle_in_block-WellFormed b name name_span bits span none w =
    elim (Bool-cases (top_accepts b.stack name)) [
      | inl known ↦
          rw (known, handle_in_block)
            (intermediate_at-WellFormed b b.stack name name_span bits span w w.frames)
      | inr other ↦
          rw (other, handle_in_block)
            (classified-WellFormed b (for_name_span b.grammar name_span) name name_span bits span w)
    ]

pub handle_tag-WellFormed :
    (b : TemplateTreeBuilder) (name : Text) (name_span : Span) (bits : List TagBit) (span : Span)
    → WellFormed b
    → WellFormed (handle_tag b name name_span bits span)
unfolding handle_tag close_active_opaque_if_closer
handle_tag-WellFormed b name name_span bits span w =
    let full_span = expand_template_tag_marker span in
    let closed = close_opaque-WellFormed b b.stack name name_span bits span full_span w w.frames in
    elim (Option-cases (close_opaque b b.stack name name_span bits span full_span)) [
      | inl open_still ↦ elim (Bool-cases (in_opaque_content b)) [
        | inl raw ↦ rw (open_still, raw, handle_tag) w
        | inr nested ↦
            rw (open_still, nested, handle_tag)
              (handle_in_block-WellFormed b name name_span bits span (rposition name b.stack) w)
      ]
      | inr (b', done) ↦ rw (done, handle_tag) (rw done at closed)
    ]

visit_leaf-WellFormed :
    (b : TemplateTreeBuilder) (node : TemplateNode)
    → WellFormed b
    → BodyBelow (length b.region_allocs) (active_region b) node
    → WellFormed (visit_leaf b node)
visit_leaf-WellFormed b node w h = elim (Bool-cases (in_opaque_content b)) [
  | inl raw ↦ rw (raw, visit_leaf) w
  | inr nested ↦ rw (nested, visit_leaf) (add_here-WellFormed b node w h)
]

-- Visiting a node, whatever it is, keeps the builder well formed: every region that the stack or an
-- operation names is allocated, every region but the first lies below its parent, and every block
-- above its body.
pub visit_node-WellFormed :
    (b : TemplateTreeBuilder) (node : Node) → WellFormed b → WellFormed (visit_node b node)
unfolding visit_node
visit_node-WellFormed b (Node.tag name name_span bits span) w =
    handle_tag-WellFormed b name name_span bits span w
visit_node-WellFormed b (Node.variable var var_span filters span) w =
    visit_leaf-WellFormed b (TemplateNode.variable var var_span filters span) w tt
visit_node-WellFormed b (Node.comment content span) w =
    visit_leaf-WellFormed b (TemplateNode.comment span) w tt
visit_node-WellFormed b (Node.text span) w = visit_leaf-WellFormed b (TemplateNode.text span) w tt
visit_node-WellFormed b (Node.error span full_span e) w =
    visit_leaf-WellFormed b (TemplateNode.error span full_span) w tt

pub visit_all-WellFormed :
    (b : TemplateTreeBuilder) (nodes : List Node) → WellFormed b → WellFormed (visit_all b nodes)
visit_all-WellFormed b [] w = w
visit_all-WellFormed b (node ∷ nodes) w =
    visit_all-WellFormed (visit_node b node) nodes (visit_node-WellFormed b node w)

finish_frame-WellFormed :
    (b : TemplateTreeBuilder) (frame : TreeFrame)
    → WellFormed b
    → FrameInRange (length b.region_allocs) frame
    → WellFormed (finish_frame b frame)
finish_frame-WellFormed b (opaque_frame f) w h = accumulate-WellFormed b _ w
finish_frame-WellFormed b (block_frame f) w h = elim (Bool-cases f.contract.end_required) [
  | inl required ↦ rw (required, finish_frame) (accumulate-WellFormed b _ w)
  | inr free ↦
      rw (free, finish_frame)
        (push_op-WellFormed b (extend_region_span f.container_body f.opener_span) w h.0)
]

same_allocs :
    (b : TemplateTreeBuilder) (frame : TreeFrame)
    → (finish_frame b frame).region_allocs ≡ b.region_allocs
same_allocs b (opaque_frame f) = refl
same_allocs b (block_frame f) = elim (Bool-cases f.contract.end_required) [
  | inl required ↦ rw (required, finish_frame) refl
  | inr free ↦ rw (free, finish_frame) refl
]

pub finish_frames-WellFormed :
    (b : TemplateTreeBuilder) (frames : List TreeFrame)
    → WellFormed b
    → FramesInRange b frames
    → WellFormed (finish_frames b frames)
finish_frames-WellFormed b [] w h = set_stack-WellFormed b [] w tt
finish_frames-WellFormed b (frame ∷ frames) w h =
    finish_frames-WellFormed (finish_frame b frame) frames (finish_frame-WellFormed b frame w h.0) (
      subst (λ (allocs : List (Span × Option RegionId)). All (FrameInRange (length allocs)) frames)
        (sym (same_allocs b frame)) h.1)

-- Before the operations are applied, the builder is well formed, for every grammar and every list of
-- nodes.
pub finish-WellFormed :
    (grammar : SparseTagGrammar) (nodes : List Node)
    → WellFormed (finish (visit_all (new grammar) nodes))
unfolding finish
finish-WellFormed grammar nodes =
    let b = visit_all (new grammar) nodes in
    let w = visit_all-WellFormed (new grammar) nodes (WellFormed-new grammar) in
    finish_frames-WellFormed b b.stack w w.frames
