-- ===== src/Semantic/Builder/Bounds.antt =====
-- The regions that the builder of crates/djls-semantic/src/structure/builder.rs names are allocated,
-- and each of them lies below its parent.
use django_language_server.Base.{
  ℕ, suc, ◌+◌, ◌≤◌, ◌<◌, ◌≡◌, Option, none, some, List, [], ◌∷◌, ◌++◌, length, All, All-weaken,
  arith,
}
use django_language_server.Source.Position.{Span}
use django_language_server.Semantic.Tree.{RegionId, TemplateNode}
use django_language_server.Semantic.Frames.{
  TreeOp, add_node, extend_region_span, finalize_span_to, accumulate_diagnostic, TreeFrame,
  block_frame, opaque_frame,
}
use django_language_server.Semantic.BuilderState.{TemplateTreeBuilder, top_region, active_region}

-- The parent of region `i` has a smaller number; region 0 alone has none.
abbrev pub ParentBelow : ℕ → Option RegionId → Type 0
ParentBelow i none = i ≡ 0
ParentBelow i (some parent) = parent < i

abbrev pub AllocsBelow : ℕ → List (Span × Option RegionId) → Type 0
AllocsBelow i [] = Unit
AllocsBelow i ((span, parent) ∷ allocs) = ParentBelow i parent × AllocsBelow (suc i) allocs

-- A node of region `target`, of `n` regions: the body of a block has a larger number than the region
-- it stands in.
abbrev pub BodyBelow : ℕ → RegionId → TemplateNode → Type 0
BodyBelow n target (TemplateNode.block tag name_span bits full_span body role) =
    (target < body) × (body < n)
BodyBelow n target node = Unit

abbrev pub OpInRange : ℕ → TreeOp → Type 0
OpInRange n (add_node target node) = (target < n) × BodyBelow n target node
OpInRange n (extend_region_span id span) = id < n
OpInRange n (finalize_span_to id end) = id < n
OpInRange n (accumulate_diagnostic e) = Unit

abbrev pub FrameInRange : ℕ → TreeFrame → Type 0
FrameInRange n (block_frame f) =
    (f.container_body < n) × (f.parent_region < n) × (f.segment_body < n)
FrameInRange n (opaque_frame f) = f.parent_region < n

pub record WellFormed (b : TemplateTreeBuilder) : Type 0 where
  pub at_root : b.root ≡ 0
  pub some_region : 0 < length b.region_allocs
  pub parents : AllocsBelow 0 b.region_allocs
  pub frames : All (FrameInRange (length b.region_allocs)) b.stack
  pub in_range : All (OpInRange (length b.region_allocs)) b.ops

BodyBelow-weaken :
    (n m : ℕ) (target : RegionId) (node : TemplateNode)
    → n ≤ m
    → BodyBelow n target node
    → BodyBelow m target node
BodyBelow-weaken n m target (TemplateNode.block tag name_span bits full_span body role) le h =
    (h.0, omega (arith, le, h.1))
BodyBelow-weaken n m target (TemplateNode.opaque tag name_span bits full_span body_span) le h = tt
BodyBelow-weaken n m target (TemplateNode.standalone_tag tag name_span bits full_span) le h = tt
BodyBelow-weaken n m target (TemplateNode.variable var var_span filters span) le h = tt
BodyBelow-weaken n m target (TemplateNode.comment span) le h = tt
BodyBelow-weaken n m target (TemplateNode.text span) le h = tt
BodyBelow-weaken n m target (TemplateNode.error span full_span) le h = tt

OpInRange-weaken : (n m : ℕ) → n ≤ m → (op : TreeOp) → OpInRange n op → OpInRange m op
OpInRange-weaken n m le (add_node target node) h =
    (omega (arith, le, h.0), BodyBelow-weaken n m target node le h.1)
OpInRange-weaken n m le (extend_region_span id span) h = omega arith
OpInRange-weaken n m le (finalize_span_to id end) h = omega arith
OpInRange-weaken n m le (accumulate_diagnostic e) h = tt

pub FrameInRange-weaken : (n m : ℕ) → n ≤ m → (f : TreeFrame) → FrameInRange n f → FrameInRange m f
FrameInRange-weaken n m le (block_frame f) h =
    (omega (arith, h.0), omega (arith, h.1), omega (arith, h.2))
FrameInRange-weaken n m le (opaque_frame f) h = omega arith

pub ops-weaken :
    (n m : ℕ) (ops : List TreeOp) → n ≤ m → All (OpInRange n) ops → All (OpInRange m) ops
ops-weaken n m ops le h = All-weaken (OpInRange-weaken n m le) ops h

pub frames-weaken :
    (n m : ℕ) (frames : List TreeFrame)
    → n ≤ m
    → All (FrameInRange n) frames
    → All (FrameInRange m) frames
frames-weaken n m frames le h = All-weaken (FrameInRange-weaken n m le) frames h

pub AllocsBelow-snoc :
    (i : ℕ) (allocs : List (Span × Option RegionId)) (span : Span) (parent : RegionId)
    → AllocsBelow i allocs
    → parent < i + length allocs
    → AllocsBelow i (allocs ++ (span, some parent) ∷ [])
AllocsBelow-snoc i [] span parent h lt = (omega arith, tt)
AllocsBelow-snoc i ((s, p) ∷ allocs) span parent h lt =
    (h.0, AllocsBelow-snoc (suc i) allocs span parent h.1 (omega arith))

pub top_region-lt :
    (n root : ℕ) (stack : List TreeFrame)
    → root < n
    → All (FrameInRange n) stack
    → top_region root stack < n
top_region-lt n root [] lt h = lt
top_region-lt n root (block_frame f ∷ frames) lt h = h.0.2
top_region-lt n root (opaque_frame f ∷ frames) lt h = h.0

-- The region that the builder adds to is allocated.
pub active_region-lt :
    (b : TemplateTreeBuilder) → WellFormed b → active_region b < length b.region_allocs
active_region-lt b w =
    top_region-lt (length b.region_allocs) b.root b.stack (omega (arith, w.at_root, w.some_region))
      w.frames
