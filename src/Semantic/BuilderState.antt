-- ===== src/Semantic/BuilderState.antt =====
-- The state of the builder in crates/djls-semantic/src/structure/builder.rs, and the changes of it that its
-- steps are made of. The last frame of the stack is the head of the list.
use django_language_server.Base.{Bool, true, false, Option, none, some, List, [], ◌∷◌, ◌++◌, length}
use django_language_server.Base.Text.{Text, text as literal}
use django_language_server.Source.Position.{Span, span_of, expand}
use django_language_server.Templates.Tokens.{delimiter_length}
use django_language_server.Templates.Filters.{TagBit}
use django_language_server.Semantic.Tree.{RegionId, TemplateNode}
use django_language_server.Semantic.Frames.{
  SparseTagGrammar, TreeOp, CapturedClosingTag, TreeFrame, into_opener_name, frame_opener_span,
  unclosed_tag, orphaned_tag, orphaned_closing_tag, add_node, accumulate_diagnostic, block_frame,
  opaque_frame,
}

pub record TemplateTreeBuilder : Type 0 where
  pub grammar : SparseTagGrammar
  pub root : RegionId
  pub stack : List TreeFrame
  pub region_allocs : List (Span × Option RegionId)
  pub captured_closers : List CapturedClosingTag
  pub ops : List TreeOp

-- `TemplateTreeBuilder::new`.
abbrev pub new : SparseTagGrammar → TemplateTreeBuilder
new grammar = record {
  grammar = grammar;
  root = 0;
  stack = [];
  region_allocs = (span_of 0 0, none) ∷ [];
  captured_closers = [];
  ops = [];
}

-- `self.ops.push`, `self.stack.push` and the stack as a whole.
abbrev pub push_op : TemplateTreeBuilder → TreeOp → TemplateTreeBuilder
push_op b op = record b { ops = b.ops ++ op ∷ [] }

abbrev pub set_stack : TemplateTreeBuilder → List TreeFrame → TemplateTreeBuilder
set_stack b stack = record b { stack = stack }

abbrev pub push_frame : TemplateTreeBuilder → TreeFrame → TemplateTreeBuilder
push_frame b frame = set_stack b (frame ∷ b.stack)

-- `alloc_region`: the new region has the number of those before it.
abbrev pub alloc_region : TemplateTreeBuilder → Span → RegionId → TemplateTreeBuilder
alloc_region b span parent = record b {
  region_allocs = b.region_allocs ++ (span, some parent) ∷ [];
}

abbrev pub next_region : TemplateTreeBuilder → RegionId
next_region b = length b.region_allocs

abbrev pub expand_template_tag_marker : Span → Span
expand_template_tag_marker span = expand span delimiter_length delimiter_length

abbrev pub top_region : RegionId → List TreeFrame → RegionId
top_region root [] = root
top_region root (block_frame f ∷ frames) = f.segment_body
top_region root (opaque_frame f ∷ frames) = f.parent_region

abbrev pub active_region : TemplateTreeBuilder → RegionId
active_region b = top_region b.root b.stack

abbrev pub top_is_opaque : List TreeFrame → Bool
top_is_opaque [] = false
top_is_opaque (block_frame f ∷ frames) = false
top_is_opaque (opaque_frame f ∷ frames) = true

abbrev pub in_opaque_content : TemplateTreeBuilder → Bool
in_opaque_content b = top_is_opaque b.stack

abbrev pub add_standalone_tag :
    TemplateTreeBuilder → Text → Span → List TagBit → Span → TemplateTreeBuilder
add_standalone_tag b name name_span bits full_span =
    push_op b
      (add_node (active_region b) (TemplateNode.standalone_tag name name_span bits full_span))

abbrev pub first_or : List Text → Text → Text
first_or [] otherwise = otherwise
first_or (name ∷ names) otherwise = name

abbrev pub accumulate_orphaned_closer :
    TemplateTreeBuilder → Text → List Text → Span → TemplateTreeBuilder
accumulate_orphaned_closer b closer possible_openers span = push_op b (
    accumulate_diagnostic
      (orphaned_closing_tag closer (first_or possible_openers (literal "matching opener")) span))

-- `'name'` for each name, with commas between them.
abbrev pub quote : Text → Text
quote name = b'\'' ∷ (name ++ b'\'' ∷ [])

abbrev pub list_names : Text → List Text → Text
list_names name [] = literal ", or " ++ quote name
list_names name (next ∷ []) = quote name ++ literal ", or " ++ quote next
list_names name (next ∷ more ∷ rest) = quote name ++ literal ", " ++ list_names next (more ∷ rest)

unfoldable pub describe_intermediate_parent : List Text → Text
describe_intermediate_parent [] = literal "an open parent block"
describe_intermediate_parent (a ∷ []) = literal "an open " ++ quote a ++ literal " block"
describe_intermediate_parent (a ∷ c ∷ []) =
    literal "an open " ++ quote a ++ literal " or " ++ quote c ++ literal " block"
describe_intermediate_parent (a ∷ c ∷ d ∷ rest) =
    literal "one of these open blocks: " ++ list_names a (c ∷ d ∷ rest)

abbrev pub accumulate_orphaned_intermediate :
    TemplateTreeBuilder → Text → List Text → Span → TemplateTreeBuilder
accumulate_orphaned_intermediate b name possible_openers span =
    push_op b (
      accumulate_diagnostic
        (orphaned_tag name (describe_intermediate_parent possible_openers) span))

abbrev pub accumulate_unclosed : TemplateTreeBuilder → TreeFrame → TemplateTreeBuilder
accumulate_unclosed b frame =
    push_op b
      (accumulate_diagnostic (unclosed_tag (into_opener_name frame) (frame_opener_span frame)))

abbrev pub capture_closer :
    TemplateTreeBuilder → Text → Span → List TagBit → Span → TemplateTreeBuilder
capture_closer b tag name_span bits full_span = record b {
  captured_closers =
      b.captured_closers
      ++ record { tag = tag; name_span = name_span; bits = bits; full_span = full_span } ∷ [];
}
