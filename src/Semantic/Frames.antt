-- ===== src/Semantic/Frames.antt =====
-- crates/djls-semantic/src/structure: the operations, the frames and the classified grammar that the
-- builder of a tree (builder.rs) works with.
use django_language_server.Base.{
  ℕ, Bool, false, ◌==◌, any, if◌then◌else◌, Option, none, some, List, [], ◌∷◌, get_elem?,
}
use django_language_server.Base.Text.{Text, text_eq}
use django_language_server.Source.Position.{Span}
use django_language_server.Templates.Filters.{TagBit}
use django_language_server.Semantic.Tree.{RegionId, TemplateNode}

-- The structural errors: the first of the variants of `ValidationError`.
pub data ValidationError : Type 0 where
  unclosed_tag : (tag : Text) (span : Span) → ValidationError
  orphaned_tag : (tag context : Text) (span : Span) → ValidationError
  orphaned_closing_tag : (tag expected_opener : Text) (span : Span) → ValidationError
  unbalanced_structure :
      (opening_tag expected_closing : Text) (opening_span : Span) (closing_span : Option Span)
      → ValidationError
  unmatched_block_name : (expected got : Text) (got_span span opener_span : Span) → ValidationError

pub record OpeningContract : Type 0 where
  pub closer : Text
  pub intermediates : List Text
  pub end_required : Bool
  pub is_opaque : Bool

pub data TagClassification : Type 0 where
  opener_class : OpeningContract → TagClassification
  standalone : TagClassification
  closer_class : (possible_openers : List Text) → TagClassification
  intermediate : (possible_openers : List Text) → TagClassification
  inconclusive unknown : TagClassification

-- The classified facts, and the fact of each occurrence of a tag by the start of its name.
pub record SparseTagGrammar : Type 0 where
  pub facts : List TagClassification
  pub occurrences : List (ℕ × ℕ)

abbrev pub find_key : List (ℕ × ℕ) → ℕ → Option ℕ
find_key [] key = none
find_key ((k, v) ∷ rest) key = if k == key then some v else find_key rest key

unfoldable pub for_name_span : SparseTagGrammar → Span → Option TagClassification
for_name_span grammar name_span = elim (find_key grammar.occurrences name_span.start) [
  | none ↦ none
  | some index ↦ get_elem? grammar.facts index
]

pub data CloseValidation : Type 0 where
  valid : CloseValidation
  argument_mismatch : (expected got : Text) (got_span : Span) → CloseValidation

-- `OpeningContract::validate_close` on the bits of the opener and of the closer.
unfoldable pub validate_close : List TagBit → List TagBit → CloseValidation
validate_close [] closer_bits = valid
validate_close (o ∷ os) [] = valid
validate_close (o ∷ os) (c ∷ cs) =
    if text_eq c.text o.text then valid else argument_mismatch o.text c.text c.span

pub data TreeOp : Type 0 where
  add_node : (target : RegionId) (node : TemplateNode) → TreeOp
  extend_region_span : (id : RegionId) (span : Span) → TreeOp
  finalize_span_to : (id : RegionId) (end : ℕ) → TreeOp
  accumulate_diagnostic : ValidationError → TreeOp

pub record CapturedClosingTag : Type 0 where
  pub tag : Text
  pub name_span : Span
  pub bits : List TagBit
  pub full_span : Span

pub record BlockFrame : Type 0 where
  pub opener_name : Text
  pub contract : OpeningContract
  pub opener_bits : List TagBit
  pub opener_span : Span
  pub container_body : RegionId
  pub parent_region : RegionId
  pub segment_body : RegionId

pub record OpaqueFrame : Type 0 where
  pub opener_name : Text
  pub contract : OpeningContract
  pub name_span : Span
  pub bits : List TagBit
  pub opener_span : Span
  pub parent_region : RegionId
  pub body_start : ℕ

pub data TreeFrame : Type 0 where
  block_frame : BlockFrame → TreeFrame
  opaque_frame : OpaqueFrame → TreeFrame

-- `TreeFrame::contract`, and what is read off a frame.
abbrev pub frame_contract : TreeFrame → OpeningContract
frame_contract (block_frame f) = f.contract
frame_contract (opaque_frame f) = f.contract

abbrev pub closer_name : TreeFrame → Text
closer_name f = (frame_contract f).closer

abbrev pub has_name : List Text → Text → Bool
has_name names name = any (λ candidate. text_eq candidate name) names

abbrev pub accepts_intermediate : TreeFrame → Text → Bool
accepts_intermediate (block_frame f) name = has_name f.contract.intermediates name
accepts_intermediate (opaque_frame f) name = false

abbrev pub into_opener_name : TreeFrame → Text
into_opener_name (block_frame f) = f.opener_name
into_opener_name (opaque_frame f) = f.opener_name

abbrev pub frame_bits : TreeFrame → List TagBit
frame_bits (block_frame f) = f.opener_bits
frame_bits (opaque_frame f) = f.bits

abbrev pub frame_opener_span : TreeFrame → Span
frame_opener_span (block_frame f) = f.opener_span
frame_opener_span (opaque_frame f) = f.opener_span
