-- ===== src/Semantic/Opaque.antt =====
-- crates/djls-semantic/src/structure/opaque.rs: the offsets inside blocks that are not rendered as template
-- code, found by the standard library's binary search.
pub mod Sorting
pub mod Search
mod Tests
use django_language_server.Base.{
  ℕ, zero, suc, ◌+◌, ◌-◌, ◌/◌, Bool, true, false, ltb, leb, if◌then◌else◌, List, [], ◌∷◌, ◌++◌,
  length, get_or,
}
use django_language_server.Base.Ordering.{Ordering}
use django_language_server.Base.Search.{search_base}
use django_language_server.Source.Position.{Span, span_end, span_of}
use django_language_server.Semantic.Tree.{TemplateNode, TemplateRegion, Regions}

pub record OpaqueRegions : Type 0 where
  pub spans : List Span

-- `sort_by_key` with the start, which is stable: by insertion.
abbrev pub insert_span : Span → List Span → List Span
insert_span span [] = span ∷ []
insert_span span (other ∷ spans) =
    let later = insert_span span spans in
    if leb span.start other.start then span ∷ other ∷ spans else other ∷ later

abbrev pub sort_spans : List Span → List Span
sort_spans [] = []
sort_spans (span ∷ spans) = insert_span span (sort_spans spans)

-- `OpaqueRegions::new`.
unfoldable pub new_opaque : List Span → OpaqueRegions
new_opaque spans = record { spans = sort_spans spans }

abbrev pub compare_position : ℕ → Span → Ordering
compare_position position span =
    if ltb position span.start
    then Ordering.gt
    else if leb (span_end span) position
    then Ordering.lt
    else Ordering.eq

abbrev pub span_at : List Span → ℕ → Span
span_at spans i = get_or spans i (span_of 0 0)

-- `binary_search_by(..).is_ok()`.
abbrev pub is_ok_at : Ordering → Bool
is_ok_at Ordering.eq = true
is_ok_at Ordering.lt = false
is_ok_at Ordering.gt = false

unfoldable pub search_is_ok : (ℕ → Ordering) → ℕ → Bool
search_is_ok f size = if ltb 0 size then is_ok_at (f (search_base size f 0 size)) else false

unfoldable pub is_opaque : OpaqueRegions → ℕ → Bool
unfolding search_is_ok
is_opaque regions position =
    search_is_ok (λ i. compare_position position (span_at regions.spans i)) (length regions.spans)

-- `OpaqueRegions::is_empty`.
unfoldable pub is_empty : OpaqueRegions → Bool
is_empty regions = elim regions.spans [ [] ↦ true | _ ↦ false ]

abbrev pub opaque_bodies : List TemplateNode → List Span
opaque_bodies [] = []
opaque_bodies (TemplateNode.opaque tag name_span bits full_span body_span ∷ nodes) =
    body_span ∷ opaque_bodies nodes
opaque_bodies (TemplateNode.block tag name_span bits full_span body role ∷ nodes) =
    opaque_bodies nodes
opaque_bodies (TemplateNode.standalone_tag tag name_span bits full_span ∷ nodes) =
    opaque_bodies nodes
opaque_bodies (TemplateNode.variable var var_span filters span ∷ nodes) = opaque_bodies nodes
opaque_bodies (TemplateNode.comment span ∷ nodes) = opaque_bodies nodes
opaque_bodies (TemplateNode.text span ∷ nodes) = opaque_bodies nodes
opaque_bodies (TemplateNode.error span full_span ∷ nodes) = opaque_bodies nodes

abbrev pub bodies_of : Regions → List Span
bodies_of [] = []
bodies_of (region ∷ regions) = opaque_bodies region.nodes ++ bodies_of regions

unfoldable pub opaque_regions_from_tree : Regions → OpaqueRegions
unfolding new_opaque
opaque_regions_from_tree regions = new_opaque (bodies_of regions)
