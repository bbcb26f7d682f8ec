-- ===== src/Semantic/Builder/Complete.antt =====
-- The operations of crates/djls-semantic/src/structure/builder.rs, applied to the regions of tree.rs.
use mathlib.Core.Path.{subst}
use django_language_server.Base.{
  ℕ, zero, suc, ◌+◌, ◌<◌, ◌≡◌, refl, sym, ap, ◌∙◌, Option, some, List, [], ◌∷◌, ◌++◌, length, All,
  All-append, arith,
}
use django_language_server.Source.Position.{Span}
use django_language_server.Templates.Nodes.{Node}
use django_language_server.Semantic.Tree.{
  RegionId, TemplateNode, node_span, TemplateRegion, Regions, from_allocations, region_mut,
  extended, finalized, with_node, extend_region, finalize_region_span, push_node,
}
use django_language_server.Semantic.Frames.{
  SparseTagGrammar, ValidationError, TreeOp, add_node, extend_region_span, finalize_span_to,
  accumulate_diagnostic,
}
use django_language_server.Semantic.Operations.{
  apply_op, apply_ops, TemplateTreeData, with_diagnostics,
}
use django_language_server.Semantic.Builder.{finish, visit_all, apply_operations, model_data}
use django_language_server.Semantic.BuilderState.{TemplateTreeBuilder, new}
use django_language_server.Semantic.Builder.Bounds.{
  ParentBelow, AllocsBelow, BodyBelow, OpInRange, WellFormed,
}
use django_language_server.Semantic.Builder.Visits.{finish-WellFormed}

-- The regions from number `i` on, of `n`, are a tree: each parent has a smaller number than the
-- region, and each body of a block a larger one than the region that the block stands in.
abbrev pub IsTree : ℕ → ℕ → Regions → Type 0
IsTree n i [] = Unit
IsTree n i (region ∷ regions) =
    ParentBelow i region.parent × All (BodyBelow n i) region.nodes × IsTree n (suc i) regions

-- A change keeps the parent, and the nodes in range.
abbrev Keeps : ℕ → ℕ → (TemplateRegion → TemplateRegion) → Type 0
Keeps n i change =
    (r : TemplateRegion)
    → All (BodyBelow n i) r.nodes
    → ((change r).parent ≡ r.parent) × All (BodyBelow n i) (change r).nodes

pub record Changed (n i : ℕ) (regions : Regions) (result : Option Regions) : Type 0 where
  pub regions' : Regions
  pub is_some : result ≡ some regions'
  pub tree : IsTree n i regions'
  pub same_length : length regions' ≡ length regions

region_mut-Changed :
    (n i : ℕ) (regions : Regions) (id : RegionId) (change : TemplateRegion → TemplateRegion)
    → IsTree n i regions
    → id < length regions
    → Keeps n (i + id) change
    → Changed n i regions (region_mut regions id change)
unfolding region_mut
region_mut-Changed n i [] id change h lt keeps = absurd (omega arith)
region_mut-Changed n i (r ∷ regions) zero change (parent, nodes, rest) lt keeps =
    let at : i + 0 ≡ i = omega arith in
    let (same, nodes') = (rw at at keeps) r nodes in
    record {
      regions' = change r ∷ regions;
      is_some = refl;
      tree = (subst (λ (p : Option RegionId). ParentBelow i p) (sym same) parent, nodes', rest);
      same_length = refl;
    }
region_mut-Changed n i (r ∷ regions) (suc id) change (parent, nodes, rest) lt keeps =
    let at : i + suc id ≡ suc i + id = omega arith in
    let c = region_mut-Changed n (suc i) regions id change rest (omega arith) (rw at at keeps) in
    record {
      regions' = r ∷ c.regions';
      is_some = rw (c.is_some, region_mut) refl;
      tree = (parent, nodes, c.tree);
      same_length = ap suc c.same_length;
    }

extended-Keeps : (n i : ℕ) (span : Span) → Keeps n i (extended span)
extended-Keeps n i span r h = (refl, h)

finalized-Keeps : (n i end : ℕ) → Keeps n i (finalized end)
finalized-Keeps n i end r h = (refl, h)

with_node-Keeps : (n i : ℕ) (node : TemplateNode) → BodyBelow n i node → Keeps n i (with_node node)
with_node-Keeps n i node h r nodes =
    (refl, All-append (BodyBelow n i) r.nodes (node ∷ []) nodes (h, tt))

push_node-Changed :
    (n : ℕ) (regions : Regions) (target : RegionId) (node : TemplateNode)
    → IsTree n 0 regions
    → target < length regions
    → BodyBelow n target node
    → Changed n 0 regions (push_node regions target node)
push_node-Changed n regions target node tree lt h =
    let at : 0 + target ≡ target = omega arith in
    let a =
      region_mut-Changed n 0 regions target (extended (node_span node)) tree lt
        (extended-Keeps n (0 + target) (node_span node)) in
    let c =
      region_mut-Changed n 0 a.regions' target (with_node node) a.tree
        (omega (arith, a.same_length, lt)) (with_node-Keeps n (0 + target) node (rw at h)) in
    record {
      regions' = c.regions';
      is_some = rw (a.is_some, push_node) c.is_some;
      tree = c.tree;
      same_length = c.same_length ∙ a.same_length;
    }

-- What the operations leave: all of them were applied.
pub record Applied (n : ℕ) (result : Option (Regions × List ValidationError)) : Type 0 where
  pub regions : Regions
  pub diagnostics : List ValidationError
  pub is_some : result ≡ some (regions, diagnostics)
  pub tree : IsTree n 0 regions
  pub count : length regions ≡ n

with_diagnostics-Applied :
    (n : ℕ) (regions : Regions) (diagnostics : List ValidationError) (result : Option Regions)
    → length regions ≡ n
    → Changed n 0 regions result
    → Applied n (with_diagnostics diagnostics result)
with_diagnostics-Applied n regions diagnostics result len c = record {
  regions = c.regions';
  diagnostics = diagnostics;
  is_some = rw (c.is_some, with_diagnostics) refl;
  tree = c.tree;
  count = c.same_length ∙ len;
}

apply_op-Applied :
    (n : ℕ) (op : TreeOp) (regions : Regions) (diagnostics : List ValidationError)
    → OpInRange n op
    → IsTree n 0 regions
    → length regions ≡ n
    → Applied n (apply_op op regions diagnostics)
unfolding apply_op
apply_op-Applied n (add_node target node) regions diagnostics (lt, h) tree len =
    with_diagnostics-Applied n regions diagnostics (push_node regions target node) len
      (push_node-Changed n regions target node tree (omega (arith, lt, len)) h)
apply_op-Applied n (extend_region_span id span) regions diagnostics lt tree len =
    with_diagnostics-Applied n regions diagnostics (extend_region regions id span) len (
      region_mut-Changed n 0 regions id (extended span) tree (omega (arith, lt, len))
        (extended-Keeps n (0 + id) span))
apply_op-Applied n (finalize_span_to id end) regions diagnostics lt tree len =
    with_diagnostics-Applied n regions diagnostics (finalize_region_span regions id end) len (
      region_mut-Changed n 0 regions id (finalized end) tree (omega (arith, lt, len))
        (finalized-Keeps n (0 + id) end))
apply_op-Applied n (accumulate_diagnostic e) regions diagnostics h tree len = record {
  regions = regions;
  diagnostics = diagnostics ++ e ∷ [];
  is_some = refl;
  tree = tree;
  count = len;
}

apply_ops-Applied :
    (n : ℕ) (ops : List TreeOp) (regions : Regions) (diagnostics : List ValidationError)
    → All (OpInRange n) ops
    → IsTree n 0 regions
    → length regions ≡ n
    → Applied n (apply_ops ops regions diagnostics)
unfolding apply_ops
apply_ops-Applied n [] regions diagnostics h tree len = record {
  regions = regions;
  diagnostics = diagnostics;
  is_some = refl;
  tree = tree;
  count = len;
}
apply_ops-Applied n (op ∷ ops) regions diagnostics h tree len =
    let a = apply_op-Applied n op regions diagnostics h.0 tree len in
    rw (a.is_some, apply_ops) (apply_ops-Applied n ops a.regions a.diagnostics h.1 a.tree a.count)

from_allocations-IsTree :
    (n i : ℕ) (allocs : List (Span × Option RegionId))
    → AllocsBelow i allocs
    → IsTree n i (from_allocations allocs)
from_allocations-IsTree n i [] h = tt
from_allocations-IsTree n i ((span, parent) ∷ allocs) h =
    (h.0, tt, from_allocations-IsTree n (suc i) allocs h.1)

length-from_allocations :
    (allocs : List (Span × Option RegionId)) → length (from_allocations allocs) ≡ length allocs
length-from_allocations [] = refl
length-from_allocations (a ∷ allocs) = ap suc (length-from_allocations allocs)

-- The regions of a finished template.
pub record Completes (result : Option TemplateTreeData) : Type 0 where
  pub tree : TemplateTreeData
  pub is_some : result ≡ some tree
  pub is_tree : IsTree (length tree.regions) 0 tree.regions
  pub root_first : tree.root ≡ 0
  pub some_region : 0 < length tree.regions

apply_operations-Completes :
    (b : TemplateTreeBuilder) → WellFormed b → Completes (apply_operations b)
unfolding apply_operations
apply_operations-Completes b w =
    let n = length b.region_allocs in
    let a =
      apply_ops-Applied n b.ops (from_allocations b.region_allocs) [] w.in_range
        (from_allocations-IsTree n 0 b.region_allocs w.parents)
        (length-from_allocations b.region_allocs) in
    record {
      tree = record {
        root = b.root;
        regions = a.regions;
        captured_closers = b.captured_closers;
        diagnostics = a.diagnostics;
      };
      is_some = rw (a.is_some, apply_operations) refl;
      is_tree = subst (λ (k : ℕ). IsTree k 0 a.regions) (sym a.count) a.tree;
      root_first = w.at_root;
      some_region = omega (arith, a.count, w.some_region);
    }

-- For every grammar and every list of nodes, no operation names a region that is not allocated: the
-- build ends with a tree, whose root is region 0, in which every other region has a parent with a
-- smaller number, and every block a body that is allocated and has a larger number than the region
-- in which the block stands.
pub model_data-Completes :
    (grammar : SparseTagGrammar) (nodes : List Node) → Completes (model_data grammar nodes)
unfolding model_data
model_data-Completes grammar nodes =
    apply_operations-Completes (finish (visit_all (new grammar) nodes))
      (finish-WellFormed grammar nodes)
