-- ===== src/Semantic/Views/Total.antt =====
-- On a tree the walks of crates/djls-semantic/src/structure/folding.rs and active.rs come to an end.
use django_language_server.Base.{
  ℕ, zero, suc, ◌+◌, ◌≤◌, ◌<◌, Bool, true, false, ◌≡◌, refl, Option, none, some, List, [], ◌∷◌,
  length, get_elem?, All, arith, if◌then◌else◌,
}
use django_language_server.Base.Text.{Text}
use django_language_server.Source.Position.{Span}
use django_language_server.Templates.Filters.{TagBit}
use django_language_server.Templates.Nodes.{Node}
use django_language_server.Semantic.Tree.{
  RegionId, BlockRole, TemplateNode, TemplateRegion, Regions,
}
use django_language_server.Semantic.Frames.{SparseTagGrammar}
use django_language_server.Semantic.Operations.{TemplateTreeData}
use django_language_server.Semantic.Builder.{model_data}
use django_language_server.Semantic.Builder.Bounds.{BodyBelow}
use django_language_server.Semantic.Builder.Complete.{IsTree, model_data-Completes}
use django_language_server.Semantic.Views.{append_all, for_each}
use django_language_server.Semantic.Views.Folding.{
  TemplateFold, body_fold, node_folds, collect_folds_for_region,
}
use django_language_server.Semantic.Views.Active.{
  StructuralOccurrenceMeaning, definition, captured_intermediate, push_tag, same_span,
  ActiveTemplateNode, Walk, node_active, visit, collect_active_nodes,
}

abbrev pub IsSome {ℓ} : {A : Type ℓ} → Option A → Type 0
IsSome none = ⊥
IsSome (some a) = Unit

append_all-IsSome {ℓ} :
    {A : Type ℓ} (xs ys : Option (List A)) → IsSome xs → IsSome ys → IsSome (append_all xs ys)
append_all-IsSome none ys hx hy = hx
append_all-IsSome (some xs) none hx hy = hy
append_all-IsSome (some xs) (some ys) hx hy = tt

for_each-IsSome {ℓ κ} :
    {A : Type ℓ} {B : Type κ} (P : A → Type 0) (visit : A → Option (List B)) (nodes : List A)
    → ((node : A) → P node → IsSome (visit node))
    → All P nodes
    → IsSome (for_each visit nodes)
for_each-IsSome P visit [] each h = tt
for_each-IsSome P visit (node ∷ nodes) each h =
    append_all-IsSome (visit node) (for_each visit nodes) (each node h.0)
      (for_each-IsSome P visit nodes each h.1)

-- The region with a number is there, and its bodies lie above it.
IsTree-get :
    (n i : ℕ) (regions : Regions) (id : RegionId)
    → IsTree n i regions
    → id < length regions
    → (r : TemplateRegion) × (get_elem? regions id ≡ some r) × All (BodyBelow n (i + id)) r.nodes
IsTree-get n i [] id h lt = absurd (omega arith)
IsTree-get n i (r ∷ regions) zero (parent, nodes, rest) lt =
    let at : i + 0 ≡ i = omega arith in (r, refl, rw at nodes)
IsTree-get n i (r ∷ regions) (suc id) (parent, nodes, rest) lt =
    let at : i + suc id ≡ suc i + id = omega arith in
    let (r', found, bodies) = IsTree-get n (suc i) regions id rest (omega arith) in
    (r', found, rw at bodies)

-- The bodies above `id` can be walked.
abbrev Walks {ℓ} : {A : Type ℓ} → ℕ → ℕ → (RegionId → Option (List A)) → Type 0
Walks n id walk = (body : RegionId) → id < body → body < n → IsSome (walk body)

node_folds-IsSome :
    (n id : ℕ) (walk : RegionId → Option (List TemplateFold)) (regions : Regions)
    → IsTree n 0 regions
    → length regions ≡ n
    → Walks n id walk
    → (node : TemplateNode) → BodyBelow n id node
    → IsSome (node_folds walk regions node)
node_folds-IsSome n id walk regions tree len walks
      (TemplateNode.block tag name_span bits full_span body BlockRole.opener) h =
    let (r, found, bodies) = IsTree-get n 0 regions body tree (omega (arith, h.1, len)) in
    append_all-IsSome (body_fold tag full_span (get_elem? regions body)) (walk body)
      (rw (found, body_fold) tt) (walks body h.0 h.1)
node_folds-IsSome n id walk regions tree len walks
      (TemplateNode.block tag name_span bits full_span body BlockRole.segment) h =
    walks body h.0 h.1
node_folds-IsSome n id walk regions tree len walks
      (TemplateNode.opaque tag name_span bits full_span body_span) h =
    tt
node_folds-IsSome n id walk regions tree len walks
      (TemplateNode.standalone_tag tag name_span bits full_span) h =
    tt
node_folds-IsSome n id walk regions tree len walks (TemplateNode.variable var var_span filters span)
      h =
    tt
node_folds-IsSome n id walk regions tree len walks (TemplateNode.comment span) h = tt
node_folds-IsSome n id walk regions tree len walks (TemplateNode.text span) h = tt
node_folds-IsSome n id walk regions tree len walks (TemplateNode.error span full_span) h = tt

collect_folds-IsSome :
    (fuel n : ℕ) (regions : Regions) (id : RegionId)
    → IsTree n 0 regions
    → length regions ≡ n
    → id < n
    → n ≤ id + fuel
    → IsSome (collect_folds_for_region fuel regions id)
unfolding collect_folds_for_region
collect_folds-IsSome zero n regions id tree len lt enough = absurd (omega arith)
collect_folds-IsSome (suc fuel) n regions id tree len lt enough =
    let (r, found, bodies) = IsTree-get n 0 regions id tree (omega (arith, lt, len)) in
    let at : 0 + id ≡ id = omega arith in
    rw (found, collect_folds_for_region)
      (for_each-IsSome (BodyBelow n id)
        (node_folds (λ body. collect_folds_for_region fuel regions body) regions) r.nodes
        (node_folds-IsSome n id (λ body. collect_folds_for_region fuel regions body) regions tree
          len
          (λ body above below.
            collect_folds-IsSome fuel n regions body tree len below (omega (arith, above, enough))))
        (rw at at bodies))

abbrev WalksActive : ℕ → ℕ → Walk → Type 0
WalksActive n id walk = (within : Option Span) → Walks n id (walk within)

push_tag-IsSome :
    (name : Text) (name_span : Span) (bits : List TagBit) (full_span : Span)
    (meaning : StructuralOccurrenceMeaning) (later : Option (List ActiveTemplateNode))
    → IsSome later
    → IsSome (push_tag name name_span bits full_span meaning later)
push_tag-IsSome name name_span bits full_span meaning none h = h
push_tag-IsSome name name_span bits full_span meaning (some later) h = tt

node_active-IsSome :
    (n id : ℕ) (walk : Walk)
    → WalksActive n id walk
    → (node : TemplateNode) → BodyBelow n id node
    → IsSome (node_active walk node)
node_active-IsSome n id walk walks
      (TemplateNode.block name name_span bits full_span body BlockRole.opener) h =
    push_tag-IsSome name name_span bits full_span definition (walk (some full_span) body)
      (walks (some full_span) body h.0 h.1)
node_active-IsSome n id walk walks
      (TemplateNode.block name name_span bits full_span body BlockRole.segment) h =
    push_tag-IsSome name name_span bits full_span captured_intermediate (walk none body)
      (walks none body h.0 h.1)
node_active-IsSome n id walk walks (TemplateNode.opaque name name_span bits full_span body_span) h =
    tt
node_active-IsSome n id walk walks (TemplateNode.standalone_tag name name_span bits full_span) h =
    tt
node_active-IsSome n id walk walks (TemplateNode.variable var var_span filters span) h = tt
node_active-IsSome n id walk walks (TemplateNode.comment span) h = tt
node_active-IsSome n id walk walks (TemplateNode.text span) h = tt
node_active-IsSome n id walk walks (TemplateNode.error span full_span) h = tt

if-IsSome {ℓ} :
    {A : Type ℓ} (c : Bool) (x y : Option A) → IsSome x → IsSome y → IsSome (if c then x else y)
if-IsSome true x y hx hy = hx
if-IsSome false x y hx hy = hy

visit-IsSome :
    (n id : ℕ) (walk : Walk) (within : Option Span)
    → WalksActive n id walk
    → (node : TemplateNode) → BodyBelow n id node
    → IsSome (visit walk within node)
visit-IsSome n id walk none walks node h = node_active-IsSome n id walk walks node h
visit-IsSome n id walk (some o) walks
      (TemplateNode.block name name_span bits full_span body BlockRole.segment) h =
    if-IsSome (same_span full_span o) (walk none body)
      (node_active walk (TemplateNode.block name name_span bits full_span body BlockRole.segment))
      (walks none body h.0 h.1)
      (node_active-IsSome n id walk walks
        (TemplateNode.block name name_span bits full_span body BlockRole.segment) h)
visit-IsSome n id walk (some o) walks
      (TemplateNode.block name name_span bits full_span body BlockRole.opener) h =
    node_active-IsSome n id walk walks
      (TemplateNode.block name name_span bits full_span body BlockRole.opener) h
visit-IsSome n id walk (some o) walks (TemplateNode.opaque name name_span bits full_span body_span)
      h =
    tt
visit-IsSome n id walk (some o) walks (TemplateNode.standalone_tag name name_span bits full_span)
      h =
    tt
visit-IsSome n id walk (some o) walks (TemplateNode.variable var var_span filters span) h = tt
visit-IsSome n id walk (some o) walks (TemplateNode.comment span) h = tt
visit-IsSome n id walk (some o) walks (TemplateNode.text span) h = tt
visit-IsSome n id walk (some o) walks (TemplateNode.error span full_span) h = tt

collect_active-IsSome :
    (fuel n : ℕ) (regions : Regions) (within : Option Span) (id : RegionId)
    → IsTree n 0 regions
    → length regions ≡ n
    → id < n
    → n ≤ id + fuel
    → IsSome (collect_active_nodes fuel regions within id)
unfolding collect_active_nodes
collect_active-IsSome zero n regions within id tree len lt enough = absurd (omega arith)
collect_active-IsSome (suc fuel) n regions within id tree len lt enough =
    let (r, found, bodies) = IsTree-get n 0 regions id tree (omega (arith, lt, len)) in
    let at : 0 + id ≡ id = omega arith in
    rw (found, collect_active_nodes)
      (for_each-IsSome (BodyBelow n id)
        (visit (λ w body. collect_active_nodes fuel regions w body) within) r.nodes
        (visit-IsSome n id (λ w body. collect_active_nodes fuel regions w body) within
          (λ w body above below.
            collect_active-IsSome fuel n regions w body tree len below
              (omega (arith, above, enough))))
        (rw at at bodies))

-- On the tree that is built for any nodes, the walks for the folds and for the active nodes come to
-- an end, go no deeper than there are regions, and meet no region that is missing.
pub views_end :
    (grammar : SparseTagGrammar) (nodes : List Node)
    → (t : TemplateTreeData) × (model_data grammar nodes ≡ some t)
      × IsSome (collect_folds_for_region (length t.regions) t.regions t.root)
      × IsSome (collect_active_nodes (length t.regions) t.regions none t.root)
views_end grammar nodes =
    let c = model_data-Completes grammar nodes in
    let t = c.tree in
    let first : t.root < length t.regions = omega (arith, c.root_first, c.some_region) in
    (
      t,
      c.is_some,
      collect_folds-IsSome (length t.regions) (length t.regions) t.regions t.root c.is_tree refl
          first (omega arith),
      collect_active-IsSome (length t.regions) (length t.regions) t.regions none t.root c.is_tree
          refl first (omega arith),
    )
