-- ===== src/Semantic/Scoping/Discovery.antt =====
-- The passes of template_analysis_projection_for_file_in_scope in crates/djls-semantic/src/scoping.rs that
-- find the load statements of a template: the statements decide how its tags are classified, and so which
-- of its load tags take effect. How a tag is classified under given statements is an argument.
pub mod Passes
mod Tests
unfoldable use native.Mathlib.Decide.{ℕ_discrete}
use django_language_server.Base.{
  ℕ, zero, suc, ◌+◌, Bool, true, false, leb, if◌then◌else◌, Option, none, some, and_then, List, [],
  ◌∷◌, ◌++◌, map, length,
}
use django_language_server.Source.Position.{Span}
use django_language_server.Templates.Nodes.{Node}
use django_language_server.Semantic.Frames.{SparseTagGrammar, CapturedClosingTag}
use django_language_server.Semantic.Operations.{TemplateTreeData}
use django_language_server.Semantic.Builder.{model_data}
use django_language_server.Semantic.Views.Active.{
  StructuralOccurrenceMeaning, definition, captured_intermediate, captured_closer,
  ActiveTemplateTag, new_tag, ActiveTemplateNode, collect_active_nodes,
}
use django_language_server.Semantic.Scoping.Loads.{
  LoadStatement, LoadedLibraries, from_loader_bits, indexed, new_loaded,
}

-- `==` on the statements and their index.
unfoldable pub LoadedLibraries-discrete : Discrete LoadedLibraries
LoadedLibraries-discrete = hlevel ℕ_discrete

-- `CapturedClosingTag::as_active`.
abbrev pub as_active : CapturedClosingTag → ActiveTemplateNode
as_active closer =
    ActiveTemplateNode.tag
      (new_tag closer.tag closer.name_span closer.bits closer.full_span captured_closer)

-- `sort_by_key` with the start, which is stable: by insertion.
abbrev pub node_start : ActiveTemplateNode → ℕ
node_start (ActiveTemplateNode.tag t) = t.full_span.start
node_start (ActiveTemplateNode.variable v) = v.span.start

abbrev pub insert_node : ActiveTemplateNode → List ActiveTemplateNode → List ActiveTemplateNode
insert_node node [] = node ∷ []
insert_node node (other ∷ nodes) =
    let later = insert_node node nodes in
    if leb (node_start node) (node_start other) then node ∷ other ∷ nodes else other ∷ later

abbrev pub sort_nodes : List ActiveTemplateNode → List ActiveTemplateNode
sort_nodes [] = []
sort_nodes (node ∷ nodes) = insert_node node (sort_nodes nodes)

-- The number of tags, and one.
abbrev pub tag_count : List Node → ℕ
tag_count [] = 0
tag_count (Node.tag name name_span bits span ∷ nodes) = suc (tag_count nodes)
tag_count (_ ∷ nodes) = tag_count nodes

abbrev pub fixed_point_limit : List Node → ℕ
fixed_point_limit nodes = tag_count nodes + 1

-- The grammar of a pass, and whether the specification at a name loads libraries.
pub record Grammar : Type 0 where
  pub structure : SparseTagGrammar
  pub is_loader : Span → Bool

-- `occurrence_spec`, as far as its role.
abbrev pub loads_libraries : Grammar → StructuralOccurrenceMeaning → Span → Bool
loads_libraries grammar definition name_span = grammar.is_loader name_span
loads_libraries grammar captured_intermediate name_span = false
loads_libraries grammar captured_closer name_span = false

abbrev pub push_statement : Option LoadStatement → List LoadStatement → List LoadStatement
push_statement none statements = statements
push_statement (some statement) statements = statement ∷ statements

abbrev pub statements_of : Grammar → List ActiveTemplateNode → List LoadStatement
statements_of grammar [] = []
statements_of grammar (ActiveTemplateNode.variable v ∷ nodes) = statements_of grammar nodes
statements_of grammar (ActiveTemplateNode.tag t ∷ nodes) =
    let later = statements_of grammar nodes in
    if loads_libraries grammar t.structural_meaning t.name_span
    then push_statement (from_loader_bits t.bits t.span) later
    else later

-- The statements that take effect in the tree of the grammar.
unfoldable pub statements_in : Grammar → TemplateTreeData → Option (List LoadStatement)
statements_in grammar t =
    and_then (collect_active_nodes (length t.regions) t.regions none t.root) (λ active.
      some (statements_of grammar (sort_nodes (active ++ map as_active t.captured_closers))))

unfoldable pub find_statements : Grammar → List Node → Option (List LoadStatement)
find_statements grammar nodes =
    and_then (model_data grammar.structure nodes) (statements_in grammar)

-- One pass: none where it panics, as it does when the statements are not in source order.
unfoldable pub discover : Grammar → List Node → Option LoadedLibraries
discover grammar nodes = and_then (find_statements grammar nodes) new_loaded

module _ (grammar_of : LoadedLibraries → Grammar) (nodes : List Node) where
  -- The loop over the passes: none where a pass panics, or where it ends without a fixed point, which
  -- panics as well.
  unfoldable pub find_loads : ℕ → LoadedLibraries → Option LoadedLibraries
  find_loads zero loaded = none
  find_loads (suc limit) loaded = elim (discover (grammar_of loaded) nodes) [
    | none ↦ none
    | some next ↦ elim (LoadedLibraries-discrete next loaded) [
      | yes e ↦ some loaded
      | no e ↦ find_loads limit next
    ]
  ]

  unfoldable pub discover_loads : Option LoadedLibraries
  unfolding find_loads
  discover_loads = find_loads (fixed_point_limit nodes) (indexed [])
