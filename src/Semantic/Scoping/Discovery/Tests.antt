-- ===== src/Semantic/Scoping/Discovery/Tests.antt =====
-- The passes of crates/djls-semantic/src/scoping.rs at a concrete template.
use django_language_server.Base.{true, false, ◌==◌, ◌≡◌, refl, none, some, List, [], ◌∷◌}
use django_language_server.Base.Text.{text, text_eq}
use django_language_server.Source.Position.{span_of, expand, saturating_from_bounds_usize}
use django_language_server.Templates.Nodes.{Node}
use django_language_server.Semantic.Frames.{standalone, for_name_span}
use django_language_server.Semantic.Scoping.Loads.{
  indexed, LoadedLibraries, new_loaded, full_load, build, parse_load_bits, from_loader_bits,
}
use django_language_server.Semantic.Scoping.Discovery.{
  find_statements, Grammar, discover_loads, discover, statements_in, find_loads,
  LoadedLibraries-discrete, ℕ_discrete,
}
use django_language_server.Semantic.Builder.{
  model_data, apply_operations, finish, visit_node, handle_tag, close_active_opaque_if_closer,
}
use django_language_server.Semantic.Operations.{apply_ops, apply_op}
use django_language_server.Semantic.Tree.{region_mut, extend_span}
use django_language_server.Semantic.Views.Active.{collect_active_nodes}

-- "{% load i18n %}{% trans %}", where `load` loads libraries.
abbrev nodes : List Node
nodes =
    Node.tag (text "load") (span_of 3 4) (record { text = text "i18n"; span = span_of 8 4 } ∷ [])
      (span_of 2 11)
    ∷ Node.tag (text "trans") (span_of 18 5) [] (span_of 17 7)
    ∷ []

abbrev grammar : Grammar
grammar = record {
  structure = record { facts = standalone ∷ []; occurrences = (3, 0) ∷ (18, 0) ∷ [] };
  is_loader = λ name_span. name_span.start == 3;
}

abbrev i18n : LoadedLibraries
i18n = indexed (
    (record {
      span = span_of 2 11;
      kind = full_load (record { name = text "i18n"; span = span_of 8 4 } ∷ []);
    })
    ∷ [])

one_load : discover_loads (λ loaded. grammar) nodes ≡ some i18n
unfolding discover_loads discover statements_in find_loads LoadedLibraries-discrete ℕ_discrete
    model_data apply_operations finish visit_node handle_tag close_active_opaque_if_closer apply_ops
    apply_op for_name_span region_mut extend_span collect_active_nodes new_loaded build
    parse_load_bits from_loader_bits expand saturating_from_bounds_usize text_eq indexed
    find_statements
one_load = refl

-- A grammar in which the load tag counts only as long as nothing is loaded does not settle.
abbrev flickering : LoadedLibraries → Grammar
flickering loaded = elim loaded.statements [
  | [] ↦ grammar
  | statement ∷ statements ↦ record grammar { is_loader = λ name_span. false }
]

no_fixed_point : discover_loads flickering nodes ≡ none
unfolding discover_loads discover statements_in find_loads LoadedLibraries-discrete ℕ_discrete
    model_data apply_operations finish visit_node handle_tag close_active_opaque_if_closer apply_ops
    apply_op for_name_span region_mut extend_span collect_active_nodes new_loaded build
    parse_load_bits from_loader_bits expand saturating_from_bounds_usize text_eq indexed
    find_statements
no_fixed_point = refl

-- A first load tag that ends behind the second fails the assertion.
abbrev overlapping : List Node
overlapping =
    Node.tag (text "load") (span_of 3 4) (record { text = text "i18n"; span = span_of 8 4 } ∷ [])
      (span_of 2 100)
    ∷ Node.tag (text "load") (span_of 18 4) (record { text = text "tz"; span = span_of 23 2 } ∷ [])
        (span_of 17 7)
    ∷ []

assertion_fails :
    discover_loads (λ loaded. record grammar { is_loader = λ name_span. true }) overlapping ≡ none
unfolding discover_loads discover statements_in find_loads LoadedLibraries-discrete ℕ_discrete
    model_data apply_operations finish visit_node handle_tag close_active_opaque_if_closer apply_ops
    apply_op for_name_span region_mut extend_span collect_active_nodes new_loaded build
    parse_load_bits from_loader_bits expand saturating_from_bounds_usize text_eq indexed
    find_statements
assertion_fails = refl
