-- ===== src/Semantic/Views.antt =====
-- What crates/djls-semantic/src/structure reads off a tree: the folds (folding.rs) and the active
-- nodes (active.rs). A walk from region to region has as much fuel as there are regions; `none` is a
-- region that is not there, or a run out of fuel.
pub mod Folding
pub mod Active
pub mod Total
mod Tests
use django_language_server.Base.{Option, none, some, List, [], ◌∷◌, ◌++◌}
use django_language_server.Semantic.Tree.{TemplateNode}

-- `Vec::extend`, or the failure of what should be added.
abbrev pub append_all {ℓ} : {A : Type ℓ} → Option (List A) → Option (List A) → Option (List A)
append_all none later = none
append_all (some xs) none = none
append_all (some xs) (some ys) = some (xs ++ ys)

-- A loop over nodes that pushes what each of them gives.
abbrev pub for_each {ℓ κ} :
    {A : Type ℓ} {B : Type κ} → (A → Option (List B)) → List A → Option (List B)
for_each visit [] = some []
for_each visit (node ∷ nodes) = append_all (visit node) (for_each visit nodes)
