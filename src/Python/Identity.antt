-- ===== src/Python/Identity.antt =====
-- What names a value's source in crates/djls-project/src/python: modules, origins and their intrinsic
-- order. A `File` is its database id; a path is the list of its components.
use django_language_server.Base.{ℕ, Option, List, []}
use django_language_server.Base.Ordering.{
  Ordering, compare, then_with, list_cmp, option_cmp, Lawful, nat-Lawful, on-Lawful, then-Lawful,
  list-Lawful, option-Lawful,
}
use django_language_server.Base.Text.{Text}
use django_language_server.Source.Position.{Span}

-- crates/djls-source/src/origin.rs.
pub record Origin : Type 0 where
  pub file : ℕ
  pub span : Span

-- `std::path::Component`, without the prefixes of Windows.
pub data Component : Type 0 where
  root_dir cur_dir parent_dir : Component
  normal : Text → Component

abbrev pub Utf8Path : Type 0
Utf8Path = List Component

pub data SearchPath : Type 0 where
  first_party extra site_packages editable : Utf8Path → SearchPath

pub record PythonSourceModule : Type 0 where
  pub name : Text
  pub package_name : Option Text
  pub path : Utf8Path
  pub file : ℕ
  pub search_path : SearchPath

-- `str::cmp`, `Ord for Component` and `Utf8Path::cmp`.
abbrev pub text_cmp : Text → Text → Ordering
text_cmp = list_cmp compare

abbrev pub component_rank : Component → ℕ
component_rank root_dir = 0
component_rank cur_dir = 1
component_rank parent_dir = 2
component_rank (normal name) = 3

abbrev pub component_name : Component → Text
component_name root_dir = []
component_name cur_dir = []
component_name parent_dir = []
component_name (normal name) = name

abbrev pub component_cmp : Component → Component → Ordering
component_cmp a b =
    then_with (compare (component_rank a) (component_rank b))
      (text_cmp (component_name a) (component_name b))

abbrev pub path_cmp : Utf8Path → Utf8Path → Ordering
path_cmp = list_cmp component_cmp

-- `SearchPath::structural_rank` and `SearchPath::path`.
abbrev pub structural_rank : SearchPath → ℕ
structural_rank (editable path) = 0
structural_rank (extra path) = 1
structural_rank (first_party path) = 2
structural_rank (site_packages path) = 3

abbrev pub search_path_path : SearchPath → Utf8Path
search_path_path (first_party path) = path
search_path_path (extra path) = path
search_path_path (site_packages path) = path
search_path_path (editable path) = path

-- `StructuralOrd` for a search path, an origin and a module.
unfoldable pub search_path_cmp : SearchPath → SearchPath → Ordering
search_path_cmp a b =
    then_with (compare (structural_rank a) (structural_rank b))
      (path_cmp (search_path_path a) (search_path_path b))

unfoldable pub origin_cmp : Origin → Origin → Ordering
origin_cmp a b =
    then_with (then_with (compare a.file b.file) (compare a.span.start b.span.start))
      (compare a.span.length b.span.length)

unfoldable pub module_cmp : PythonSourceModule → PythonSourceModule → Ordering
module_cmp a b =
    then_with
      (then_with
        (then_with
          (then_with (text_cmp a.name b.name) (option_cmp text_cmp a.package_name b.package_name))
          (path_cmp a.path b.path))
        (compare a.file b.file))
      (search_path_cmp a.search_path b.search_path)

pub text-Lawful : Lawful Text text_cmp
text-Lawful = list-Lawful nat-Lawful

component-Lawful : Lawful Component component_cmp
component-Lawful =
    then-Lawful (on-Lawful component_rank nat-Lawful) (on-Lawful component_name text-Lawful)

path-Lawful : Lawful Utf8Path path_cmp
path-Lawful = list-Lawful component-Lawful

search_path-Lawful : Lawful SearchPath search_path_cmp
unfolding search_path_cmp
search_path-Lawful =
    then-Lawful (on-Lawful structural_rank nat-Lawful) (on-Lawful search_path_path path-Lawful)

pub origin-Lawful : Lawful Origin origin_cmp
unfolding origin_cmp
origin-Lawful =
    then-Lawful
      (then-Lawful (on-Lawful (λ o. o.file) nat-Lawful) (on-Lawful (λ o. o.span.start) nat-Lawful))
      (on-Lawful (λ o. o.span.length) nat-Lawful)

pub module-Lawful : Lawful PythonSourceModule module_cmp
unfolding module_cmp
module-Lawful =
    then-Lawful
      (then-Lawful
        (then-Lawful
          (then-Lawful (on-Lawful (λ m. m.name) text-Lawful)
            (on-Lawful (λ m. m.package_name) (option-Lawful text-Lawful)))
          (on-Lawful (λ m. m.path) path-Lawful))
        (on-Lawful (λ m. m.file) nat-Lawful))
      (on-Lawful (λ m. m.search_path) search_path-Lawful)
