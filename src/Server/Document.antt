-- ===== src/Server/Document.antt =====
-- crates/djls-server/src/document.rs: an open document and the changes that the client sends.
pub mod Changes
mod Tests
use django_language_server.Base.{
  ℕ, ◌&&◌, if◌then◌else◌, List, [], ◌∷◌, ◌++◌, Option, none, some, and_then,
}
use django_language_server.Base.Text.{Text, slice_from, slice_to, is_char_boundary}
use django_language_server.Source.Position.{Range}
use django_language_server.Source.Line.Index.{LineIndex, PositionEncoding, from_text, offset}

-- `FileKind` of crates/djls-source/src/files.rs.
pub data FileKind : Type 0 where
  other python template : FileKind

-- The version is an `i32`: its bit pattern.
pub record TextDocument : Type 0 where
  pub path : Text
  pub content : Text
  pub version : ℕ
  pub kind : FileKind
  pub line_index : LineIndex

-- `TextDocument::new`.
unfoldable pub new : Text → Text → ℕ → FileKind → TextDocument
new path content version kind = record {
  path = path;
  content = content;
  version = version;
  kind = kind;
  line_index = from_text content;
}

pub record DocumentChange : Type 0 where
  pub range : Option Range
  pub content : Text

-- `DocumentChange::apply`: none where a slice is cut at an offset that is no character boundary, which
-- panics.
unfoldable pub apply : DocumentChange → Text → LineIndex → PositionEncoding → Option Text
apply change content line_index encoding = elim change.range [
  | some range ↦
      let start_offset = offset line_index content range.start encoding in
      let end_offset = offset line_index content range.end encoding in
      if is_char_boundary content start_offset && is_char_boundary content end_offset
      then some (slice_to content start_offset ++ (change.content ++ slice_from content end_offset))
      else none
  | none ↦ some change.content
]

-- The loop of `update` over the changes.
unfoldable pub apply_all :
    List DocumentChange → Text → LineIndex → PositionEncoding → Option (Text × LineIndex)
unfolding apply
apply_all [] content line_index encoding = some (content, line_index)
apply_all (change ∷ changes) content line_index encoding =
    and_then (apply change content line_index encoding)
      (λ content'. apply_all changes content' (from_text content') encoding)

-- `changes.len() == 1 && changes[0].range.is_none()`, with the text of that change.
abbrev pub full_text : List DocumentChange → Option Text
full_text [] = none
full_text (change ∷ []) = elim change.range [ none ↦ some change.content | some range ↦ none ]
full_text (change ∷ next ∷ changes) = none

abbrev pub updated : TextDocument → ℕ → Text × LineIndex → TextDocument
updated doc version (content, line_index) = record doc {
  content = content;
  line_index = line_index;
  version = version;
}

-- `TextDocument::update`.
unfoldable pub update :
    TextDocument → List DocumentChange → ℕ → PositionEncoding → Option TextDocument
unfolding apply_all
update doc changes version encoding = elim (full_text changes) [
  | some content ↦ some (updated doc version (content, from_text content))
  | none ↦
      and_then (apply_all changes doc.content doc.line_index encoding)
        (λ result. some (updated doc version result))
]
