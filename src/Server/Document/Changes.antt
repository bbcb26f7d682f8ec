-- ===== src/Server/Document/Changes.antt =====
-- What `TextDocument::update` of crates/djls-server/src/document.rs does to a document.
use django_language_server.Base.{
  ℕ, ◌+◌, ◌≤◌, ◌≡◌, ◌∙◌, refl, sym, List, [], ◌∷◌, ◌++◌, append_assoc, Option, none, some, true,
  and_then, Option-cases, inl, inr, u32_max, arith, ap,
}
use django_language_server.Base.Text.{Text, byte_len, is_char_boundary}
use django_language_server.Base.Text.Slices.{
  byte_len-append, slice_from-append, slice_to-append, boundary-append,
}
use django_language_server.Source.Line.Index.{
  LineIndex, PositionEncoding, utf8, from_text, to_line_col,
}
use django_language_server.Source.Line.RoundTrip.{offset-to_line_col}
use django_language_server.Server.Document.{
  TextDocument, DocumentChange, apply, apply_all, updated, update,
}

-- The cached index is the index of the content.
abbrev pub IsIndexed : TextDocument → Type 0
IsIndexed doc = doc.line_index ≡ from_text doc.content

-- The one change that replaces the whole text goes the way of the others.
update-all :
    (doc : TextDocument) (changes : List DocumentChange) (version : ℕ) (encoding : PositionEncoding)
    → update doc changes version encoding
      ≡ and_then
          (apply_all changes doc.content doc.line_index encoding)
          (λ result. some (updated doc version result))
unfolding update
update-all doc [] version encoding = refl
update-all doc (change ∷ []) version encoding = elim (Option-cases change.range) [
  | inl whole ↦ rw whole refl
  | inr (range, part) ↦ rw part refl
]
update-all doc (change ∷ next ∷ changes) version encoding = refl

apply_all-append :
    (changes more : List DocumentChange) (content : Text) (index : LineIndex)
    (encoding : PositionEncoding)
    → apply_all (changes ++ more) content index encoding
      ≡ and_then
          (apply_all changes content index encoding)
          (λ result. apply_all more result.0 result.1 encoding)
unfolding apply_all
apply_all-append [] more content index encoding = refl
apply_all-append (change ∷ changes) more content index encoding =
    elim (Option-cases (apply change content index encoding)) [
      | inl panics ↦ rw (panics, apply_all) refl
      | inr (content', applied) ↦
          rw (applied, apply_all)
            (apply_all-append changes more content' (from_text content') encoding)
    ]

apply_all-index :
    (changes : List DocumentChange) (content last : Text) (index last_index : LineIndex)
    (encoding : PositionEncoding)
    → index ≡ from_text content
    → apply_all changes content index encoding ≡ some (last, last_index)
    → last_index ≡ from_text last
unfolding apply_all
apply_all-index [] content last index last_index encoding h e =
    let first : content ≡ last = cc in
    let second : index ≡ last_index = cc in rw (sym second, sym first) h
apply_all-index (change ∷ changes) content last index last_index encoding h e =
    elim (Option-cases (apply change content index encoding)) [
      | inl panics ↦
          let f : ◌≡◌ {A = Option (Text × LineIndex)} none (some (last, last_index)) =
            rw panics at e in
          cc
      | inr (content', applied) ↦
          apply_all-index changes content' last (from_text content') last_index encoding refl
            (rw applied at e)
    ]

-- What an update gives back, if it does not panic.
abbrev pub Keeps : TextDocument → ℕ → Option TextDocument → Type 0
Keeps doc version none = Unit
Keeps doc version (some next) =
    IsIndexed next × (next.version ≡ version) × (next.path ≡ doc.path) × (next.kind ≡ doc.kind)

update-Keeps :
    (doc : TextDocument) (changes : List DocumentChange) (version : ℕ) (encoding : PositionEncoding)
    → IsIndexed doc
    → Keeps doc version (update doc changes version encoding)
update-Keeps doc changes version encoding h =
    rw (update-all doc changes version encoding)
      (elim (Option-cases (apply_all changes doc.content doc.line_index encoding)) [
        | inl panics ↦ rw (panics, and_then) tt
        | inr ((content, index), e) ↦
            rw (e, and_then)
              (
                apply_all-index changes doc.content content doc.line_index index encoding h e,
                refl,
                refl,
                refl,
              )
      ])

update-append :
    (doc : TextDocument) (changes more : List DocumentChange) (version later : ℕ)
    (encoding : PositionEncoding)
    → update doc (changes ++ more) later encoding
      ≡ and_then (update doc changes version encoding) (λ next. update next more later encoding)
update-append doc changes more version later encoding =
    rw
      (
        update-all doc (changes ++ more) later encoding,
        update-all doc changes version encoding,
        apply_all-append changes more doc.content doc.line_index encoding,
      )
      (elim (Option-cases (apply_all changes doc.content doc.line_index encoding)) [
        | inl panics ↦ rw (panics, and_then) refl
        | inr ((content, index), e) ↦
            rw (e, and_then)
              (sym (update-all (updated doc version (content, index)) more later encoding))
      ])

-- Where the index of a document is that of its content: to update with a list of changes and then with
-- another is to update with both lists in a row. One change is applied to the content, by the index of
-- the content, and none changes the version only. The index stays that of the content, the version is the
-- new one, the path and the kind stay.
pub update_lem :
    (doc : TextDocument) (changes more : List DocumentChange) (change : DocumentChange)
    (version later : ℕ) (encoding : PositionEncoding)
    → IsIndexed doc
    → (update doc (changes ++ more) later encoding
        ≡ and_then (update doc changes version encoding) (λ next. update next more later encoding))
      × (update doc (change ∷ []) version encoding
          ≡ and_then
              (apply change doc.content (from_text doc.content) encoding)
              (λ content. some (updated doc version (content, from_text content))))
      × (update doc [] version encoding ≡ some (record doc { version = version }))
      × Keeps doc version (update doc changes version encoding)
unfolding update
update_lem doc changes more change version later encoding h = (
  update-append doc changes more version later encoding,
  update-all doc (change ∷ []) version encoding
      ∙ rw h (elim (Option-cases (apply change doc.content (from_text doc.content) encoding)) [
        | inl panics ↦ rw (panics, and_then) refl
        | inr (content, e) ↦ rw (e, and_then) refl
      ]),
  refl,
  update-Keeps doc changes version encoding h,
)

-- In a text shorter than 4 GiB, a change whose range is that of two ends of parts of the text, in
-- UTF-8, replaces the part between them.
pub apply_splice :
    (before old after new_text : Text)
    → byte_len (before ++ (old ++ after)) ≤ u32_max
    → let content = before ++ (old ++ after) in
      let index = from_text content in
      apply
        (record {
          range = some (record {
            start = to_line_col index (byte_len before);
            end = to_line_col index (byte_len before + byte_len old);
          });
          content = new_text;
        })
        content
        index
        utf8
      ≡ some (before ++ (new_text ++ after))
unfolding apply
apply_splice before old after new_text small =
    let content = before ++ (old ++ after) in
    let whole = byte_len-append before (old ++ after) in
    let rest = byte_len-append old after in
    let first = offset-to_line_col content (byte_len before) small (omega (arith, whole)) in
    let second =
      offset-to_line_col content (byte_len before + byte_len old) small
        (omega (arith, whole, rest)) in
    let tail = slice_from-append (before ++ old) after in
    let cut_end : is_char_boundary content (byte_len before + byte_len old) ≡ true =
      rw (byte_len-append before old, append_assoc before old after) at
        (boundary-append (before ++ old) after) in
    rw
      (
        first,
        second,
        boundary-append before (old ++ after),
        cut_end,
        slice_to-append before (old ++ after),
      )
      (ap (λ (t : Text). some (before ++ (new_text ++ t)))
        (rw (byte_len-append before old, append_assoc before old after) at tail))
