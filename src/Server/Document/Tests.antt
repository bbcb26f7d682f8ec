-- ===== src/Server/Document/Tests.antt =====
-- Runs of crates/djls-server/src/document.rs, and the theorems at inputs that meet their hypotheses.
use django_language_server.Base.{
  ℕ, ◌+◌, ◌≡◌, refl, List, [], ◌∷◌, ◌++◌, Option, none, some, and_then, arith,
}
use django_language_server.Base.Text.{
  Text, text, byte_len, len_utf8, len_utf16, encode, slice, is_ascii, is_char_boundary,
}
use django_language_server.Source.Position.{LineCol}
use django_language_server.Source.Line.Index.{
  utf8, utf16, from_text, offset, column_offset, utf16_loop, to_line_col,
}
use django_language_server.Server.Document.{
  TextDocument, DocumentChange, template, new, apply, updated, update,
}
use django_language_server.Server.Document.Changes.{Keeps, update_lem, apply_splice}

abbrev at : ℕ → ℕ → LineCol
at line column = record { line = line; column = column }

abbrev edit : ℕ → ℕ → ℕ → ℕ → Text → DocumentChange
edit l c l' c' t = record { range = some (record { start = at l c; end = at l' c' }); content = t }

abbrev edits : List DocumentChange
edits = edit 0 0 0 5 (text "1st") ∷ edit 2 0 2 5 (text "3rd") ∷ []

abbrev doc : TextDocument
doc = new (text "t.html") (text "First line\nSecond line\nThird line") 1 template

-- The content after an update.
abbrev content_of : Option TextDocument → Option Text
content_of d = and_then d (λ next. some next.content)

edits_run : content_of (update doc edits 2 utf16) ≡ some (text "1st line\nSecond line\n3rd line")
unfolding update new from_text encode offset column_offset slice len_utf8 is_ascii is_char_boundary
edits_run = refl

-- "Hello 🌍 world": the columns are those of UTF-16.
emoji :
    content_of (
      update
        (new (text "t") (text "Hello " ++ (0x1F30D ∷ text " world")) 1 template)
        (edit 0 9 0 14 (text "Rust") ∷ [])
        2
        utf16)
    ≡ some (text "Hello " ++ (0x1F30D ∷ text " Rust"))
unfolding update new from_text encode offset column_offset slice len_utf8 len_utf16 is_ascii
    is_char_boundary utf16_loop
emoji = refl

-- Inside a character no slice can be cut: a column in UTF-8 that the client miscounts.
inside_character :
    update (new (text "t") (0xE9 ∷ []) 1 template) (edit 0 1 0 1 (text "x") ∷ []) 2 utf8 ≡ none
unfolding update new from_text encode offset column_offset slice len_utf8 is_ascii is_char_boundary
inside_character = refl

update_lem_example :
    (update doc (edits ++ edits) 3 utf16
      ≡ and_then (update doc edits 2 utf16) (λ next. update next edits 3 utf16))
    × (update doc (edit 0 0 0 5 (text "1st") ∷ []) 2 utf16
        ≡ and_then
            (apply (edit 0 0 0 5 (text "1st")) doc.content (from_text doc.content) utf16)
            (λ content. some (updated doc 2 (content, from_text content))))
    × (update doc [] 2 utf16 ≡ some (record doc { version = 2 }))
    × Keeps doc 2 (update doc edits 2 utf16)
update_lem_example =
    update_lem doc edits edits (edit 0 0 0 5 (text "1st")) 2 3 utf16 (unfold new in refl)

abbrev hello : Text
hello = text "hello " ++ (text "world" ++ text "!\n")

apply_splice_example :
    apply
      (record {
        range = some (record {
          start = to_line_col (from_text hello) (byte_len (text "hello "));
          end = to_line_col (from_text hello) (byte_len (text "hello ") + byte_len (text "world"));
        });
        content = text "Rust";
      })
      hello
      (from_text hello)
      utf8
    ≡ some (text "hello " ++ (text "Rust" ++ text "!\n"))
apply_splice_example =
    apply_splice (text "hello ") (text "world") (text "!\n") (text "Rust")
      (unfold len_utf8 in omega arith)
