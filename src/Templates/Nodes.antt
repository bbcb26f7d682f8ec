-- ===== src/Templates/Nodes.antt =====
-- crates/djls-templates/src/nodelist.rs and error.rs, and the errors of parser.rs.
use django_language_server.Base.{ℕ, leb, max, if◌then◌else◌, Option, none, some, List, u32_max}
use django_language_server.Base.Text.{Text, byte_len, text as literal}
use django_language_server.Source.Position.{Span, expand}
use django_language_server.Templates.Tokens.{delimiter_length}
use django_language_server.Templates.Filters.{TagBit, Filter}

pub data StreamError : Type 0 where
  at_beginning before_start at_end empty invalid_access : StreamError

pub data ParseError : Type 0 where
  unexpected_token_kind : (position : ℕ) (context : Text) → ParseError
  empty_tag : (position : ℕ) → ParseError
  malformed_construct : (position : ℕ) (opener closer content : Text) → ParseError
  malformed_filter_expression : (position : ℕ) (content : Text) → ParseError
  stream_error : StreamError → ParseError

pub data Node : Type 0 where
  tag : (name : Text) (name_span : Span) (bits : List TagBit) (span : Span) → Node
  comment : (content : Text) (span : Span) → Node
  text : (span : Span) → Node
  variable : (var : Text) (var_span : Span) (filters : List Filter) (span : Span) → Node
  error : (span full_span : Span) (error : ParseError) → Node

-- `Node::full_span`.
abbrev pub node_full_span : Node → Span
node_full_span (Node.tag name name_span bits span) = expand span delimiter_length delimiter_length
node_full_span (Node.comment content span) = expand span delimiter_length delimiter_length
node_full_span (Node.text span) = span
node_full_span (Node.variable var var_span filters span) =
    expand span delimiter_length delimiter_length
node_full_span (Node.error span full_span e) = full_span

pub data TemplateError : Type 0 where
  parser : ParseError → TemplateError
  io config : Text → TemplateError

-- `TemplateError::diagnostic_code`.
unfoldable pub diagnostic_code : TemplateError → Text
diagnostic_code (parser e) = literal "T100"
diagnostic_code (io m) = literal "T900"
diagnostic_code (config m) = literal "T901"

-- `u32::try_from` on the position and on the length.
abbrev pub try_span : ℕ → ℕ → Option (ℕ × ℕ)
try_span position length =
    if leb position u32_max
    then if leb length u32_max then some (position, length) else none
    else none

-- `TemplateError::primary_span`.
unfoldable pub primary_span : TemplateError → Option (ℕ × ℕ)
primary_span (parser (malformed_construct position opener closer content)) =
    try_span position (max (byte_len opener) 1)
primary_span (parser (unexpected_token_kind position context)) = try_span position 1
primary_span (parser (empty_tag position)) = try_span position 1
primary_span (parser (malformed_filter_expression position content)) = try_span position 1
primary_span (parser (stream_error kind)) = none
primary_span (io m) = none
primary_span (config m) = none
