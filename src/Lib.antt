-- ===== src/Lib.antt =====
-- A model of django-language-server: the text of a document, its positions, the templates in it and
-- their tree.
--
-- A client sends edits with positions (line and column). The server keeps each document with the
-- index of its line starts and splices the edits in. A template is cut into tokens, the tokens are
-- parsed into a flat list of nodes, and the nodes are arranged by a stack machine into a tree of
-- regions, which the checks and the editor features read. Which tags a load statement makes available
-- decides the tree, and the tree decides which load statements take effect, so the two are found
-- together. The settings of a Django project are read off its Python code without running it: where
-- the code branches, a decision diagram says under which choices a value is reached. A worker reloads
-- a project in the background.
--
--   Base            lists, Boolean tests, results and the binary search of the standard library (Search);
--                   `Base.Text` is `str`: a list of Unicode scalar values with byte offsets that
--                   count their UTF-8 width
--   Source.Position crates/djls-source/src/position.rs: `Offset`, `LineCol`, `Range`, `Span`
--   Source.Line     crates/djls-source/src/line.rs and protocol.rs: line endings (Ending), the index
--                   and its positions (Index)
--   Server.Document crates/djls-server/src/document.rs: a document and its edits
--   Templates       crates/djls-templates/src: tokens.rs (Tokens), lexer.rs (Lexer), quotes.rs
--                   (Quotes), bits.rs and filters.rs (Filters), nodelist.rs and error.rs (Nodes),
--                   parser.rs (Parser)
--   Semantic        crates/djls-semantic/src/structure: tree.rs (Tree) and builder.rs (Builder, with
--                   its state in BuilderState, and its frames, the lookup of grammar.rs and its
--                   operations in Frames and Operations);
--                   what is read off the tree in Views: folding.rs (Folding), active.rs (Active);
--                   crates/djls-semantic/src/validation/if_expressions.rs (IfExpression);
--                   crates/djls-semantic/src/scoping.rs and scoping: loads.rs (Scoping.Loads),
--                   symbols.rs (Scoping.Symbols), the cache of facts (Scoping.Cache) and the passes that
--                   find the load statements (Scoping.Discovery);
--                   crates/djls-semantic/src/structure/opaque.rs (Opaque)
--   Conf            crates/djls-conf/src/diagnostics.rs: the severity of diagnostics
--   Python          crates/djls-project/src/python: what names a source (Identity), module names
--                   (Name, name.rs), the truth of an expression (Truthiness,
--                   evaluation/truthiness.rs), and the decision diagrams of
--                   evaluation/constraints.rs (Constraints) with their operations (Canonical, Domain)
--                   and their meaning as sets of worlds (Worlds, Meaning)
--   Server.Reload   crates/djls-server/src/reload.rs: the pending work of a project and its worker, as
--                   steps that interleave
--
-- A definition has the name of the function it models, in snake case. A method takes and gives back
-- the state; a method that can fail gives `Result` or an option. A `Vec` is a list in its order, but
-- for the stack of the tree builder, whose last frame is the head of the list. Numbers are natural
-- numbers: a `u32` keeps its clamping, its saturation or its wrap-around written out, and a `usize`
-- is taken not to overflow, since it counts bytes or tokens of one document. A slice at an offset
-- that is no character boundary panics in the source: a change of a document is then a missing result,
-- and elsewhere the theorems say where offsets are boundaries.
--
-- A loop that is not structural runs on fuel: as many rounds as the text has bytes (the lexer and the
-- splits at a delimiter), the list has tokens (the parsers), the tree has regions (the walks of a
-- tree), two diagrams are deep together (their union and intersection) or the list has elements (the
-- binary search). Every round consumes at least one, goes to a region with a larger number or to
-- smaller diagrams, or takes at least one off the size of the range that is searched, so the fuel is
-- never short: the theorems on the whole run hold without a hypothesis on it, and would fail if a
-- loop stopped early. The passes that find the load statements have the limit of the source. A failed
-- assertion, also one of debug builds only, panics and is a missing result.
--
-- The crate memchr is a parameter: a record of the two searches that the lexer calls with the laws
-- that its documentation gives, which a plain search meets (Templates.Memchr). The theorems on the
-- lexer ask that the source is shorter than 4 GiB, the range of a `u32` offset. The letters and digits
-- of Unicode are a parameter too (Python.Name). What the libraries of a project define, and how a tag is
-- classified under given load statements, are arguments of the definitions in Scoping.
--
-- Not modelled: the evaluator of Python on its syntax trees, projects, settings and models, the
-- classification of tags, the editor features, the session, the database and the command line, which
-- read the file system, a parser that is not in the repository or the incremental database.
pub mod Base
pub mod Source
pub mod Server
pub mod Templates
pub mod Semantic
pub mod Conf
pub mod Python
