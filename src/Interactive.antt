-- ===== src/Interactive.antt =====
-- cmd/interactive/main.go: the command that starts a node and lets an operator speak to it. A text
-- is the list of its code points. `Words` has what the command uses of package strings, `Repl` the
-- loop over the operator's lines, `Trust` what the node loads from its files.
pub mod Words
pub mod Csv
pub mod Repl
pub mod Trust
