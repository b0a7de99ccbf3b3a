-- ===== src/Lib.antt =====
-- octofs is a server of file tools for language models: it views files with an id for each line,
-- edits them by text or by line id, undoes edits, and runs commands. What is modelled here is the
-- logic between the protocol and the file system.
--
-- Files, and the code that each is about (paths from the repository's root):
-- * Text, the functions of the Rust standard library on strings that the code calls, over UTF-8
--   bytes.
-- * LineHash (src/utils/line_hash.rs): `verify_line_id`, the relocation hints of its errors and the
--   resolution of line indices. The hash of a line is a function of the octolib crate, which is not
--   in the repository: it is the parameter `line_hash` of the definitions. LineHash/Endpoint:
--   `parse_endpoint` over the code points of a JSON string.
-- * Editable (src/mcp/fs/text_editing.rs): `EditableContent`, a file as lines that keep their own
--   terminator, with all its methods. `raw_lines` in Editable/Content is an independent description
--   of what `from_raw` computes.
-- * Batch (src/mcp/fs/text_editing.rs): the operations of `batch_edit`. Batch/Targets has the parsing and
--   the resolution of their targets, Batch the conflicts and the application in two phases;
--   Batch/Duplicates the checks of repeated lines, and
--   Batch/Handler puts them together as `batch_edit_spec` does, from the raw text to the edited content,
--   and Batch/Handler/Meaning says what the values of a call ask for.
--   Batch/Simultaneous says what operations on one original mean together. Differences that the source
--   keeps as signed numbers are kept as what is added and what is removed.
-- * MultiEdit (src/mcp/fs/multi_edit.rs): the writes of `commit` and its rollback with `restore`, over
--   a disk that is a function from keys to contents. `atomic_write` is a parameter that may fail at any
--   call; MultiEdit/Rollback states what is asked of it in `IsWrite`.
-- * Transaction (src/mcp/fs/multi_edit.rs): `execute_edits`, which stages the edits of a call in memory
--   and commits the files. The `BTreeMap`s are lists in the order of the keys.
-- * Delta (src/mcp/fs/delta.rs): the form in which views and edits compare texts, and the cache of what
--   the client has seen, which a write keeps only where it was current.
-- * StrReplace (src/mcp/fs/text_editing.rs, src/mcp/fs/multi_edit.rs): the replacement of exact texts,
--   by `str_replace_spec` up to its fuzzy stage and by `replace` in a transaction. StrReplace/Steps and
--   StrReplace/Replaces are about one occurrence and about all of them, StrReplace/Terminators about the
--   ends of the lines.
-- * Remote (src/mcp/fs/remote.rs): `PathSource`, the parser of `ssh://` URLs, their display, and the
--   resolution of paths under a working directory. The variable USER of the environment is a parameter.
-- * History (src/mcp/fs/core.rs): `HistoryStore`, the snapshots behind `undo_edit`. The hash map is
--   the association list of Maps.
-- * View (src/mcp/fs/core.rs): `resolve_view_range`, the lines that a view shows.
-- * Auth (src/http_auth.rs): the token of the HTTP transport, the bind policy and the bearer check. A
--   token is a text of code points. The environment, whether an address is a loopback, and
--   `HeaderValue::to_str`, which reads a header of ASCII only, are parameters.
-- * Extract (src/mcp/fs/core.rs): `execute_extract_lines` from its parameters and the two texts to the
--   edited target. Extract/Places says what the parameters name.
-- * Session (src/mcp/fs/core.rs, src/mcp/fs/text_editing.rs, src/mcp/fs/file_ops.rs): the handlers that
--   change files, over a state of the files, the undo history and the view cache. A file stands
--   under the key of its lock, which for a local file is its canonical path. `atomic_write` and
--   `io_remove_file` are parameters that may fail at any call. Session/Reach has the handlers as the
--   steps of a relation, with changes of the files by other programs in between.
-- * Tests, concrete runs, and each theorem at a concrete input.
--
-- State is passed explicitly: an operation takes the record of its component and returns the new
-- one. A `Result` of the source is a `Result` here, its error a value with the payload that the
-- message shows. Numbers are natural numbers; where the source's machine width shows (the negation
-- of the least i64, the bounds of `parse`) it is written out. All loops are structural recursions
-- but that of `find_all_positions`, which runs on a number of rounds: one more than the content has
-- bytes, which is enough for every text that is not empty.
--
-- Not modelled: the protocol, the transports, the input and output on files, SFTP sessions and
-- processes, the locks of the files and of the stores (each handler is one step), the fuzzy stage of
-- `str_replace_spec`, the diffs and numbered lines that the answers show, the refusal of an answer that
-- is too large, and the wording of messages. In MultiEdit the permissions of a file are left out.
pub mod Prelude
pub mod Text
pub mod Editable
pub mod Batch
pub mod Delta
pub mod LineHash
pub mod Remote
pub mod StrReplace
pub mod Session
pub mod Extract
pub mod Transaction
pub mod View
pub mod Auth
pub mod Maps
pub mod History
pub mod MultiEdit
pub mod Tests
