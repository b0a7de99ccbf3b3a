-- ===== src/Transaction.antt =====
-- `execute_edits` of src/mcp/fs/multi_edit.rs: the edits of a call are staged in memory over all the
-- files they name, and the files are then written in one commit.
use octofs.Prelude.{
  Result, ok, err, ◌>>=◌, ℕ, ◌+◌, Bool, true, false, ◌||◌, Option, none, some, List, [], ◌∷◌, ltb,
  ◌==◌, if◌then◌else◌, length, ◌&&◌,
}
use octofs.Text.{Bytes, bytes_eq, is_empty}
use octofs.History.{HistoryStore, push, max_history_total_bytes}
use octofs.Delta.{ViewCache, note_write}
use octofs.MultiEdit.{Disk, File, CommitResult, committed, restored, rollback_failed, write_files}
use octofs.StrReplace.{Edit, ReplaceError, replace_edit}
pub mod Applies
pub mod Sources

pub data TransactionError : Type 0 where
  no_edits : TransactionError
  not_found : ℕ → Bytes → TransactionError
  missing_staged : ℕ → TransactionError
  bad_edit : ℕ → ReplaceError → TransactionError

-- The order of the keys of a `BTreeMap`.
unfoldable pub key_lt : Bytes → Bytes → Bool
key_lt [] [] = false
key_lt [] (y ∷ k) = true
key_lt (x ∷ j) [] = false
key_lt (x ∷ j) (y ∷ k) = ltb x y || (x == y && key_lt j k)

abbrev pub named : List (Bytes × ℕ) → Bytes → Bool
named [] j = false
named ((k, i) ∷ sources) j = bytes_eq k j || named sources j

unfoldable pub insert_in_order : Bytes → ℕ → List (Bytes × ℕ) → List (Bytes × ℕ)
unfolding key_lt
insert_in_order key index [] = (key, index) ∷ []
insert_in_order key index ((k, i) ∷ sources) =
    let rest = insert_in_order key index sources in
    if key_lt key k then (key, index) ∷ (k, i) ∷ sources else (k, i) ∷ rest

-- `sources.entry(key).or_insert((source, index))`
unfoldable pub or_insert : Bytes → ℕ → List (Bytes × ℕ) → List (Bytes × ℕ)
unfolding insert_in_order bytes_eq
or_insert key index sources =
    if named sources key then sources else insert_in_order key index sources

unfoldable pub sources_of : ℕ → List (Bytes × Edit) → List (Bytes × ℕ) → List (Bytes × ℕ)
unfolding or_insert
sources_of index [] sources = sources
sources_of index ((key, edit) ∷ steps) sources =
    sources_of (index + 1) steps (or_insert key index sources)

abbrev pub load_file : Bytes → ℕ → Option Bytes → Result TransactionError File
load_file key index none = err (not_found index key)
load_file key index (some before) =
    ok (record { key = key; first_edit = index; before = before; after = before })

unfoldable pub load_files : Disk → List (Bytes × ℕ) → Result TransactionError (List File)
load_files disk [] = ok []
load_files disk ((key, index) ∷ sources) = load_file key index (disk key) >>= λ file.
    load_files disk sources >>= λ files. ok (file ∷ files)

abbrev pub put_first :
    List File → Result TransactionError File → Result TransactionError (List File)
put_first files r = r >>= λ g. ok (g ∷ files)

abbrev pub keep_first :
    File → Result TransactionError (List File) → Result TransactionError (List File)
keep_first f r = r >>= λ others. ok (f ∷ others)

module _ (line_hash : Bytes → Bytes) where
  abbrev pub stage_file : ℕ → File → Result ReplaceError Bytes → Result TransactionError File
  stage_file index file (err e) = err (bad_edit index e)
  stage_file index file (ok content) = ok (record file { after = content })

  -- `files.get_mut(&key)`, and its new content
  unfoldable pub stage_step : ℕ → Bytes → Edit → List File → Result TransactionError (List File)
  unfolding replace_edit bytes_eq
  stage_step index key edit [] = err (missing_staged index)
  stage_step index key edit (f ∷ files) =
      let rest = stage_step index key edit files in
      if bytes_eq f.key key
      then put_first files (stage_file index f (replace_edit line_hash f.after edit))
      else keep_first f rest

  unfoldable pub stage : ℕ → List (Bytes × Edit) → List File → Result TransactionError (List File)
  unfolding stage_step
  stage index [] files = ok files
  stage index ((key, edit) ∷ steps) files =
      stage_step index key edit files >>= λ staged. stage (index + 1) steps staged

  -- The files as they are to be written.
  unfoldable pub staged_files : Disk → List (Bytes × Edit) → Result TransactionError (List File)
  unfolding sources_of load_files stage
  staged_files disk steps =
      if is_empty steps
      then err no_edits
      else load_files disk (sources_of 0 steps []) >>= λ files. stage 0 steps files

-- The history and the views behind a commit: of the files that changed.
unfoldable pub record_transaction_history : List File → HistoryStore → HistoryStore
unfolding push bytes_eq
record_transaction_history [] history = history
record_transaction_history (f ∷ files) history = record_transaction_history files (
    if bytes_eq f.before f.after
    then history
    else push history f.key (some f.before) max_history_total_bytes)

unfoldable pub note_writes : List File → ViewCache → ViewCache
unfolding note_write bytes_eq
note_writes [] views = views
note_writes (f ∷ files) views =
    note_writes files
      (if bytes_eq f.before f.after then views else note_write views f.key f.before f.after)
