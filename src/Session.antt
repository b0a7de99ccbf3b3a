-- ===== src/Session.antt =====
-- The handlers that change files (src/mcp/fs/core.rs, src/mcp/fs/text_editing.rs and
-- src/mcp/fs/file_ops.rs), over the files, the undo history and the views of the client. A file stands
-- under the key of its lock. Writing and removing are those of the layer below, which may fail at any
-- call and are parameters, with a number for each call.
use octofs.Prelude.{
  Result, ok, err, ℕ, ◌+◌, ◌*◌, Bool, true, false, Option, none, some, List, [], ◌∷◌, ltb,
  if◌then◌else◌, not, length,
}
use octofs.Text.{Bytes, is_empty}
use octofs.Maps.{remove}
use octofs.Editable.{EditableContent, EditError, from_raw, normalized, rendered}
use octofs.LineHash.{LineId}
use octofs.History.{HistoryStore, Snapshot, max_history_total_bytes, push, pop}
use octofs.Delta.{ViewCache, note_write, note_create}
use octofs.MultiEdit.{Disk, File, CommitResult, committed, restored, rollback_failed, write_files}
use octofs.Transaction.{TransactionError, staged_files, record_transaction_history, note_writes}
use octofs.LineHash.Endpoint.{Value}
use octofs.Extract.{ExtractError, extract_lines}
use octofs.StrReplace.{Edit, Outcome, edited_as, several, failed, endless, exact_stages}
use octofs.Batch.Handler.{
  OperationValue, BatchFailure, empty_operations, too_many, max_operations, batch_edit,
}
pub mod Undo
pub mod Reach
pub mod Transactions

pub record State : Type 0 where
  pub disk : Disk
  pub history : HistoryStore
  pub views : ViewCache
  -- the calls of the layer below, so far
  pub calls : ℕ

pub data Answer : Type 0 where
  done : Answer
  file_not_found file_exists write_failed remove_failed no_history no_directories : Answer
  found_several : List LineId → Answer
  edit_failed : EditError → Answer
  refused : BatchFailure → Answer
  not_extracted : ExtractError → Answer
  not_staged : TransactionError → Answer
  not_committed : CommitResult → Answer
  -- what no exact stage answers goes on to the fuzzy one
  not_exact : Answer
  -- the search for the positions does not end
  no_answer : Answer

-- `save_file_history`
unfoldable pub save_file_history : Bytes → State → State
unfolding push
save_file_history key s = elim (s.disk key) [
  | none ↦ s
  | some content ↦ record s { history = push s.history key (some content) max_history_total_bytes }
]

-- `delta::forget`
abbrev pub forget : Bytes → State → State
forget key s = record s { views = remove key s.views }

-- `target_content`, empty where there is no file
abbrev pub content_or_empty : Option Bytes → Bytes
content_or_empty none = []
content_or_empty (some content) = content

module _ (atomic_write : ℕ → Bytes → Bytes → Disk → Bool × Disk)
    (remove_file : ℕ → Bytes → Disk → Bool × Disk) where
  abbrev pub write : Bytes → Bytes → State → Bool × State
  write key content s =
      let (written, disk) = atomic_write s.calls key content s.disk in
      (written, record s { disk = disk; calls = s.calls + 1 })

  -- The history, the write and the views, with which each edit ends; `before` and `after` are what the
  -- views are told.
  unfoldable pub publish_with : Bytes → EditableContent → Bytes → Bytes → State → Answer × State
  unfolding save_file_history rendered note_write
  publish_with key edited before after s =
      let (written, saved) = write key (rendered edited) (save_file_history key s) in
      if written
      then (done, record saved { views = note_write saved.views key before after })
      else (write_failed, saved)

  abbrev pub publish : Bytes → EditableContent → EditableContent → State → Answer × State
  publish key original edited s =
      publish_with key edited (normalized original) (normalized edited) s

  abbrev pub publish_text : Bytes → Bytes → EditableContent → State → Answer × State
  publish_text key target edited s = publish_with key edited target (rendered edited) s

  abbrev pub answer_outcome : Bytes → EditableContent → Option Outcome → State → Answer × State
  answer_outcome key original none s = (not_exact, s)
  answer_outcome key original (some (edited_as edited)) s = publish key original edited s
  answer_outcome key original (some (several ids)) s = (found_several ids, s)
  answer_outcome key original (some (failed e)) s = (edit_failed e, save_file_history key s)
  answer_outcome key original (some endless) s = (no_answer, s)

  abbrev pub answer_batch :
      Bytes → EditableContent → Result BatchFailure EditableContent → State → Answer × State
  answer_batch key original (err e) s = (refused e, s)
  answer_batch key original (ok edited) s = publish key original edited s

  module _ (line_hash : Bytes → Bytes) where
    unfoldable pub str_replace : Bytes → Bytes → Bytes → Bool → State → Answer × State
    unfolding exact_stages from_raw publish_with save_file_history
    str_replace key old_text new_text all s = elim (s.disk key) [
      | none ↦ (file_not_found, s)
      | some raw ↦
          answer_outcome key (from_raw raw) (exact_stages line_hash raw old_text new_text all) s
    ]

    unfoldable pub batch_edit_file : Bytes → List OperationValue → State → Answer × State
    unfolding batch_edit from_raw publish_with
    batch_edit_file key operations s =
        if is_empty operations
        then (refused empty_operations, s)
        else if ltb max_operations (length operations)
        then (refused (too_many (length operations)), s)
        else elim (s.disk key) [
          | none ↦ (file_not_found, s)
          | some raw ↦ answer_batch key (from_raw raw) (batch_edit line_hash raw operations) s
        ]

  abbrev pub answer_extract :
      Bytes → Bytes → Result ExtractError EditableContent → State → Answer × State
  answer_extract key target (err e) s = (not_extracted e, s)
  answer_extract key target (ok edited) s = publish_text key target edited s

  module _ (line_hash : Bytes → Bytes) where
    -- The directories above the target are there.
    unfoldable pub extract_into :
        Bytes → Bytes → Option Value → Option Value → Option Value → State → Answer × State
    unfolding extract_lines publish_with rendered
    extract_into from_key key from_start from_end append_line s = elim (s.disk from_key) [
      | none ↦ (file_not_found, s)
      | some source ↦
          let target = content_or_empty (s.disk key) in
          answer_extract key target
            (extract_lines line_hash from_start from_end append_line source target) s
    ]

  -- The calls are numbered past those that the commit and its rollback may make.
  abbrev pub finish_commit : List File → CommitResult × Disk → State → Answer × State
  finish_commit files (committed, disk) s = (
    done,
    record s {
      disk = disk;
      history = record_transaction_history files s.history;
      views = note_writes files s.views;
      calls = s.calls + 2 * length files;
    },
  )
  finish_commit files (restored index, disk) s =
      (not_committed (restored index), record s { disk = disk; calls = s.calls + 2 * length files })
  finish_commit files (rollback_failed index keys, disk) s = (
    not_committed (rollback_failed index keys),
    record s { disk = disk; calls = s.calls + 2 * length files },
  )

  abbrev pub answer_staged : Result TransactionError (List File) → State → Answer × State
  answer_staged (err e) s = (not_staged e, s)
  answer_staged (ok files) s =
      finish_commit files (write_files atomic_write s.calls [] files s.disk) s

  module _ (line_hash : Bytes → Bytes) where
    unfoldable pub execute_edits : List (Bytes × Edit) → State → Answer × State
    unfolding staged_files write_files record_transaction_history note_writes
    execute_edits steps s = answer_staged (staged_files line_hash s.disk steps) s

  abbrev pub remove_at : Bytes → State → Bool × State
  remove_at key s =
      let (removed, disk) = remove_file s.calls key s.disk in
      (removed, record s { disk = disk; calls = s.calls + 1 })

  abbrev pub delete_found : Bytes → Bool × State → Answer × State
  delete_found key (true, after) = (done, forget key after)
  delete_found key (false, after) = (remove_failed, after)

  unfoldable pub delete_file : Bytes → State → Answer × State
  unfolding save_file_history remove
  delete_file key s = elim (s.disk key) [
    | none ↦ (file_not_found, s)
    | some content ↦ delete_found key (remove_at key (save_file_history key s))
  ]

  -- `make_parents` says whether the directories above the file could be made.
  unfoldable pub create_file : (Bytes → Bool) → Bytes → Bytes → State → Answer × State
  unfolding note_create
  create_file make_parents key content s = elim (s.disk key) [
    | some old ↦ (file_exists, s)
    | none ↦
        let (written, after) = write key content s in
        if not (make_parents key)
        then (no_directories, s)
        else if written
        then (done, record after { views = note_create after.views key content })
        else (write_failed, after)
  ]

  abbrev pub restore_snapshot : Bytes → Option Snapshot → State → Answer × State
  restore_snapshot key none s = (no_history, s)
  restore_snapshot key (some (some content)) s =
      let (written, after) = write key content s in
      if written then (done, forget key after) else (write_failed, after)
  restore_snapshot key (some none) s =
      let (removed, after) = remove_at key s in
      if removed then (done, forget key after) else (remove_failed, after)

  unfoldable pub undo_edit : Bytes → State → Answer × State
  unfolding pop remove
  undo_edit key s =
      let (history, previous) = pop s.history key in
      restore_snapshot key previous (record s { history = history })
