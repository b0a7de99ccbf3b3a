-- ===== src/Session/Reach.antt =====
-- What holds of the undo history in every state that the handlers reach.
use octofs.Prelude.{
  ◌∷◌, [], Result, ok, err, ℕ, ◌≡◌, refl, sym, subst, Bool, true, false, Option, none, some, inl,
  inr, List, Bool-cases, Option-cases, ltb, length, arith,
}
use octofs.Text.{bytes_eq, Bytes, is_empty}
use octofs.Editable.{EditableContent, from_raw, rendered}
use octofs.History.{push, HistoryStore, pop, empty, Snapshot, max_history_total_bytes}
use octofs.History.Budget.{IsConsistent, push-IsConsistent}
use octofs.History.Bounds.{pop-IsConsistent}
use octofs.Maps.{total, lookup}
use octofs.MultiEdit.{Disk, File, CommitResult, committed, restored, rollback_failed, write_files}
use octofs.Transaction.{TransactionError, staged_files, record_transaction_history}
use octofs.StrReplace.{Edit, Outcome, edited_as, several, failed, endless, exact_stages}
use octofs.Batch.Handler.{OperationValue, BatchFailure, batch_edit, max_operations}
use octofs.LineHash.Endpoint.{Value}
use octofs.Extract.{ExtractError, extract_lines}
use octofs.Session.{
  finish_commit, answer_staged, execute_edits, content_or_empty, answer_extract, publish_with,
  extract_into, State, save_file_history, answer_outcome, str_replace, answer_batch,
  batch_edit_file, remove_at, delete_found, delete_file, create_file, undo_edit, restore_snapshot,
}

empty-IsConsistent : IsConsistent empty
empty-IsConsistent =
    unfold total lookup in
    record { unique = tt; counted = refl; histories = tt; recorded = λ k. omega arith }

module _ (atomic_write : ℕ → Bytes → Bytes → Disk → Bool × Disk)
    (remove_file : ℕ → Bytes → Disk → Bool × Disk) (line_hash : Bytes → Bytes) where
  -- One call of a handler, or a change of the files by another program.
  pub data Step : State → State → Type 0 where
    replaces :
        (key old_text new_text : Bytes) (all : Bool) {s : State}
        → Step s (str_replace atomic_write remove_file line_hash key old_text new_text all s).1
    edits :
        (key : Bytes) (operations : List OperationValue) {s : State}
        → Step s (batch_edit_file atomic_write remove_file line_hash key operations s).1
    extracts :
        (from_key key : Bytes) (from_start from_end append_line : Option Value) {s : State}
        → Step s
            (extract_into atomic_write remove_file line_hash from_key key from_start from_end
              append_line s).1
    transacts :
        (calls : List (Bytes × Edit)) {s : State}
        → Step s (execute_edits atomic_write remove_file line_hash calls s).1
    deletes : (key : Bytes) {s : State} → Step s (delete_file atomic_write remove_file key s).1
    creates :
        (make_parents : Bytes → Bool) (key content : Bytes) {s : State}
        → Step s (create_file atomic_write remove_file make_parents key content s).1
    undoes : (key : Bytes) {s : State} → Step s (undo_edit atomic_write remove_file key s).1
    changes : (disk : Disk) {s : State} → Step s (record s { disk = disk })

  -- The states behind a start without a history.
  pub data Reachable : State → Type 0 where
    starts : {s : State} → s.history ≡ empty → Reachable s
    steps : {s t : State} → Reachable s → Step s t → Reachable t

  abbrev Good : State → Type 0
  Good s = IsConsistent s.history

  Good-save : (key : Bytes) (s : State) → Good s → Good (save_file_history key s)
  unfolding save_file_history
  Good-save key s g = elim (Option-cases (s.disk key)) [
    | inl e ↦ rw (save_file_history, e) g
    | inr (raw, e) ↦
        rw (save_file_history, e)
          (push-IsConsistent s.history g key (some raw) max_history_total_bytes)
  ]

  Good-publish :
      (key : Bytes) (edited : EditableContent) (before after : Bytes) (s : State)
      → Good s
      → Good (publish_with atomic_write remove_file key edited before after s).1
  unfolding publish_with
  Good-publish key edited before after s g =
      let saved = save_file_history key s in
      let written = atomic_write saved.calls key (rendered edited) saved.disk in
      elim (Bool-cases written.0) [
        | inl h ↦ rw h (Good-save key s g)
        | inr h ↦ rw h (Good-save key s g)
      ]

  Good-outcome :
      (key : Bytes) (original : EditableContent) (o : Option Outcome) (s : State)
      → Good s
      → Good (answer_outcome atomic_write remove_file key original o s).1
  Good-outcome key original none s g = g
  Good-outcome key original (some (edited_as edited)) s g = Good-publish key edited _ _ s g
  Good-outcome key original (some (several ids)) s g = g
  Good-outcome key original (some (failed e)) s g = Good-save key s g
  Good-outcome key original (some endless) s g = g

  Good-answer :
      (key : Bytes) (original : EditableContent) (r : Result BatchFailure EditableContent)
      (s : State)
      → Good s
      → Good (answer_batch atomic_write remove_file key original r s).1
  Good-answer key original (err e) s g = g
  Good-answer key original (ok edited) s g = Good-publish key edited _ _ s g

  Good-str_replace :
      (key old_text new_text : Bytes) (all : Bool) (s : State)
      → Good s
      → Good (str_replace atomic_write remove_file line_hash key old_text new_text all s).1
  unfolding str_replace
  Good-str_replace key old_text new_text all s g = elim (Option-cases (s.disk key)) [
    | inl e ↦ rw (str_replace, e) g
    | inr (raw, e) ↦
        rw (str_replace, e)
          (Good-outcome key (from_raw raw) (exact_stages line_hash raw old_text new_text all) s g)
  ]

  Good-batch_edit :
      (key : Bytes) (operations : List OperationValue) (s : State)
      → Good s
      → Good (batch_edit_file atomic_write remove_file line_hash key operations s).1
  unfolding batch_edit_file
  Good-batch_edit key operations s g = elim (Bool-cases (is_empty operations)) [
    | inl h ↦ rw h g
    | inr h ↦ elim (Bool-cases (ltb max_operations (length operations))) [
      | inl k ↦ rw (h, k) g
      | inr k ↦ elim (Option-cases (s.disk key)) [
        | inl e ↦ rw (h, k, e) g
        | inr (raw, e) ↦
            rw (h, k, e) (Good-answer key (from_raw raw) (batch_edit line_hash raw operations) s g)
      ]
    ]
  ]

  Good-extract :
      (key target : Bytes) (r : Result ExtractError EditableContent) (s : State)
      → Good s
      → Good (answer_extract atomic_write remove_file key target r s).1
  Good-extract key target (err e) s g = g
  Good-extract key target (ok edited) s g = Good-publish key edited _ _ s g

  Good-extract_into :
      (from_key key : Bytes) (from_start from_end append_line : Option Value) (s : State)
      → Good s
      → Good
          (extract_into atomic_write remove_file line_hash from_key key from_start from_end
            append_line s).1
  unfolding extract_into
  Good-extract_into from_key key from_start from_end append_line s g =
      elim (Option-cases (s.disk from_key)) [
        | inl e ↦ rw (extract_into, e) g
        | inr (source, e) ↦
            rw (extract_into, e)
              (Good-extract key (content_or_empty (s.disk key))
                (extract_lines line_hash from_start from_end append_line source
                  (content_or_empty (s.disk key)))
                s g)
      ]

  Good-recorded :
      (files : List File) (history : HistoryStore)
      → IsConsistent history
      → IsConsistent (record_transaction_history files history)
  unfolding record_transaction_history
  Good-recorded [] history g = g
  Good-recorded (f ∷ files) history g = elim (Bool-cases (bytes_eq f.before f.after)) [
    | inl e ↦ rw (record_transaction_history, e) (Good-recorded files history g)
    | inr e ↦
        rw (record_transaction_history, e)
          (Good-recorded files (push history f.key (some f.before) max_history_total_bytes)
            (push-IsConsistent history g f.key (some f.before) max_history_total_bytes))
  ]

  Good-finish :
      (files : List File) (r : CommitResult × Disk) (s : State)
      → Good s
      → Good (finish_commit atomic_write remove_file files r s).1
  Good-finish files (committed, disk) s g = Good-recorded files s.history g
  Good-finish files (restored index, disk) s g = g
  Good-finish files (rollback_failed index keys, disk) s g = g

  Good-staged :
      (r : Result TransactionError (List File)) (s : State)
      → Good s
      → Good (answer_staged atomic_write remove_file r s).1
  Good-staged (err e) s g = g
  Good-staged (ok files) s g =
      Good-finish files (write_files atomic_write s.calls [] files s.disk) s g

  Good-execute_edits :
      (calls : List (Bytes × Edit)) (s : State)
      → Good s
      → Good (execute_edits atomic_write remove_file line_hash calls s).1
  unfolding execute_edits
  Good-execute_edits calls s g = Good-staged (staged_files line_hash s.disk calls) s g

  Good-deleted :
      (key : Bytes) (r : Bool × State)
      → Good r.1
      → Good (delete_found atomic_write remove_file key r).1
  Good-deleted key (true, after) g = g
  Good-deleted key (false, after) g = g

  Good-delete_file :
      (key : Bytes) (s : State) → Good s → Good (delete_file atomic_write remove_file key s).1
  unfolding delete_file
  Good-delete_file key s g = elim (Option-cases (s.disk key)) [
    | inl e ↦ rw (delete_file, e) g
    | inr (raw, e) ↦
        rw (delete_file, e)
          (Good-deleted key (remove_at atomic_write remove_file key (save_file_history key s))
            (Good-save key s g))
  ]

  Good-create_file :
      (make_parents : Bytes → Bool) (key content : Bytes) (s : State)
      → Good s
      → Good (create_file atomic_write remove_file make_parents key content s).1
  unfolding create_file
  Good-create_file make_parents key content s g = elim (Option-cases (s.disk key)) [
    | inl e ↦ elim (Bool-cases (make_parents key)) [
      | inl p ↦ elim (Bool-cases (atomic_write s.calls key content s.disk).0) [
        | inl h ↦ rw (create_file, e, p, h) g
        | inr h ↦ rw (create_file, e, p, h) g
      ]
      | inr p ↦ rw (create_file, e, p) g
    ]
    | inr (raw, e) ↦ rw (create_file, e) g
  ]

  Good-restore :
      (key : Bytes) (o : Option Snapshot) (s : State)
      → Good s
      → Good (restore_snapshot atomic_write remove_file key o s).1
  Good-restore key none s g = g
  Good-restore key (some (some content)) s g =
      elim (Bool-cases (atomic_write s.calls key content s.disk).0) [
        | inl h ↦ rw h g
        | inr h ↦ rw h g
      ]
  Good-restore key (some none) s g = elim (Bool-cases (remove_file s.calls key s.disk).0) [
    | inl h ↦ rw h g
    | inr h ↦ rw h g
  ]

  Good-undo_edit :
      (key : Bytes) (s : State) → Good s → Good (undo_edit atomic_write remove_file key s).1
  unfolding undo_edit
  Good-undo_edit key s g =
      Good-restore key (pop s.history key).1 (record s { history = (pop s.history key).0 })
        (pop-IsConsistent s.history key g)

  Good-Step : {s t : State} → Step s t → Good s → Good t
  Good-Step {s} (replaces key old_text new_text all) g =
      Good-str_replace key old_text new_text all s g
  Good-Step {s} (edits key operations) g = Good-batch_edit key operations s g
  Good-Step {s} (extracts from_key key from_start from_end append_line) g =
      Good-extract_into from_key key from_start from_end append_line s g
  Good-Step {s} (transacts calls) g = Good-execute_edits calls s g
  Good-Step {s} (deletes key) g = Good-delete_file key s g
  Good-Step {s} (creates make_parents key content) g = Good-create_file make_parents key content s g
  Good-Step {s} (undoes key) g = Good-undo_edit key s g
  Good-Step {s} (changes disk) g = g

  -- In every state that calls of the handlers reach, with the files changed by other programs in
  -- between, the account of the undo history is right: its bytes are those of the snapshots it holds,
  -- and no file has more than ten.
  pub Reachable-IsConsistent : {s : State} → Reachable s → IsConsistent s.history
  Reachable-IsConsistent (starts e) = subst IsConsistent (sym e) empty-IsConsistent
  Reachable-IsConsistent (steps r t) = Good-Step t (Reachable-IsConsistent r)
