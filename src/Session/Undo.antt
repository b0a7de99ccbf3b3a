-- ===== src/Session/Undo.antt =====
-- `undo_edit` behind an edit or a deletion gives the file back.
use octofs.Prelude.{
  Result, ok, err, ℕ, ◌≤◌, ◌<◌, ◌≡◌, refl, sym, ap, ◌∙◌, subst, Bool, true, false, Option, none,
  some, inl, inr, List, Bool-cases, Option-cases, ltb, length,
}
use octofs.Text.{Bytes, bytes_eq, is_empty}
use octofs.Text.Equality.{eq_of_bytes_eq}
use octofs.Editable.{EditableContent, from_raw, rendered}
use octofs.History.{push, pop, max_history_total_bytes}
use octofs.History.Budget.{IsConsistent, kept, count}
use octofs.History.Undo.{pop-push}
use octofs.MultiEdit.{Disk}
use octofs.MultiEdit.Rollback.{IsWrite}
use octofs.StrReplace.{Outcome, edited_as, several, failed, endless, exact_stages}
use octofs.Batch.Handler.{OperationValue, BatchFailure, batch_edit, max_operations}
use octofs.LineHash.Endpoint.{Value}
use octofs.Extract.{ExtractError, extract_lines}
use octofs.Session.{
  publish_with, answer_extract, extract_into, content_or_empty, file_not_found, State, Answer, done,
  save_file_history, answer_outcome, str_replace, answer_batch, batch_edit_file, remove_at,
  delete_found, delete_file, undo_edit, restore_snapshot,
}

-- A removal that succeeds leaves no file; no removal changes another file.
pub record IsRemove (remove_file : ℕ → Bytes → Disk → Bool × Disk) : Type 0 where
  pub removes :
      (n : ℕ) (k : Bytes) (d : Disk) → (remove_file n k d).0 ≡ true → (remove_file n k d).1 k ≡ none
  pub only :
      (n : ℕ) (k : Bytes) (d : Disk) (j : Bytes)
      → bytes_eq k j ≡ false
      → (remove_file n k d).1 j ≡ d j

-- The history has room for a snapshot of the file, and has no entry of it left from an undo.
pub record HasRoom (key : Bytes) (s : State) : Type 0 where
  pub consistent : IsConsistent s.history
  pub few : kept key s.history.files < 10
  pub fresh : count key s.history.order ≤ kept key s.history.files

-- What an undo of the file finds: the content before, as the last snapshot, and no other file changed.
pub record IsSaved (key raw : Bytes) (before after : State) : Type 0 where
  pub last : (pop after.history key).1 ≡ some (some raw)
  pub others : (j : Bytes) → bytes_eq key j ≡ false → after.disk j ≡ before.disk j

module _ (atomic_write : ℕ → Bytes → Bytes → Disk → Bool × Disk)
    (remove_file : ℕ → Bytes → Disk → Bool × Disk) (w : IsWrite atomic_write) (key raw : Bytes)
    (s : State) (e : s.disk key ≡ some raw) where
  -- Whether the write of the undo succeeds, and what the undo gives.
  abbrev pub writes_back : State → Bool
  writes_back after = (atomic_write after.calls key raw after.disk).0

  abbrev pub undone : State → Answer × State
  undone after = undo_edit atomic_write remove_file key after

  -- The undo answers that it is done, and each file is as it was.
  abbrev pub Restores : State → Type 0
  Restores after = ((undone after).0 ≡ done) × ((j : Bytes) → (undone after).1.disk j ≡ s.disk j)

  saved :
      save_file_history key s
      ≡ record s { history = push s.history key (some raw) max_history_total_bytes }
  unfolding save_file_history
  saved = rw (save_file_history, e) refl

  module _ (after : State) (v : IsSaved key raw s after)
      (h : (atomic_write after.calls key raw after.disk).0 ≡ true) where
    abbrev popped : State
    popped = record after { history = (pop after.history key).0 }

    undo-restores :
        undo_edit atomic_write remove_file key after
        ≡ restore_snapshot atomic_write remove_file key (some (some raw)) popped
    unfolding undo_edit
    undo-restores = ap (λ o. restore_snapshot atomic_write remove_file key o popped) v.last

    restored_disk : (j : Bytes) → (atomic_write after.calls key raw after.disk).1 j ≡ s.disk j
    restored_disk j = elim (Bool-cases (bytes_eq key j)) [
      | inl k ↦
          subst (λ i. (atomic_write after.calls key raw after.disk).1 i ≡ s.disk i)
            (eq_of_bytes_eq key j k) (w.writes after.calls key raw after.disk h ∙ sym e)
      | inr k ↦ w.only after.calls key raw after.disk j k ∙ v.others j k
    ]

    -- The undo writes the content before, and with that all files are as they were.
    undo_edit-IsSaved : Restores after
    undo_edit-IsSaved = (
      ap (λ r. r.0) undo-restores ∙ rw h refl,
      λ j. ap (λ r. r.1.disk j) undo-restores ∙ rw h (restored_disk j),
    )

  module _ (room : HasRoom key s) where
    last-saved :
        (pop (push s.history key (some raw) max_history_total_bytes) key).1 ≡ some (some raw)
    last-saved =
        pop-push s.history key (some raw) max_history_total_bytes room.consistent room.few
          room.fresh

    -- Of what is left by the history that has the snapshot, and a disk on which only the file differs.
    IsSaved-parts :
        (after : State)
        → after.history ≡ (save_file_history key s).history
        → ((j : Bytes) → bytes_eq key j ≡ false → after.disk j ≡ (save_file_history key s).disk j)
        → IsSaved key raw s after
    IsSaved-parts after h o = record {
      last = ap (λ x. (pop x key).1) (h ∙ ap (λ t. t.history) saved) ∙ last-saved;
      others = λ j k. o j k ∙ ap (λ t. t.disk j) saved;
    }

    IsSaved-publish :
        (edited : EditableContent) (before after : Bytes)
        → IsSaved key raw s (publish_with atomic_write remove_file key edited before after s).1
    unfolding publish_with
    IsSaved-publish edited before after =
        let saved = save_file_history key s in
        let written = atomic_write saved.calls key (rendered edited) saved.disk in
        elim (Bool-cases written.0) [
          | inl h ↦
              IsSaved-parts _ (rw h refl)
                (λ j k. rw h (w.only saved.calls key (rendered edited) saved.disk j k))
          | inr h ↦
              IsSaved-parts _ (rw h refl)
                (λ j k. rw h (w.only saved.calls key (rendered edited) saved.disk j k))
        ]

    deleted :
        delete_file atomic_write remove_file key s
        ≡ delete_found atomic_write remove_file key
            (remove_at atomic_write remove_file key (save_file_history key s))
    unfolding delete_file
    deleted = rw (e, delete_file) refl

    IsSaved-delete :
        IsRemove remove_file → IsSaved key raw s (delete_file atomic_write remove_file key s).1
    unfolding delete_file
    IsSaved-delete r =
        let saved = save_file_history key s in
        let removed = remove_file saved.calls key saved.disk in
        subst (λ t. IsSaved key raw s t.1) (sym deleted)
          (elim (Bool-cases removed.0) [
            | inl h ↦
                IsSaved-parts _ (rw h refl) (λ j k. rw h (r.only saved.calls key saved.disk j k))
            | inr h ↦
                IsSaved-parts _ (rw h refl) (λ j k. rw h (r.only saved.calls key saved.disk j k))
          ])

    IsSaved-outcome :
        (original : EditableContent) (o : Option Outcome)
        → (answer_outcome atomic_write remove_file key original o s).0 ≡ done
        → IsSaved key raw s (answer_outcome atomic_write remove_file key original o s).1
    IsSaved-outcome original none d = cc
    IsSaved-outcome original (some (edited_as edited)) d = IsSaved-publish edited _ _
    IsSaved-outcome original (some (several ids)) d = cc
    IsSaved-outcome original (some (failed f)) d = cc
    IsSaved-outcome original (some endless) d = cc

    IsSaved-batch :
        (original : EditableContent) (r : Result BatchFailure EditableContent)
        → (answer_batch atomic_write remove_file key original r s).0 ≡ done
        → IsSaved key raw s (answer_batch atomic_write remove_file key original r s).1
    IsSaved-batch original (err f) d = cc
    IsSaved-batch original (ok edited) d = IsSaved-publish edited _ _

    IsSaved-extract :
        (r : Result ExtractError EditableContent) (target : Bytes)
        → (answer_extract atomic_write remove_file key target r s).0 ≡ done
        → IsSaved key raw s (answer_extract atomic_write remove_file key target r s).1
    IsSaved-extract (err f) target d = cc
    IsSaved-extract (ok edited) target d = IsSaved-publish edited _ _

    module _ (line_hash : Bytes → Bytes) where
      abbrev replaced_state : Bytes → Bytes → Bool → Answer × State
      replaced_state old_text new_text all =
          str_replace atomic_write remove_file line_hash key old_text new_text all s

      str_replace-found :
          (old_text new_text : Bytes) (all : Bool)
          → replaced_state old_text new_text all
            ≡ answer_outcome atomic_write remove_file key
                (from_raw raw)
                (exact_stages line_hash raw old_text new_text all)
                s
      unfolding str_replace
      str_replace-found old_text new_text all = rw (e, str_replace) refl

      -- A write that succeeds leaves its content, and none changes another file. The file was there, the
      -- account of the history was right, it had fewer than ten snapshots of the
      -- file, and its order had no entry of the file left from an earlier undo. Then, when an exact stage
      -- replaced a text in the file, an undo whose write succeeds gives all files back as they were.
      pub undo_edit-str_replace :
          (old_text new_text : Bytes) (all : Bool)
          → (replaced_state old_text new_text all).0 ≡ done
          → writes_back (replaced_state old_text new_text all).1 ≡ true
          → Restores (replaced_state old_text new_text all).1
      undo_edit-str_replace old_text new_text all d h =
          let f = str_replace-found old_text new_text all in
          undo_edit-IsSaved (replaced_state old_text new_text all).1
            (subst (λ r. IsSaved key raw s r.1) (sym f)
              (IsSaved-outcome (from_raw raw) (exact_stages line_hash raw old_text new_text all)
                (sym (ap (λ r. r.0) f) ∙ d)))
            h

      batch_found :
          (operations : List OperationValue)
          → batch_edit_file atomic_write remove_file line_hash key operations s
            ≡ answer_batch atomic_write remove_file key
                (from_raw raw)
                (batch_edit line_hash raw operations)
                s
      unfolding batch_edit_file
      batch_found operations = elim (Bool-cases (is_empty operations)) [
        | inl h ↦ rw h refl
        | inr h ↦ elim (Bool-cases (ltb max_operations (length operations))) [
          | inl k ↦ rw (h, k) refl
          | inr k ↦ rw (h, k, e, batch_edit) (rw (h, k) refl)
        ]
      ]

      -- A write that succeeds leaves its content, and none changes another file. The file was there, the
      -- account of the history was right, it had fewer than ten snapshots of the
      -- file, and its order had no entry of the file left from an earlier undo. Then, when a batch of
      -- operations was applied to the file, an undo whose write succeeds gives all files back as they
      -- were.
      pub undo_edit-batch_edit :
          (operations : List OperationValue)
          → (batch_edit_file atomic_write remove_file line_hash key operations s).0 ≡ done
          → writes_back (batch_edit_file atomic_write remove_file line_hash key operations s).1
            ≡ true
          → Restores (batch_edit_file atomic_write remove_file line_hash key operations s).1
      undo_edit-batch_edit operations d h =
          let f = batch_found operations in
          undo_edit-IsSaved (batch_edit_file atomic_write remove_file line_hash key operations s).1
            (subst (λ r. IsSaved key raw s r.1) (sym f)
              (IsSaved-batch (from_raw raw) (batch_edit line_hash raw operations)
                (sym (ap (λ r. r.0) f) ∙ d)))
            h

      abbrev extracted_state : Bytes → Option Value → Option Value → Option Value → Answer × State
      extracted_state from_key from_start from_end append_line =
          extract_into atomic_write remove_file line_hash from_key key from_start from_end
            append_line s

      extract_found :
          (from_key source : Bytes) (from_start from_end append_line : Option Value)
          → s.disk from_key ≡ some source
          → extracted_state from_key from_start from_end append_line
            ≡ answer_extract atomic_write remove_file key
                (content_or_empty (s.disk key))
                (extract_lines line_hash from_start from_end append_line source
                  (content_or_empty (s.disk key)))
                s
      unfolding extract_into
      extract_found from_key source from_start from_end append_line f = rw (extract_into, f) refl

      extract_missing :
          (from_key : Bytes) (from_start from_end append_line : Option Value)
          → s.disk from_key ≡ none
          → (extracted_state from_key from_start from_end append_line).0 ≡ file_not_found
      unfolding extract_into
      extract_missing from_key from_start from_end append_line f = rw (extract_into, f) refl

      -- A write that succeeds leaves its content, and none changes another file. The target was there,
      -- the account of the history was right, it had fewer than ten snapshots of
      -- the target, and its order had no entry of the target left from an earlier undo. Then, when lines
      -- were extracted to the target, an undo whose write succeeds gives all files back as they were.
      pub undo_edit-extract_into :
          (from_key : Bytes) (from_start from_end append_line : Option Value)
          → (extracted_state from_key from_start from_end append_line).0 ≡ done
          → writes_back (extracted_state from_key from_start from_end append_line).1 ≡ true
          → Restores (extracted_state from_key from_start from_end append_line).1
      undo_edit-extract_into from_key from_start from_end append_line d h =
          elim (Option-cases (s.disk from_key)) [
            | inl f ↦
                let q : file_not_found ≡ done =
                  sym (extract_missing from_key from_start from_end append_line f) ∙ d in
                cc
            | inr (source, f) ↦
                let g = extract_found from_key source from_start from_end append_line f in
                undo_edit-IsSaved (extracted_state from_key from_start from_end append_line).1
                  (subst (λ r. IsSaved key raw s r.1) (sym g)
                    (IsSaved-extract _ (content_or_empty (s.disk key)) (sym (ap (λ r. r.0) g) ∙ d)))
                  h
          ]

    -- A write that succeeds leaves its content, a removal that succeeds leaves no file, and none changes
    -- another file. The file was there, the account of the history was right, it had fewer than
    -- ten snapshots of the file, and its order had no entry of the file left from an earlier undo. Then,
    -- when the file was to be deleted, whether or not its removal succeeded, an undo whose write succeeds
    -- gives all files back as they were.
    pub undo_edit-delete_file :
        IsRemove remove_file
        → writes_back (delete_file atomic_write remove_file key s).1 ≡ true
        → Restores (delete_file atomic_write remove_file key s).1
    undo_edit-delete_file r h =
        undo_edit-IsSaved (delete_file atomic_write remove_file key s).1 (IsSaved-delete r) h
