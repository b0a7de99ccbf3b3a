-- ===== src/MultiEdit.antt =====
-- src/mcp/fs/multi_edit.rs: the commit of a transaction over several files, and its rollback. The
-- write of a file is `atomic_write` of the layer below, which may fail at any call and is a parameter
-- here, with a number for each call.
use octofs.Prelude.{
  ℕ, ◌+◌, ◌≡◌, refl, sym, ap, ◌∙◌, Bool, true, false, not, ◌||◌, ◌⊎◌, inl, inr, Option, none, some,
  List, [], ◌∷◌, if◌then◌else◌, Bool-cases, All, arith,
}
use octofs.Text.{Bytes, bytes_eq, is_empty}
pub mod Rollback
pub mod Commits

-- The contents of the files by key, `none` where there is none.
abbrev pub Disk : Type 0
Disk = Bytes → Option Bytes

pub record File : Type 0 where
  pub key : Bytes
  pub first_edit : ℕ
  pub before : Bytes
  pub after : Bytes

pub data CommitResult : Type 0 where
  committed : CommitResult
  -- commit failed; all file contents restored
  restored : ℕ → CommitResult
  -- commit failed and so did the rollback of these files
  rollback_failed : ℕ → List Bytes → CommitResult

abbrev pub is_content : Option Bytes → Bytes → Bool
is_content none content = false
is_content (some current) content = bytes_eq current content

module _ (atomic_write : ℕ → Bytes → Bytes → Disk → Bool × Disk) where
  unfoldable pub restore : ℕ → File → Disk → Bool × Disk
  unfolding bytes_eq
  restore call file disk =
      if is_content (disk file.key) file.before
      then (true, disk)
      else atomic_write call file.key file.before disk

  abbrev pub add_failure : File → Bool → List Bytes → List Bytes
  add_failure file true failures = failures
  add_failure file false failures = file.key ∷ failures

  -- The files in the order in which they are restored, the last attempted first.
  unfoldable pub rollback : ℕ → List File → Disk → List Bytes × Disk
  unfolding restore
  rollback call [] disk = ([], disk)
  rollback call (file ∷ files) disk =
      let done = restore call file disk in
      let rest = rollback (call + 1) files done.1 in (add_failure file done.0 rest.0, rest.1)

  abbrev pub failed : ℕ → List Bytes × Disk → CommitResult × Disk
  failed first_edit ([], disk) = (restored first_edit, disk)
  failed first_edit (f ∷ failures, disk) = (rollback_failed first_edit (f ∷ failures), disk)

  unfoldable pub write_files : ℕ → List File → List File → Disk → CommitResult × Disk
  unfolding rollback bytes_eq
  write_files call attempted [] disk = (committed, disk)
  write_files call attempted (file ∷ files) disk =
      let written = atomic_write call file.key file.after disk in
      let skipped = write_files call attempted files disk in
      let rest = write_files (call + 1) (file ∷ attempted) files written.1 in
      if bytes_eq file.before file.after
      then skipped
      else if written.0
      then rest
      else failed file.first_edit (rollback (call + 1) (file ∷ attempted) written.1)
