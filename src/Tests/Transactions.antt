-- ===== src/Tests/Transactions.antt =====
-- A transaction over two files whose second write fails and tears its file.
use octofs.Prelude.{
  ℕ, ◌≡◌, refl, true, false, Bool, none, some, List, [], ◌∷◌, ◌==◌, if◌then◌else◌, Bool-cases, inl,
  inr,
}
use octofs.Text.{Bytes, bytes_eq}
use octofs.Text.Equality.{bytes_eq_refl}
use octofs.MultiEdit.{Disk, File, committed, restored, write_files}
use octofs.MultiEdit.Commits.{Distinct, Committed, write_files-Committed}
use octofs.MultiEdit.Rollback.{IsWrite, Loaded, write_files-restored}
use octofs.Tests.Editing.{codes}

abbrev put : Bytes → Bytes → Disk → Disk
put k c disk j = if bytes_eq k j then some c else disk j

abbrev flaky : ℕ → Bytes → Bytes → Disk → Bool × Disk
flaky call k c disk = if call == 1 then (false, put k [] disk) else (true, put k c disk)

flaky-IsWrite : IsWrite flaky
flaky-IsWrite = record {
  writes = λ n k c d h. elim (Bool-cases (n == 1)) [
    | inl e ↦ let q : false ≡ true = rw e at h in cc
    | inr e ↦ rw (e, bytes_eq_refl k) refl
  ];
  only =
      λ n k c d j h. elim (Bool-cases (n == 1)) [ inl e ↦ rw (e, h) refl | inr e ↦ rw (e, h) refl ];
}

abbrev disk : Disk
disk j =
    if bytes_eq (codes "a") j
    then some (codes "1")
    else if bytes_eq (codes "b") j
    then some (codes "2")
    else none

abbrev edits : List File
edits =
    record { key = codes "a"; first_edit = 0; before = codes "1"; after = codes "3" }
    ∷ record { key = codes "b"; first_edit = 1; before = codes "2"; after = codes "4" }
    ∷ []

Loaded-edits : Loaded disk edits
unfolding bytes_eq
Loaded-edits = (refl, (refl, tt))

fails-edits : (write_files flaky 0 [] edits disk).0 ≡ restored 1
unfolding write_files bytes_eq
fails-edits = refl

write_files-restored_example : (write_files flaky 0 [] edits disk).1 (codes "a") ≡ disk (codes "a")
write_files-restored_example =
    write_files-restored flaky flaky-IsWrite edits disk 1 Loaded-edits fails-edits (codes "a")

abbrev steady : ℕ → Bytes → Bytes → Disk → Bool × Disk
steady call k c disk = (true, put k c disk)

steady-IsWrite : IsWrite steady
steady-IsWrite = record {
  writes = λ n k c d h. rw (bytes_eq_refl k) refl;
  only = λ n k c d j h. rw h refl;
}

Distinct-edits : Distinct edits
unfolding bytes_eq
Distinct-edits = (refl, (refl, tt))

commits-edits : (write_files steady 0 [] edits disk).0 ≡ committed
unfolding write_files bytes_eq
commits-edits = refl

write_files-Committed_example : Committed edits disk (write_files steady 0 [] edits disk).1
write_files-Committed_example =
    write_files-Committed steady steady-IsWrite 0 [] edits disk Loaded-edits Distinct-edits
      commits-edits
