-- ===== src/Tests/Sessions.antt =====
-- Calls of the handlers on one file, and their theorems there.
use octofs.Prelude.{
  err, ok, Option, ℕ, ◌≡◌, refl, true, false, Bool, none, some, [], if◌then◌else◌, arith, length,
  ◌≤◌,
}
use octofs.Text.{Bytes, bytes_eq, starts_with, lines}
use octofs.LineHash.{i64_max}
use octofs.Text.Equality.{bytes_eq_refl}
use octofs.Maps.{lookup, total}
use octofs.Editable.{EditableContent, from_raw, rendered, replace_normalized_range}
use octofs.History.{empty}
use octofs.History.Budget.{IsConsistent}
use octofs.MultiEdit.{Disk}
use octofs.MultiEdit.Rollback.{IsWrite}
use octofs.Session.{
  State, Answer, done, str_replace, batch_edit_file, extract_into, delete_file, undo_edit,
}
use octofs.Prelude.Int.{pos}
use octofs.LineHash.Endpoint.{number, string}
use octofs.Extract.{extract_lines}
use octofs.Extract.Appends.{Appended, extract_lines-Appended}
use octofs.Session.Undo.{
  undo_edit-extract_into, undo_edit-batch_edit, IsRemove, HasRoom, Restores, undo_edit-str_replace,
  undo_edit-delete_file,
}
use octofs.Session.Reach.{starts, steps, replaces, undoes, Reachable-IsConsistent}
use octofs.Tests.Editing.{codes}
use octofs.Tests.Ids.{toy_hash}
use octofs.Tests.Batches.{calls}

abbrev put : Bytes → Option Bytes → Disk → Disk
put k c disk j = if bytes_eq k j then c else disk j

abbrev pub writes_all : ℕ → Bytes → Bytes → Disk → Bool × Disk
writes_all call k c disk = (true, put k (some c) disk)

abbrev pub removes_all : ℕ → Bytes → Disk → Bool × Disk
removes_all call k disk = (true, put k none disk)

pub writes_all-IsWrite : IsWrite writes_all
writes_all-IsWrite = record {
  writes = λ n k c d h. rw (bytes_eq_refl k) refl;
  only = λ n k c d j h. rw h refl;
}

removes_all-IsRemove : IsRemove removes_all
removes_all-IsRemove = record {
  removes = λ n k d h. rw (bytes_eq_refl k) refl;
  only = λ n k d j h. rw h refl;
}

abbrev pub hash_of : Bytes → Bytes
hash_of s = s

abbrev pub one_file : State
one_file = record {
  disk = λ j. if bytes_eq (codes "f") j then some (codes "ab") else none;
  history = empty;
  views = [];
  calls = 0;
}

has_file : one_file.disk (codes "f") ≡ some (codes "ab")
unfolding bytes_eq
has_file = refl

one_file-HasRoom : HasRoom (codes "f") one_file
one_file-HasRoom = record {
  consistent =
      unfold total lookup in
      record { unique = tt; counted = refl; histories = tt; recorded = λ k. omega arith };
  few = unfold lookup in omega arith;
  fresh = unfold lookup in omega arith;
}

abbrev after_replace : Answer × State
after_replace =
    str_replace writes_all removes_all hash_of (codes "f") (codes "b") (codes "c") false one_file

replaces_b : after_replace.0 ≡ done
unfolding str_replace starts_with replace_normalized_range bytes_eq
replaces_b = refl

undo_edit-str_replace_example :
    Restores writes_all removes_all writes_all-IsWrite
      (codes "f")
      (codes "ab")
      one_file
      has_file
      after_replace.1
undo_edit-str_replace_example =
    undo_edit-str_replace writes_all removes_all writes_all-IsWrite (codes "f") (codes "ab")
      one_file has_file one_file-HasRoom hash_of (codes "b") (codes "c") false replaces_b refl

abbrev three_lines : State
three_lines = record one_file {
  disk = λ j. if bytes_eq (codes "f") j then some (codes "a\nb\nac") else none;
}

has_lines : three_lines.disk (codes "f") ≡ some (codes "a\nb\nac")
unfolding bytes_eq
has_lines = refl

three_lines-HasRoom : HasRoom (codes "f") three_lines
three_lines-HasRoom = record {
  consistent = one_file-HasRoom.consistent;
  few = one_file-HasRoom.few;
  fresh = one_file-HasRoom.fresh;
}

abbrev after_batch : Answer × State
after_batch = batch_edit_file writes_all removes_all toy_hash (codes "f") calls three_lines

batch_done : after_batch.0 ≡ done
unfolding batch_edit_file bytes_eq
batch_done = refl

undo_edit-batch_edit_example :
    Restores writes_all removes_all writes_all-IsWrite
      (codes "f")
      (codes "a\nb\nac")
      three_lines
      has_lines
      after_batch.1
undo_edit-batch_edit_example =
    undo_edit-batch_edit writes_all removes_all writes_all-IsWrite (codes "f") (codes "a\nb\nac")
      three_lines has_lines three_lines-HasRoom toy_hash calls batch_done refl

-- line 2 behind line 1 of the same file
abbrev after_extract : Answer × State
after_extract =
    extract_into writes_all removes_all toy_hash (codes "f") (codes "f")
      (some (number (some (pos 2)))) none (some (string (codes "1:aa"))) three_lines

extract_done : after_extract.0 ≡ done
unfolding extract_into bytes_eq
extract_done = refl

undo_edit-extract_into_example :
    Restores writes_all removes_all writes_all-IsWrite
      (codes "f")
      (codes "a\nb\nac")
      three_lines
      has_lines
      after_extract.1
undo_edit-extract_into_example =
    undo_edit-extract_into writes_all removes_all writes_all-IsWrite (codes "f") (codes "a\nb\nac")
      three_lines has_lines three_lines-HasRoom toy_hash (codes "f") (some (number (some (pos 2))))
      none (some (string (codes "1:aa"))) extract_done refl

-- The same lines without the files.
abbrev extracted_or : EditableContent → EditableContent
extracted_or d =
    elim (extract_lines toy_hash (some (number (some (pos 2)))) none (some (string (codes "1:aa")))
      (codes "a\nb\nac") (codes "a\nb\nac")) [ ok e ↦ e | err x ↦ d ]

extracts_b : rendered (extracted_or (from_raw [])) ≡ codes "a\nb\nb\nac"
unfolding extract_lines rendered
extracts_b = refl

extracted_b :
    extract_lines toy_hash
      (some (number (some (pos 2))))
      none
      (some (string (codes "1:aa")))
      (codes "a\nb\nac")
      (codes "a\nb\nac")
    ≡ ok (extracted_or (from_raw []))
unfolding extract_lines
extracted_b = refl

source_small : length (lines (codes "a\nb\nac")) ≤ i64_max
unfolding lines
source_small = omega arith

extract_lines-Appended_example :
    Appended toy_hash
      (some (number (some (pos 2))))
      none
      (some (string (codes "1:aa")))
      (codes "a\nb\nac")
      (codes "a\nb\nac")
      (extracted_or (from_raw []))
extract_lines-Appended_example =
    extract_lines-Appended toy_hash (some (number (some (pos 2)))) none
      (some (string (codes "1:aa"))) (codes "a\nb\nac") (codes "a\nb\nac") source_small extracted_b

undo_edit-delete_file_example :
    Restores writes_all removes_all writes_all-IsWrite
      (codes "f")
      (codes "ab")
      one_file
      has_file
      (delete_file writes_all removes_all (codes "f") one_file).1
undo_edit-delete_file_example =
    undo_edit-delete_file writes_all removes_all writes_all-IsWrite (codes "f") (codes "ab")
      one_file has_file one_file-HasRoom removes_all-IsRemove refl

Reachable-IsConsistent_example :
    IsConsistent (undo_edit writes_all removes_all (codes "f") after_replace.1).1.history
Reachable-IsConsistent_example = Reachable-IsConsistent writes_all removes_all hash_of (
    steps (steps (starts {s = one_file} refl) (replaces (codes "f") (codes "b") (codes "c") false))
      (undoes (codes "f")))
