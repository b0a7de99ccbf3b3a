-- ===== src/Tests/Edits.antt =====
-- A transaction with two edits of one file, the second of what the first made.
use octofs.Prelude.{◌≡◌, refl, true, false, none, some, List, [], ◌∷◌}
use octofs.Text.{Bytes, bytes_eq, starts_with}
use octofs.Editable.{replace_normalized_range}
use octofs.StrReplace.{Edit}
use octofs.Session.{State, Answer, done, execute_edits}
use octofs.Session.Transactions.{Applied, execute_edits-Applied}
use octofs.Tests.Editing.{codes}
use octofs.Tests.Sessions.{writes_all, removes_all, writes_all-IsWrite, one_file, hash_of}

abbrev two_edits : List (Bytes × Edit)
two_edits =
    (codes "f", record { path = none; old_text = codes "b"; new_text = codes "cc"; all = false })
    ∷ (codes "f", record { path = none; old_text = codes "c"; new_text = codes "d"; all = true })
    ∷ []

abbrev after_edits : Answer × State
after_edits = execute_edits writes_all removes_all hash_of two_edits one_file

edits_done : after_edits.0 ≡ done
unfolding execute_edits starts_with replace_normalized_range bytes_eq
edits_done = refl

edits_f : after_edits.1.disk (codes "f") ≡ some (codes "add")
unfolding execute_edits starts_with replace_normalized_range bytes_eq
edits_f = refl

execute_edits-Applied_example : Applied hash_of two_edits one_file.disk after_edits.1.disk
execute_edits-Applied_example =
    execute_edits-Applied writes_all removes_all writes_all-IsWrite hash_of two_edits one_file
      edits_done
