-- ===== src/Tests/Histories.antt =====
-- The undo history on two files.
use octofs.Prelude.{◌≡◌, refl, none, some, [], ◌∷◌, arith, ◌⊎◌, ◌≤◌}
use octofs.Text.{Bytes}
use octofs.Maps.{total, lookup}
use octofs.History.{Snapshot, empty, push, pop}
use octofs.History.Budget.{IsConsistent, push-IsConsistent}
use octofs.History.Bounds.{push_bound, pop-IsConsistent, snapshots}
use octofs.History.Undo.{pop-push, pop-push_stale}

abbrev first_key : Bytes
first_key = b'f' ∷ []

abbrev content : Snapshot
content = some (b'x' ∷ b'y' ∷ [])

empty-IsConsistent : IsConsistent empty
empty-IsConsistent =
    unfold total lookup in
    record { unique = tt; counted = refl; histories = tt; recorded = λ k. omega arith }

pushed-IsConsistent : IsConsistent (push empty first_key content 100)
pushed-IsConsistent = push-IsConsistent empty empty-IsConsistent first_key content 100

push-IsConsistent_example : IsConsistent (push empty first_key content 100)
push-IsConsistent_example = push-IsConsistent empty empty-IsConsistent first_key content 100

pop-IsConsistent_example : IsConsistent (pop (push empty first_key content 100) first_key).0
pop-IsConsistent_example =
    pop-IsConsistent (push empty first_key content 100) first_key pushed-IsConsistent

push_bound_example :
    ((push empty first_key content 1).total_bytes ≤ 1)
    ⊎ (snapshots (push empty first_key content 1).files ≤ 1)
push_bound_example = push_bound empty first_key content 1 empty-IsConsistent

pop-push_example : (pop (push empty first_key content 100) first_key).1 ≡ some content
pop-push_example =
    pop-push empty first_key content 100 empty-IsConsistent (unfold lookup in omega arith)
      (unfold lookup in omega arith)

pop-push_stale_example :
    (pop (push (pop (push empty first_key none 1) first_key).0 first_key content 1) first_key).1
    ≡ none
pop-push_stale_example = pop-push_stale first_key none content 1 (omega arith)
