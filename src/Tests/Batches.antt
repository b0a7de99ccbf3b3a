-- ===== src/Tests/Batches.antt =====
-- A batch of operations on a file of four lines.
use octofs.Prelude.{
  none, ◌≡◌, refl, some, List, [], ◌∷◌, arith, ok, err, inl, inr, All, length, ◌↔◌,
}
use octofs.Prelude.Pairs.{Pairwise}
use octofs.Text.{Bytes}
use octofs.Editable.{EditableContent, from_raw, rendered, preserve_trailing_newline}
use octofs.LineHash.Endpoint.{Value, string}
use octofs.Batch.{
  BatchOperation, insert_op, replace_op, single, range, detect_conflicts, apply_batch_operations,
}
use octofs.Batch.Conflicts.{Apart, detect_conflicts_iff}
use octofs.Batch.Simultaneous.{simultaneous}
use octofs.Batch.Placed.{IsPlaced}
use octofs.Batch.Applies.{apply_batch_operations-simultaneous}
use octofs.Batch.Targets.{id_range, parse_line_range, resolve_unresolved_line_range}
use octofs.Batch.TargetPlaces.{resolve_unresolved_line_range-IsPlaced}
use octofs.Batch.Handler.{OperationValue, object, batch_edit}
use octofs.Batch.Handler.Outcome.{Accepted, batch_edit-Accepted}
use octofs.Tests.Editing.{codes}
use octofs.Tests.Ids.{toy_hash, file}

abbrev four : EditableContent
four = from_raw (codes "a\nb\r\nc\nd")

-- behind line 3, and in place of the lines 1 and 2
abbrev batch : List BatchOperation
batch =
    record {
      operation_type = insert_op;
      line_range = single 3;
      content = codes "x";
      operation_index = 0;
    }
    ∷ record {
      operation_type = replace_op;
      line_range = range 1 2;
      content = codes "p\nq\nr";
      operation_index = 1;
    }
    ∷ []

abbrev rendered_batch : EditableContent → List BatchOperation → Bytes
rendered_batch c ops = elim (apply_batch_operations c ops) [ ok d ↦ rendered d | err x ↦ [] ]

applied-batch : rendered_batch four batch ≡ codes "p\nq\nr\nc\nx\nd"
unfolding apply_batch_operations rendered from_raw
applied-batch = refl

accepted-batch : detect_conflicts batch ≡ ok tt
unfolding detect_conflicts
accepted-batch = refl

IsPlaced-batch : All (IsPlaced (length four.lines)) batch
unfolding from_raw
IsPlaced-batch =
    (inr (refl, refl, omega arith), (inl (refl, omega arith, omega arith, omega arith), tt))

apply_batch_operations-simultaneous_example :
    apply_batch_operations four batch
    ≡ ok (
        preserve_trailing_newline
          (record four { lines = simultaneous four.dominant_ending batch four.lines }))
apply_batch_operations-simultaneous_example =
    apply_batch_operations-simultaneous four batch IsPlaced-batch accepted-batch

detect_conflicts_iff_example : (detect_conflicts batch ≡ ok tt) ↔ Pairwise Apart batch
detect_conflicts_iff_example = detect_conflicts_iff batch

abbrev first_id : Value
first_id = string (codes "1:aa")

abbrev last_id : Value
last_id = string (codes "3:aa")

parsed-ids :
    parse_line_range toy_hash first_id (some last_id) replace_op file
    ≡ ok (id_range (1, codes "aa") (3, codes "aa"))
unfolding parse_line_range
parsed-ids = refl

resolved-ids :
    resolve_unresolved_line_range toy_hash
      (id_range (1, codes "aa") (3, codes "aa"))
      (length file)
      file
    ≡ ok (range 1 3)
unfolding resolve_unresolved_line_range
resolved-ids = refl

resolve_unresolved_line_range-IsPlaced_example : IsPlaced (length file) (record {
  operation_type = replace_op;
  line_range = range 1 3;
  content = codes "x";
  operation_index = 0;
})
resolve_unresolved_line_range-IsPlaced_example =
    resolve_unresolved_line_range-IsPlaced toy_hash first_id (some last_id) replace_op file
      (codes "x") 0 parsed-ids resolved-ids

-- The lines 1 and 3 of "a\nb\nac" under the toy hash, replaced and inserted behind.
abbrev pub calls : List OperationValue
calls =
    object (record {
      operation = some (codes "replace");
      start = some (string (codes "1:aa"));
      end = none;
      content = some (codes "x\ny");
    })
    ∷ object (record {
      operation = some (codes "insert");
      start = some (string (codes "3:aa"));
      end = none;
      content = some [];
    })
    ∷ []

abbrev edited_or : Bytes → EditableContent → EditableContent
edited_or raw d = elim (batch_edit toy_hash raw calls) [ ok e ↦ e | err x ↦ d ]

rendered-calls : rendered (edited_or (codes "a\nb\nac") four) ≡ codes "x\ny\nb\nac\n\n"
unfolding batch_edit rendered from_raw
rendered-calls = refl

edits-calls : batch_edit toy_hash (codes "a\nb\nac") calls ≡ ok (edited_or (codes "a\nb\nac") four)
unfolding batch_edit
edits-calls = refl

batch_edit-Accepted_example :
    Accepted toy_hash (from_raw (codes "a\nb\nac")) calls (edited_or (codes "a\nb\nac") four)
batch_edit-Accepted_example = batch_edit-Accepted toy_hash (codes "a\nb\nac") calls edits-calls
