-- ===== src/Batch/Handler.antt =====
-- `batch_edit_spec` of src/mcp/fs/text_editing.rs up to the edited content: all operations are
-- parsed, all are resolved against the file, and they are applied together or not at all.
use octofs.Prelude.{
  ℕ, suc, ◌+◌, Bool, true, false, Option, none, some, List, [], ◌∷◌, if◌then◌else◌, ltb, length,
  Result, ok, err,
}
use octofs.Text.{Bytes, lf, lines, bytes_eq, is_empty}
use octofs.Editable.{EditableContent, from_raw, normalized}
use octofs.LineHash.Endpoint.{Value}
use octofs.Batch.{
  OperationType, insert_op, replace_op, BatchOperation, Conflict, detect_conflicts, BatchError,
  apply_batch_operations,
}
use octofs.Batch.Targets.{
  UnresolvedLineRange, TargetError, ResolveError, parse_line_range, resolve_unresolved_line_range,
}
use octofs.Batch.Duplicates.{Duplicate, first_duplicate}
pub mod Outcome
pub mod Kinds
pub mod Meaning
pub mod Resolved

-- The fields of an operation that the handler reads. A text is `none` where it is absent or no
-- string, an endpoint where it is absent or null.
pub record OperationObject : Type 0 where
  pub operation : Option Bytes
  pub start : Option Value
  pub end : Option Value
  pub content : Option Bytes

pub data OperationValue : Type 0 where
  object : OperationObject → OperationValue
  not_object : OperationValue

pub data ParseFailure : Type 0 where
  must_be_object missing_operation missing_start missing_content : ParseFailure
  unsupported : Bytes → ParseFailure
  invalid_target : TargetError → ParseFailure

pub record UnresolvedBatchOperation : Type 0 where
  pub operation_type : OperationType
  pub line_range : UnresolvedLineRange
  pub content : Bytes
  pub operation_index : ℕ

pub data BatchFailure : Type 0 where
  empty_operations : BatchFailure
  too_many : ℕ → BatchFailure
  malformed : List (ℕ × ParseFailure) → BatchFailure
  stale_targets : List (ℕ × ResolveError) → BatchFailure
  conflicting : Conflict → BatchFailure
  duplicated : Duplicate → BatchFailure
  not_applied : BatchError → BatchFailure

abbrev pub max_operations : ℕ
max_operations = 50

abbrev pub insert_name : Bytes
insert_name = b'i' ∷ b'n' ∷ b's' ∷ b'e' ∷ b'r' ∷ b't' ∷ []

abbrev pub replace_name : Bytes
replace_name = b'r' ∷ b'e' ∷ b'p' ∷ b'l' ∷ b'a' ∷ b'c' ∷ b'e' ∷ []

abbrev pub operation_type_of : Bytes → Option OperationType
operation_type_of s =
    if bytes_eq s insert_name
    then some insert_op
    else if bytes_eq s replace_name
    then some replace_op
    else none

-- An insert of "" is a blank line.
abbrev pub content_of : OperationType → Bytes → Bytes
content_of insert_op [] = lf ∷ []
content_of insert_op (c ∷ cs) = c ∷ cs
content_of replace_op s = s

module _ (line_hash : Bytes → Bytes) where
  abbrev pub with_content :
      ℕ
      → OperationType
      → Option Bytes
      → Result TargetError UnresolvedLineRange
      → Result ParseFailure UnresolvedBatchOperation
  with_content index ty content (err x) = err (invalid_target x)
  with_content index ty none (ok u) = err missing_content
  with_content index ty (some c) (ok u) = ok (record {
    operation_type = ty;
    line_range = u;
    content = content_of ty c;
    operation_index = index;
  })

  abbrev pub with_type :
      List Bytes
      → ℕ
      → OperationObject
      → OperationType
      → Result ParseFailure UnresolvedBatchOperation
  with_type ls index o ty = elim o.start [
    | none ↦ err missing_start
    | some start ↦ with_content index ty o.content (parse_line_range line_hash start o.end ty ls)
  ]

  unfoldable pub parse_operation :
      List Bytes → ℕ → OperationValue → Result ParseFailure UnresolvedBatchOperation
  unfolding bytes_eq parse_line_range
  parse_operation ls index not_object = err must_be_object
  parse_operation ls index (object o) = elim o.operation [
    | none ↦ err missing_operation
    | some name ↦ elim (operation_type_of name) [
      | none ↦ err (unsupported name)
      | some ty ↦ with_type ls index o ty
    ]
  ]

  -- The failures by index, and the operations, each in its order.
  abbrev pub Parsed : Type 0
  Parsed = List (ℕ × ParseFailure) × List UnresolvedBatchOperation

  abbrev pub add_parsed : ℕ → Result ParseFailure UnresolvedBatchOperation → Parsed → Parsed
  add_parsed index (ok op) (fs, ops) = (fs, op ∷ ops)
  add_parsed index (err x) (fs, ops) = ((index, x) ∷ fs, ops)

  unfoldable pub parse_operations : List Bytes → ℕ → List OperationValue → Parsed
  unfolding parse_operation
  parse_operations ls index [] = ([], [])
  parse_operations ls index (v ∷ vs) =
      add_parsed index (parse_operation ls index v) (parse_operations ls (index + 1) vs)

  unfoldable pub resolve_operation :
      List Bytes → UnresolvedBatchOperation → Result ResolveError BatchOperation
  unfolding resolve_unresolved_line_range
  resolve_operation ls op =
      elim (resolve_unresolved_line_range line_hash op.line_range (length ls) ls) [
        | err x ↦ err x
        | ok r ↦ ok (record {
          operation_type = op.operation_type;
          line_range = r;
          content = op.content;
          operation_index = op.operation_index;
        })
      ]

  abbrev pub Resolved : Type 0
  Resolved = List (ℕ × ResolveError) × List BatchOperation

  abbrev pub add_resolved : ℕ → Result ResolveError BatchOperation → Resolved → Resolved
  add_resolved index (ok op) (fs, ops) = (fs, op ∷ ops)
  add_resolved index (err x) (fs, ops) = ((index, x) ∷ fs, ops)

  unfoldable pub resolve_operations : List Bytes → List UnresolvedBatchOperation → Resolved
  unfolding resolve_operation
  resolve_operations ls [] = ([], [])
  resolve_operations ls (op ∷ ops) =
      add_resolved op.operation_index (resolve_operation ls op) (resolve_operations ls ops)

  abbrev pub applied_of : Result BatchError EditableContent → Result BatchFailure EditableContent
  applied_of (ok edited) = ok edited
  applied_of (err x) = err (not_applied x)

  abbrev pub unless_duplicate :
      Option Duplicate → Result BatchError EditableContent → Result BatchFailure EditableContent
  unless_duplicate (some d) r = err (duplicated d)
  unless_duplicate none r = applied_of r

  abbrev pub unless_conflict :
      Result Conflict (Unit {0})
      → Option Duplicate
      → Result BatchError EditableContent
      → Result BatchFailure EditableContent
  unless_conflict (err c) d r = err (conflicting c)
  unless_conflict (ok u) d r = unless_duplicate d r

  abbrev pub apply_resolved :
      EditableContent → List Bytes → Resolved → Result BatchFailure EditableContent
  apply_resolved original ls (f ∷ fs, ops) = err (stale_targets (f ∷ fs))
  apply_resolved original ls ([], ops) =
      unless_conflict (detect_conflicts ops) (first_duplicate ls ops)
        (apply_batch_operations original ops)

  abbrev pub apply_parsed :
      EditableContent → List Bytes → Parsed → Result BatchFailure EditableContent
  apply_parsed original ls (f ∷ fs, ops) = err (malformed (f ∷ fs))
  apply_parsed original ls ([], ops) = apply_resolved original ls (resolve_operations ls ops)

  unfoldable pub batch_edit : Bytes → List OperationValue → Result BatchFailure EditableContent
  unfolding from_raw normalized lines parse_operations resolve_operations detect_conflicts
      first_duplicate apply_batch_operations
  batch_edit raw operations =
      if is_empty operations
      then err empty_operations
      else if ltb max_operations (length operations)
      then err (too_many (length operations))
      else let original = from_raw raw in
        let original_lines = lines (normalized original) in
        apply_parsed original original_lines (parse_operations original_lines 0 operations)
