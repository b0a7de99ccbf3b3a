-- ===== src/Batch/Handler/Kinds.antt =====
-- A parsed operation has a target of its own kind, and a resolved one stands in the file.
use octofs.Prelude.{
  ℕ, ◌≡◌, refl, subst, Option, none, some, List, length, Result, ok, err, subst_ok,
}
use octofs.Text.{Bytes}
use octofs.LineHash.Endpoint.{Value}
use octofs.Batch.{OperationType, BatchOperation, LineRange}
use octofs.Batch.Placed.{IsPlaced}
use octofs.Batch.Targets.{
  UnresolvedLineRange, TargetError, ResolveError, parse_line_range, resolve_unresolved_line_range,
}
use octofs.Batch.TargetPlaces.{kind_of, op_at, resolved-IsPlaced, kind_of-parse_line_range}
use octofs.Batch.Handler.{
  OperationObject, OperationValue, object, not_object, UnresolvedBatchOperation, missing_start,
  missing_operation, unsupported, operation_type_of, with_content, with_type, parse_operation,
  resolve_operation,
}

module _ (line_hash : Bytes → Bytes) where
  -- A parsed operation has a target of its own kind.
  abbrev pub IsKind : UnresolvedBatchOperation → Type 0
  IsKind op = kind_of line_hash op.line_range ≡ op.operation_type

  with_content-IsKind :
      (index : ℕ) (ty : OperationType) (content : Option Bytes)
      (r : Result TargetError UnresolvedLineRange) {op : UnresolvedBatchOperation}
      → ((u : UnresolvedLineRange) → r ≡ ok u → kind_of line_hash u ≡ ty)
      → with_content line_hash index ty content r ≡ ok op
      → IsKind op
  with_content-IsKind index ty content (err x) k h = cc
  with_content-IsKind index ty none (ok u) k h = cc
  with_content-IsKind index ty (some c) (ok u) {op} k h = subst_ok IsKind h (k u refl)

  with_type-IsKind :
      (ls : List Bytes) (index : ℕ) (ty : OperationType) (start end : Option Value)
      (content : Option Bytes) {op : UnresolvedBatchOperation}
      → elim start [
        | none ↦ err missing_start
        | some v ↦ with_content line_hash index ty content (parse_line_range line_hash v end ty ls)
      ]
        ≡ ok op
      → IsKind op
  with_type-IsKind ls index ty none end content h = cc
  with_type-IsKind ls index ty (some v) end content h =
      with_content-IsKind index ty content (parse_line_range line_hash v end ty ls)
        (λ u e. kind_of-parse_line_range line_hash v end ty ls e) h

  typed-IsKind :
      (ls : List Bytes) (index : ℕ) (name : Bytes) (ty : Option OperationType) (o : OperationObject)
      {op : UnresolvedBatchOperation}
      → elim ty [ none ↦ err (unsupported name) | some t ↦ with_type line_hash ls index o t ]
        ≡ ok op
      → IsKind op
  typed-IsKind ls index name none o h = cc
  typed-IsKind ls index name (some t) o h = with_type-IsKind ls index t o.start o.end o.content h

  named-IsKind :
      (ls : List Bytes) (index : ℕ) (name : Option Bytes) (o : OperationObject)
      {op : UnresolvedBatchOperation}
      → elim name [
        | none ↦ err missing_operation
        | some s ↦ elim (operation_type_of s) [
          | none ↦ err (unsupported s)
          | some t ↦ with_type line_hash ls index o t
        ]
      ]
        ≡ ok op
      → IsKind op
  named-IsKind ls index none o h = cc
  named-IsKind ls index (some s) o h = typed-IsKind ls index s (operation_type_of s) o h

  pub parse_operation-IsKind :
      (ls : List Bytes) (index : ℕ) (v : OperationValue) {op : UnresolvedBatchOperation}
      → parse_operation line_hash ls index v ≡ ok op
      → IsKind op
  unfolding parse_operation
  parse_operation-IsKind ls index not_object h = cc
  parse_operation-IsKind ls index (object o) h = named-IsKind ls index o.operation o h

  resolved_with :
      (n : ℕ) (u : UnresolvedBatchOperation) (r : Result ResolveError LineRange)
      {op : BatchOperation}
      → ((t : LineRange)
          → r ≡ ok t
          → IsPlaced n (op_at line_hash u.operation_type t u.content u.operation_index))
      → elim r [
        | err x ↦ err x
        | ok t ↦ ok (op_at line_hash u.operation_type t u.content u.operation_index)
      ]
        ≡ ok op
      → IsPlaced n op
  resolved_with n u (err x) k h = cc
  resolved_with n u (ok t) k h = subst_ok (IsPlaced n) h (k t refl)

  pub resolve_operation-IsPlaced :
      (ls : List Bytes) (u : UnresolvedBatchOperation) {op : BatchOperation}
      → IsKind u
      → resolve_operation line_hash ls u ≡ ok op
      → IsPlaced (length ls) op
  unfolding resolve_operation
  resolve_operation-IsPlaced ls u k h =
      resolved_with (length ls) u
        (resolve_unresolved_line_range line_hash u.line_range (length ls) ls)
        (λ t e.
          subst (λ ty. IsPlaced (length ls) (op_at line_hash ty t u.content u.operation_index)) k
            (resolved-IsPlaced line_hash u.line_range ls u.content u.operation_index e))
        h
