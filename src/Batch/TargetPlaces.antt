-- ===== src/Batch/TargetPlaces.antt =====
-- Where a resolved target of `batch_edit` stands.
use octofs.Prelude.{
  ℕ, zero, suc, ◌≤◌, ◌≡◌, refl, subst, Option, none, some, List, arith, length, Result, ok, err,
}
use octofs.Prelude.Int.{pos, negsuc}
use octofs.Text.{Bytes}
use octofs.LineHash.{VerifyError, verify_line_id}
use octofs.LineHash.Verify.{verify_line_id_iff}
use octofs.LineHash.Endpoint.{Chars, Value, Endpoint, EndpointError, parse_endpoint}
use octofs.Batch.{OperationType, insert_op, replace_op, LineRange, BatchOperation}
use octofs.Batch.Placed.{IsPlaced}
use octofs.Batch.Targets.{
  UnresolvedLineRange, anchor, id_anchor, id_range, invalid_start, insert_target, replace_target,
  with_end, target_of, parse_line_range, resolve_ends, resolve_anchor,
  resolve_unresolved_line_range,
}

module _ (line_hash : Bytes → Bytes) where
  -- The operation that takes such a target.
  abbrev pub kind_of : UnresolvedLineRange → OperationType
  kind_of (anchor n) = insert_op
  kind_of (id_anchor line hash) = insert_op
  kind_of (id_range start end) = replace_op

  kind_of-insert_target :
      (lines : List Bytes) (start : Endpoint) {u : UnresolvedLineRange}
      → insert_target line_hash lines start ≡ ok u
      → kind_of u ≡ insert_op
  kind_of-insert_target lines (Endpoint.number (pos zero)) h = ground arith
  kind_of-insert_target lines (Endpoint.number (negsuc zero)) h = ground arith
  kind_of-insert_target lines (Endpoint.number (pos (suc n))) h = ground arith
  kind_of-insert_target lines (Endpoint.number (negsuc (suc n))) h = ground arith
  kind_of-insert_target lines (Endpoint.id line hash) h = ground arith

  kind_of-replace_target :
      (lines : List Bytes) (start end : Endpoint) {u : UnresolvedLineRange}
      → replace_target line_hash lines start end ≡ ok u
      → kind_of u ≡ replace_op
  kind_of-replace_target lines (Endpoint.id sl sh) (Endpoint.id el eh) h = ground arith
  kind_of-replace_target lines (Endpoint.number n) e h = ground arith
  kind_of-replace_target lines (Endpoint.id sl sh) (Endpoint.number n) h = ground arith

  kind_of-with_end :
      (lines : List Bytes) (start : Endpoint) (end : Result EndpointError Endpoint)
      {u : UnresolvedLineRange}
      → with_end line_hash lines start end ≡ ok u
      → kind_of u ≡ replace_op
  kind_of-with_end lines start (ok end) h = kind_of-replace_target lines start end h
  kind_of-with_end lines start (err x) h = ground arith

  kind_of-target_of :
      (ty : OperationType) (w : Option Value) (lines : List Bytes) (start : Endpoint)
      {u : UnresolvedLineRange}
      → target_of line_hash ty w lines start ≡ ok u
      → kind_of u ≡ ty
  kind_of-target_of insert_op w lines start h = kind_of-insert_target lines start h
  kind_of-target_of replace_op none lines start h = kind_of-replace_target lines start start h
  kind_of-target_of replace_op (some v) lines start h = kind_of-with_end lines start _ h

  pub kind_of-parse_line_range :
      (v : Value) (w : Option Value) (ty : OperationType) (lines : List Bytes)
      {u : UnresolvedLineRange}
      → parse_line_range line_hash v w ty lines ≡ ok u
      → kind_of u ≡ ty
  unfolding parse_line_range
  kind_of-parse_line_range v w ty lines {u} h = go (parse_endpoint v) h
    where
      go :
          (r : Result EndpointError Endpoint)
          → elim r [
            | err x ↦ err (invalid_start x)
            | ok start ↦ target_of line_hash ty w lines start
          ]
            ≡ ok u
          → kind_of u ≡ ty
      go (err x) k = ground arith
      go (ok start) k = kind_of-target_of ty w lines start k

  abbrev pub op_at : OperationType → LineRange → Bytes → ℕ → BatchOperation
  op_at ty r content i = record {
    operation_type = ty;
    line_range = r;
    content = content;
    operation_index = i;
  }

  abbrev InFile : ℕ → Result VerifyError ℕ → Type 0
  InFile n v = (k : ℕ) → v ≡ ok k → (1 ≤ k) × (k ≤ n)

  verify-InFile :
      (line : ℕ) (hash : Bytes) (lines : List Bytes)
      → InFile (length lines) (verify_line_id line_hash line hash lines)
  verify-InFile line hash lines k h =
      let (e, holds) = (verify_line_id_iff line_hash line hash lines k).0 h in
      (omega (arith, holds.positive), omega (arith, holds.within))

  IsPlaced-ends :
      (n : ℕ) (start end : ℕ × Chars) (a b : Result VerifyError ℕ) (content : Bytes) (i : ℕ)
      {r : LineRange}
      → InFile n a
      → InFile n b
      → resolve_ends line_hash start end a b ≡ ok r
      → IsPlaced n (op_at replace_op r content i)
  IsPlaced-ends n start end (ok s) (ok e) content i p q h = ground (arith, p s refl, q e refl)
  IsPlaced-ends n start end (ok s) (err y) content i p q h = ground arith
  IsPlaced-ends n start end (err x) (ok e) content i p q h = ground arith
  IsPlaced-ends n start end (err x) (err y) content i p q h = ground arith

  IsPlaced-anchor :
      (n : ℕ) (a : Result VerifyError ℕ) (content : Bytes) (i : ℕ) {r : LineRange}
      → InFile n a
      → resolve_anchor line_hash a ≡ ok r
      → IsPlaced n (op_at insert_op r content i)
  IsPlaced-anchor n (ok s) content i p h = ground (arith, p s refl)
  IsPlaced-anchor n (err x) content i p h = ground arith

  pub resolved-IsPlaced :
      (u : UnresolvedLineRange) (lines : List Bytes) (content : Bytes) (i : ℕ) {r : LineRange}
      → resolve_unresolved_line_range line_hash u (length lines) lines ≡ ok r
      → IsPlaced (length lines) (op_at (kind_of u) r content i)
  unfolding resolve_unresolved_line_range
  resolved-IsPlaced (anchor (pos zero)) lines content i h = ground arith
  resolved-IsPlaced (anchor (negsuc zero)) lines content i h = ground arith
  resolved-IsPlaced (anchor (pos (suc n))) lines content i h = ground arith
  resolved-IsPlaced (anchor (negsuc (suc n))) lines content i h = ground arith
  resolved-IsPlaced (id_anchor line hash) lines content i h =
      IsPlaced-anchor (length lines) _ content i (verify-InFile line hash lines) h
  resolved-IsPlaced (id_range start end) lines content i h =
      IsPlaced-ends (length lines) start end _ _ content i (verify-InFile start.0 start.1 lines)
        (verify-InFile end.0 end.1 lines) h

  -- An operation whose target parses and resolves stands in the file: a replacement has a range
  -- from 1 to the last line, in order, and an insertion an anchor from 0 to the last line.
  pub resolve_unresolved_line_range-IsPlaced :
      (v : Value) (w : Option Value) (ty : OperationType) (lines : List Bytes) (content : Bytes)
      (i : ℕ) {u : UnresolvedLineRange} {r : LineRange}
      → parse_line_range line_hash v w ty lines ≡ ok u
      → resolve_unresolved_line_range line_hash u (length lines) lines ≡ ok r
      → IsPlaced (length lines) (op_at ty r content i)
  resolve_unresolved_line_range-IsPlaced v w ty lines content i {u} {r} h k =
      subst (λ t. IsPlaced (length lines) (op_at t r content i))
        (kind_of-parse_line_range v w ty lines h) (resolved-IsPlaced u lines content i k)
