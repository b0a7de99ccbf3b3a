-- ===== src/Batch/Targets.antt =====
-- The targets of `batch_edit` operations: `parse_line_range` and `resolve_unresolved_line_range`.
use octofs.Prelude.{
  ℕ, zero, suc, Option, none, some, List, [], ◌∷◌, ◌++◌, ltb, leb, if◌then◌else◌, length, Result,
  ok, err,
}
use octofs.Prelude.Int.{ℤ, pos, negsuc}
use octofs.Text.{Bytes}
use octofs.LineHash.{LineId, VerifyError, line_id_at, verify_line_id}
use octofs.LineHash.Endpoint.{Chars, Value, Endpoint, EndpointError, parse_endpoint}
use octofs.Batch.{OperationType, insert_op, replace_op, LineRange, single, range}

pub data UnresolvedLineRange : Type 0 where
  anchor : ℤ → UnresolvedLineRange
  id_anchor : ℕ → Chars → UnresolvedLineRange
  id_range : ℕ × Chars → ℕ × Chars → UnresolvedLineRange

-- The messages of `parse_line_range`; a hint names the id of the line that a number meant.
pub data TargetError : Type 0 where
  invalid_start invalid_end : EndpointError → TargetError
  not_verifiable : ℤ → List LineId → TargetError
  not_ids : List LineId → TargetError

-- The messages of `resolve_unresolved_line_range`.
pub data ResolveError : Type 0 where
  invalid_anchor : ℤ → ResolveError
  unverified : List VerifyError → ResolveError
  reversed_range : ℕ × Chars → ℕ × Chars → ResolveError

module _ (line_hash : Bytes → Bytes) where
  abbrev pub id_hint : List Bytes → ℤ → List LineId
  id_hint lines (negsuc n) = []
  id_hint lines (pos n) =
      if ltb 0 n
      then (if leb n (length lines) then line_id_at line_hash lines n ∷ [] else [])
      else []

  abbrev pub hint_of : List Bytes → Endpoint → List LineId
  hint_of lines (Endpoint.number n) = id_hint lines n
  hint_of lines (Endpoint.id line hash) = []

  abbrev pub insert_target : List Bytes → Endpoint → Result TargetError UnresolvedLineRange
  insert_target lines (Endpoint.number (pos zero)) = ok (anchor (pos zero))
  insert_target lines (Endpoint.number (negsuc zero)) = ok (anchor (negsuc zero))
  insert_target lines (Endpoint.number (pos (suc n))) =
      err (not_verifiable (pos (suc n)) (id_hint lines (pos (suc n))))
  insert_target lines (Endpoint.number (negsuc (suc n))) =
      err (not_verifiable (negsuc (suc n)) (id_hint lines (negsuc (suc n))))
  insert_target lines (Endpoint.id line hash) = ok (id_anchor line hash)

  abbrev pub replace_target :
      List Bytes → Endpoint → Endpoint → Result TargetError UnresolvedLineRange
  replace_target lines (Endpoint.id sl sh) (Endpoint.id el eh) = ok (id_range (sl, sh) (el, eh))
  replace_target lines (Endpoint.number n) e = err (not_ids (id_hint lines n ++ hint_of lines e))
  replace_target lines (Endpoint.id sl sh) (Endpoint.number n) = err (not_ids (id_hint lines n))

  abbrev pub with_end :
      List Bytes → Endpoint → Result EndpointError Endpoint → Result TargetError UnresolvedLineRange
  with_end lines start (err x) = err (invalid_end x)
  with_end lines start (ok end) = replace_target lines start end

  abbrev pub target_of :
      OperationType → Option Value → List Bytes → Endpoint → Result TargetError UnresolvedLineRange
  target_of insert_op end_val lines start = insert_target lines start
  target_of replace_op none lines start = replace_target lines start start
  target_of replace_op (some v) lines start = with_end lines start (parse_endpoint v)

  unfoldable pub parse_line_range :
      Value → Option Value → OperationType → List Bytes → Result TargetError UnresolvedLineRange
  unfolding parse_endpoint
  parse_line_range start_val end_val operation_type lines = elim (parse_endpoint start_val) [
    | err x ↦ err (invalid_start x)
    | ok start ↦ target_of operation_type end_val lines start
  ]

  -- Both ends are verified before either failure is reported.
  abbrev pub resolve_ends :
      ℕ × Chars
      → ℕ × Chars
      → Result VerifyError ℕ
      → Result VerifyError ℕ
      → Result ResolveError LineRange
  resolve_ends start end (ok s) (ok e) =
      if ltb e s then err (reversed_range start end) else ok (range s e)
  resolve_ends start end (ok s) (err y) = err (unverified (y ∷ []))
  resolve_ends start end (err x) (ok e) = err (unverified (x ∷ []))
  resolve_ends start end (err x) (err y) = err (unverified (x ∷ y ∷ []))

  abbrev pub resolve_anchor : Result VerifyError ℕ → Result ResolveError LineRange
  resolve_anchor (ok line) = ok (single line)
  resolve_anchor (err x) = err (unverified (x ∷ []))

  unfoldable pub resolve_unresolved_line_range :
      UnresolvedLineRange → ℕ → List Bytes → Result ResolveError LineRange
  unfolding verify_line_id
  resolve_unresolved_line_range (anchor (pos zero)) total_lines lines = ok (single 0)
  resolve_unresolved_line_range (anchor (negsuc zero)) total_lines lines = ok (single total_lines)
  resolve_unresolved_line_range (anchor (pos (suc n))) total_lines lines =
      err (invalid_anchor (pos (suc n)))
  resolve_unresolved_line_range (anchor (negsuc (suc n))) total_lines lines =
      err (invalid_anchor (negsuc (suc n)))
  resolve_unresolved_line_range (id_anchor line hash) total_lines lines =
      resolve_anchor (verify_line_id line_hash line hash lines)
  resolve_unresolved_line_range (id_range start end) total_lines lines =
      resolve_ends start end (verify_line_id line_hash start.0 start.1 lines)
        (verify_line_id line_hash end.0 end.1 lines)
