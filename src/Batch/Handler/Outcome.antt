-- ===== src/Batch/Handler/Outcome.antt =====
-- What a batch leaves when it is accepted.
use octofs.Prelude.{
  ℕ, ◌+◌, ◌≡◌, refl, ap, subst, Bool, true, false, Option, none, some, List, [], ◌∷◌, if◌then◌else◌,
  ltb, length, Result, ok, err, All,
}
use octofs.Text.{Bytes, lines, is_empty}
use octofs.Editable.{EditableContent, from_raw, normalized, preserve_trailing_newline}
use octofs.Editable.Content.{from_raw-IsValid}
use octofs.Editable.Counts.{length-lines}
use octofs.Batch.{BatchOperation, Conflict, detect_conflicts, BatchError, apply_batch_operations}
use octofs.Batch.Simultaneous.{simultaneous}
use octofs.Batch.Placed.{IsPlaced}
use octofs.Batch.Applies.{apply_batch_operations-simultaneous}
use octofs.Batch.Targets.{ResolveError}
use octofs.Batch.Duplicates.{Duplicate, first_duplicate}
use octofs.Batch.Handler.Kinds.{parse_operation-IsKind, resolve_operation-IsPlaced}
use octofs.Batch.Handler.Meaning.{Means}
use octofs.Batch.Handler.Resolved.{operation-Means}
use octofs.Batch.Handler.{
  max_operations, OperationValue, ParseFailure, UnresolvedBatchOperation, BatchFailure,
  parse_operation, parse_operations, resolve_operation, resolve_operations, batch_edit, Resolved,
  apply_resolved, Parsed, apply_parsed, unless_conflict, add_parsed, add_resolved,
}

-- Value by value from this index on, the operations are what the values ask for, and no more.
abbrev pub MeanAll :
    (Bytes → Bytes) → List Bytes → ℕ → List OperationValue → List BatchOperation → Type 0
MeanAll line_hash ls index [] [] = Unit
MeanAll line_hash ls index [] (op ∷ ops) = ⊥
MeanAll line_hash ls index (v ∷ vs) [] = ⊥
MeanAll line_hash ls index (v ∷ vs) (op ∷ ops) =
    Means line_hash ls index v op × MeanAll line_hash ls (index + 1) vs ops

-- An accepted batch: its operations are those of the call, stand in the file, and together they make
-- the new content.
pub record Accepted (line_hash : Bytes → Bytes) (original : EditableContent)
    (values : List OperationValue) (edited : EditableContent) : Type 0 where
  pub operations : List BatchOperation
  pub meant : MeanAll line_hash (lines (normalized original)) 0 values operations
  pub placed : All (IsPlaced (length original.lines)) operations
  pub no_conflict : detect_conflicts operations ≡ ok tt
  pub content :
      edited
      ≡ preserve_trailing_newline (record original {
        lines = simultaneous original.dominant_ending operations original.lines;
      })

module _ (line_hash : Bytes → Bytes) where
  -- No operation is dropped where none failed: each value has its own parsed one.
  abbrev AllParsed : List Bytes → ℕ → List OperationValue → List UnresolvedBatchOperation → Type 0
  AllParsed ls index [] [] = Unit
  AllParsed ls index [] (u ∷ us) = ⊥
  AllParsed ls index (v ∷ vs) [] = ⊥
  AllParsed ls index (v ∷ vs) (u ∷ us) =
      (parse_operation line_hash ls index v ≡ ok u) × AllParsed ls (index + 1) vs us

  AllParsed-add :
      (ls : List Bytes) (index : ℕ) (v : OperationValue) (vs : List OperationValue)
      (r : Result ParseFailure UnresolvedBatchOperation) (p : Parsed line_hash)
      {us : List UnresolvedBatchOperation}
      → parse_operation line_hash ls index v ≡ r
      → ((os : List UnresolvedBatchOperation) → p ≡ ([], os) → AllParsed ls (index + 1) vs os)
      → add_parsed line_hash index r p ≡ ([], us)
      → AllParsed ls index (v ∷ vs) us
  AllParsed-add ls index v vs (err x) (fs, os) k ih h = let e = ap (λ t. t.0) h in cc
  AllParsed-add ls index v vs (ok u) (fs, os) k ih h =
      let a = ih os (ap (λ f. (f, os)) (ap (λ t. t.0) h)) in
      subst (AllParsed ls index (v ∷ vs)) (ap (λ t. t.1) h) (k, a)

  parse_operations-AllParsed :
      (ls : List Bytes) (index : ℕ) (vs : List OperationValue) (us : List UnresolvedBatchOperation)
      → parse_operations line_hash ls index vs ≡ ([], us)
      → AllParsed ls index vs us
  unfolding parse_operations
  parse_operations-AllParsed ls index [] us h = subst (AllParsed ls index []) (ap (λ t. t.1) h) tt
  parse_operations-AllParsed ls index (v ∷ vs) us h =
      AllParsed-add ls index v vs (parse_operation line_hash ls index v)
        (parse_operations line_hash ls (index + 1) vs) refl
        (λ os e. parse_operations-AllParsed ls (index + 1) vs os e) h

  abbrev AllResolved : List Bytes → List UnresolvedBatchOperation → List BatchOperation → Type 0
  AllResolved ls [] [] = Unit
  AllResolved ls [] (op ∷ ops) = ⊥
  AllResolved ls (u ∷ us) [] = ⊥
  AllResolved ls (u ∷ us) (op ∷ ops) =
      (resolve_operation line_hash ls u ≡ ok op) × AllResolved ls us ops

  AllResolved-add :
      (ls : List Bytes) (u : UnresolvedBatchOperation) (us : List UnresolvedBatchOperation)
      (r : Result ResolveError BatchOperation) (p : Resolved line_hash) {ops : List BatchOperation}
      → resolve_operation line_hash ls u ≡ r
      → ((os : List BatchOperation) → p ≡ ([], os) → AllResolved ls us os)
      → add_resolved line_hash u.operation_index r p ≡ ([], ops)
      → AllResolved ls (u ∷ us) ops
  AllResolved-add ls u us (err x) (fs, os) k ih h = let e = ap (λ t. t.0) h in cc
  AllResolved-add ls u us (ok op) (fs, os) k ih h =
      let a = ih os (ap (λ f. (f, os)) (ap (λ t. t.0) h)) in
      subst (AllResolved ls (u ∷ us)) (ap (λ t. t.1) h) (k, a)

  resolve_operations-AllResolved :
      (ls : List Bytes) (us : List UnresolvedBatchOperation) (ops : List BatchOperation)
      → resolve_operations line_hash ls us ≡ ([], ops)
      → AllResolved ls us ops
  unfolding resolve_operations
  resolve_operations-AllResolved ls [] ops h = subst (AllResolved ls []) (ap (λ t. t.1) h) tt
  resolve_operations-AllResolved ls (u ∷ us) ops h =
      AllResolved-add ls u us (resolve_operation line_hash ls u)
        (resolve_operations line_hash ls us) refl
        (λ os e. resolve_operations-AllResolved ls us os e) h

  AllResolved-MeanAll :
      (ls : List Bytes) (index : ℕ) (vs : List OperationValue) (us : List UnresolvedBatchOperation)
      (ops : List BatchOperation)
      → AllParsed ls index vs us
      → AllResolved ls us ops
      → MeanAll line_hash ls index vs ops × All (IsPlaced (length ls)) ops
  AllResolved-MeanAll ls index [] [] [] p r = (tt, tt)
  AllResolved-MeanAll ls index [] [] (op ∷ ops) p r = absurd r
  AllResolved-MeanAll ls index [] (u ∷ us) ops p r = absurd p
  AllResolved-MeanAll ls index (v ∷ vs) [] ops p r = absurd p
  AllResolved-MeanAll ls index (v ∷ vs) (u ∷ us) [] p r = absurd r
  AllResolved-MeanAll ls index (v ∷ vs) (u ∷ us) (op ∷ ops) p r =
      let (m, a) = AllResolved-MeanAll ls (index + 1) vs us ops p.1 r.1 in
      (
        (operation-Means line_hash ls index v u p.0 r.0, m),
        (
          resolve_operation-IsPlaced line_hash ls u
              (parse_operation-IsKind line_hash ls index v p.0) r.0,
          a,
        ),
      )

  unless_conflict-ok :
      (d : Result Conflict (Unit {0})) (x : Option Duplicate)
      (r : Result BatchError EditableContent) {edited : EditableContent}
      → unless_conflict line_hash d x r ≡ ok edited
      → (d ≡ ok tt) × (r ≡ ok edited)
  unless_conflict-ok (err c) x r h = cc
  unless_conflict-ok (ok tt) (some d) r h = cc
  unless_conflict-ok (ok tt) none (err y) h = cc
  unless_conflict-ok (ok tt) none (ok e) h = (refl, cc)

  apply_resolved-Accepted :
      (original : EditableContent) (vs : List OperationValue) (p : Resolved line_hash)
      {edited : EditableContent}
      → ((os : List BatchOperation)
          → p ≡ ([], os)
          → MeanAll line_hash (lines (normalized original)) 0 vs os
            × All (IsPlaced (length original.lines)) os)
      → apply_resolved line_hash original (lines (normalized original)) p ≡ ok edited
      → Accepted line_hash original vs edited
  apply_resolved-Accepted original vs (f ∷ fs, ops) k h = cc
  apply_resolved-Accepted original vs ([], ops) {edited} k h =
      let (m, a) = k ops refl in
      let (d, r) =
        unless_conflict-ok (detect_conflicts ops)
          (first_duplicate (lines (normalized original)) ops) _ h in
      record {
        operations = ops;
        meant = m;
        placed = a;
        no_conflict = d;
        content = same (apply_batch_operations-simultaneous original ops a d) r;
      }
    where
      same :
          {x y : EditableContent}
          → apply_batch_operations original ops ≡ ok x
          → apply_batch_operations original ops ≡ ok y
          → y ≡ x
      same p q = cc

  apply_parsed-Accepted :
      (original : EditableContent) (vs : List OperationValue) (p : Parsed line_hash)
      {edited : EditableContent}
      → length (lines (normalized original)) ≡ length original.lines
      → ((os : List UnresolvedBatchOperation)
          → p ≡ ([], os)
          → AllParsed (lines (normalized original)) 0 vs os)
      → apply_parsed line_hash original (lines (normalized original)) p ≡ ok edited
      → Accepted line_hash original vs edited
  apply_parsed-Accepted original vs (f ∷ fs, us) e k h = cc
  apply_parsed-Accepted original vs ([], us) e k h =
      let ls = lines (normalized original) in
      apply_resolved-Accepted original vs (resolve_operations line_hash ls us)
        (λ os q.
          let (m, a) =
            AllResolved-MeanAll ls 0 vs us os (k us refl)
              (resolve_operations-AllResolved ls us os q) in
          (m, subst (λ n. All (IsPlaced n) os) e a))
        h

  guarded :
      (a b : Bool) (x y : BatchFailure) (r : Result BatchFailure EditableContent)
      {edited : EditableContent}
      → (if a then err x else if b then err y else r) ≡ ok edited
      → r ≡ ok edited
  guarded true b x y r h = cc
  guarded false true x y r h = cc
  guarded false false x y r h = h

  -- A batch that is not refused is applied as a whole. Its operations are those of the call, one for
  -- each value and in their order: of the type that the value names, with its text (a blank line for an
  -- insertion of nothing), and at its target, which is before the first line for 0, behind the last for
  -- -1, and else the lines of its ids, each with the hash of its id, in order. Each stands in the file,
  -- no two conflict, and the edited content is what they mean together on the lines of the original.
  pub batch_edit-Accepted :
      (raw : Bytes) (operations : List OperationValue) {edited : EditableContent}
      → batch_edit line_hash raw operations ≡ ok edited
      → Accepted line_hash (from_raw raw) operations edited
  unfolding batch_edit
  batch_edit-Accepted raw operations h =
      let ls = lines (normalized (from_raw raw)) in
      apply_parsed-Accepted (from_raw raw) operations (parse_operations line_hash ls 0 operations)
        (length-lines (from_raw raw) (from_raw-IsValid raw))
        (λ os e. parse_operations-AllParsed ls 0 operations os e)
        (guarded (is_empty operations) (ltb max_operations (length operations)) _ _ _ h)
