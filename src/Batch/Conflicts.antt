-- ===== src/Batch/Conflicts.antt =====
-- What `detect_conflicts` finds: nothing exactly where any two operations stay apart.
use octofs.Prelude.{◌≤◌, ◌<◌, ◌≡◌, ◌≢◌, ◌↔◌, ◌⊎◌, none, List, [], ◌∷◌, arith, All, ok}
use octofs.Prelude.Pairs.{Pairwise}
use octofs.Batch.{
  BatchOperation, insert_op, replace_op, start_of, end_of, anchor_of, conflict_of, first_conflict,
  detect_conflicts,
}

-- Ranges that do not meet, insertions into different gaps, and no insertion inside a range.
abbrev pub Apart : BatchOperation → BatchOperation → Type 0
Apart a b = elim a.operation_type [
  | replace_op ↦ elim b.operation_type [
    | replace_op ↦ (end_of a < start_of b) ⊎ (end_of b < start_of a)
    | insert_op ↦ (anchor_of b < start_of a) ⊎ (end_of a ≤ anchor_of b)
  ]
  | insert_op ↦ elim b.operation_type [
    | replace_op ↦ (anchor_of a < start_of b) ⊎ (end_of b ≤ anchor_of a)
    | insert_op ↦ anchor_of a ≢ anchor_of b
  ]
]

conflict_of_iff : (a b : BatchOperation) → (conflict_of a b ≡ none) ↔ Apart a b
unfolding conflict_of
conflict_of_iff a b = ground arith

pub Apart-flip : (a b : BatchOperation) → Apart a b → Apart b a
Apart-flip a b h = ground arith

first_conflict_iff :
    (a : BatchOperation) (ops : List BatchOperation)
    → (first_conflict a ops ≡ none) ↔ All (Apart a) ops
unfolding first_conflict
first_conflict_iff a [] = ground arith
first_conflict_iff a (b ∷ ops) = ground (arith, conflict_of_iff a b, first_conflict_iff a ops)

-- No conflict is reported exactly where any two of the operations stay apart: two replacements have
-- ranges that do not meet, two insertions have different anchors, and no insertion's anchor is a
-- line of a replaced range other than its last.
pub detect_conflicts_iff :
    (ops : List BatchOperation) → (detect_conflicts ops ≡ ok tt) ↔ Pairwise Apart ops
unfolding detect_conflicts
detect_conflicts_iff [] = ground arith
detect_conflicts_iff (op ∷ ops) =
    ground (arith, first_conflict_iff op ops, detect_conflicts_iff ops)
