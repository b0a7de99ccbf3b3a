-- ===== src/Batch.antt =====
-- The line operations of `batch_edit` in src/mcp/fs/text_editing.rs: operations on one file whose
-- lines are all those of the original, their conflicts, and their application.
use octofs.Prelude.{
  ℕ, suc, ◌+◌, ◌-◌, min, Bool, true, false, ◌&&◌, ◌||◌, Option, none, some, List, [], ◌∷◌, ◌++◌,
  map, ◌==◌, ltb, leb, if◌then◌else◌, length, take, drop, Result, ok, err, filter,
}
use octofs.Prelude.Sort.{sort_by}
use octofs.Text.{Bytes}
use octofs.Editable.{
  Ending, EditableLine, EditableContent, line, incoming_content_lines, preserve_trailing_newline,
}
pub mod Flow
pub mod Simultaneous
pub mod Replaces
pub mod Positions
pub mod Inserts
pub mod Conflicts
pub mod Collects
pub mod Placed
pub mod Applies
pub mod Targets
pub mod TargetPlaces
pub mod Duplicates
pub mod Handler

pub data OperationType : Type 0 where
  insert_op replace_op : OperationType

-- `single`: insert after this line, 0 for the start of the file; `range`: replace these lines
pub data LineRange : Type 0 where
  single : ℕ → LineRange
  range : ℕ → ℕ → LineRange

pub record BatchOperation : Type 0 where
  pub operation_type : OperationType
  pub line_range : LineRange
  pub content : Bytes
  pub operation_index : ℕ

abbrev pub is_replace : BatchOperation → Bool
is_replace op = elim op.operation_type [ insert_op ↦ false | replace_op ↦ true ]

abbrev pub is_insert : BatchOperation → Bool
is_insert op = elim op.operation_type [ insert_op ↦ true | replace_op ↦ false ]

abbrev pub replace_range : LineRange → ℕ × ℕ
replace_range (range s e) = (s, e)
replace_range (single l) = (l, l)

abbrev pub insert_anchor : LineRange → ℕ
insert_anchor (single l) = l
insert_anchor (range s e) = s

-- The three messages of `detect_conflicts`, with the operations that they name.
pub data Conflict : Type 0 where
  overlapping : BatchOperation → BatchOperation → Conflict
  same_anchor : BatchOperation → BatchOperation → Conflict
  inside : BatchOperation → BatchOperation → Conflict

abbrev pub inside_conflict : BatchOperation → BatchOperation → Option Conflict
inside_conflict ins rep =
    let anchor = insert_anchor ins.line_range in
    if leb (replace_range rep.line_range).0 anchor && ltb anchor (replace_range rep.line_range).1
    then some (inside ins rep)
    else none

-- The body of the two loops.
unfoldable pub conflict_of : BatchOperation → BatchOperation → Option Conflict
conflict_of op1 op2 = elim op1.operation_type [
  | replace_op ↦ elim op2.operation_type [
    | replace_op ↦
        if leb (replace_range op1.line_range).0 (replace_range op2.line_range).1
          && leb (replace_range op2.line_range).0 (replace_range op1.line_range).1
        then some (overlapping op1 op2)
        else none
    | insert_op ↦ inside_conflict op2 op1
  ]
  | insert_op ↦ elim op2.operation_type [
    | insert_op ↦
        if insert_anchor op1.line_range == insert_anchor op2.line_range
        then some (same_anchor op1 op2)
        else none
    | replace_op ↦ inside_conflict op1 op2
  ]
]

unfoldable pub first_conflict : BatchOperation → List BatchOperation → Option Conflict
unfolding conflict_of
first_conflict op1 [] = none
first_conflict op1 (op2 ∷ ops) = elim (conflict_of op1 op2) [
  | none ↦ first_conflict op1 ops
  | some c ↦ some c
]

unfoldable pub detect_conflicts : List BatchOperation → Result Conflict (Unit {0})
unfolding first_conflict
detect_conflicts [] = ok tt
detect_conflicts (op ∷ ops) = elim (first_conflict op ops) [
  | none ↦ detect_conflicts ops
  | some c ↦ err c
]

pub data BatchError : Type 0 where
  not_one_indexed : BatchError
  beyond_file : ℕ → ℕ → ℕ → BatchError
  reversed : ℕ → ℕ → BatchError
  not_single : BatchError
  anchor_beyond_file : ℕ → ℕ → BatchError
  -- `lines.remove` out of range
  panicked : BatchError

-- The `(start, end, delta)` of a replacement; the delta is `added - removed`.
pub record Delta : Type 0 where
  pub start : ℕ
  pub end : ℕ
  pub added : ℕ
  pub removed : ℕ

abbrev pub content_lines_of : Ending → BatchOperation → List EditableLine
content_lines_of e op = map (λ t. line t e) (incoming_content_lines op.content)

abbrev pub Replaced : Type 0
Replaced = List EditableLine × List Delta

abbrev pub replace_lines : Ending → BatchOperation → Replaced → Result BatchError Replaced
replace_lines e op (lines, deltas) =
    let (start, end) = replace_range op.line_range in
    let new = content_lines_of e op in
    let old_count = end - start + 1 in
    if ltb (length lines) (start - 1 + old_count)
    then err panicked
    else ok (
      take (start - 1) lines ++ (new ++ drop (start - 1 + old_count) lines),
      deltas ++ record { start = start; end = end; added = length new; removed = old_count } ∷ [],
    )

-- The checks of a replacement, in their order.
abbrev pub check_replace : ℕ → BatchOperation → Option BatchError
check_replace original_len op =
    let (start, end) = replace_range op.line_range in
    if start == 0 || end == 0
    then some not_one_indexed
    else if ltb original_len start || ltb original_len end
    then some (beyond_file start end original_len)
    else if ltb end start
    then some (reversed start end)
    else none

unfoldable pub replace_one : ℕ → Ending → BatchOperation → Replaced → Result BatchError Replaced
unfolding incoming_content_lines
replace_one original_len e op st = elim (check_replace original_len op) [
  | some x ↦ err x
  | none ↦ replace_lines e op st
]

unfoldable pub apply_replaces :
    ℕ → Ending → List BatchOperation → Replaced → Result BatchError Replaced
unfolding replace_one
apply_replaces original_len e [] st = ok st
apply_replaces original_len e (op ∷ ops) st = elim (replace_one original_len e op st) [
  | ok st' ↦ apply_replaces original_len e ops st'
  | err x ↦ err x
]

-- The lines that the replacements up to an anchor add, and those that they remove.
unfoldable pub gained : ℕ → List Delta → ℕ
gained anchor [] = 0
gained anchor (d ∷ ds) = (if leb d.end anchor then d.added else 0) + gained anchor ds

unfoldable pub lost : ℕ → List Delta → ℕ
lost anchor [] = 0
lost anchor (d ∷ ds) = (if leb d.end anchor then d.removed else 0) + lost anchor ds

abbrev pub insert_at : ℕ → List EditableLine → List EditableLine → List EditableLine
insert_at insert_pos new lines =
    if insert_pos == 0
    then new ++ lines
    else take (min insert_pos (length lines)) lines
      ++ (new ++ drop (min insert_pos (length lines)) lines)

-- `adjusted.max(0)` is the difference on ℕ, which stops at 0.
unfoldable pub insert_one :
    ℕ
    → Ending
    → List Delta
    → BatchOperation
    → List EditableLine
    → Result BatchError (List EditableLine)
unfolding gained lost incoming_content_lines
insert_one original_len e deltas op lines = elim op.line_range [
  | range s t ↦ err not_single
  | single anchor ↦
      if ltb original_len anchor
      then err (anchor_beyond_file anchor original_len)
      else ok (
          insert_at (anchor + gained anchor deltas - lost anchor deltas) (content_lines_of e op)
            lines)
]

unfoldable pub apply_inserts :
    ℕ
    → Ending
    → List Delta
    → List BatchOperation
    → List EditableLine
    → Result BatchError (List EditableLine)
unfolding insert_one
apply_inserts original_len e deltas [] lines = ok lines
apply_inserts original_len e deltas (op ∷ ops) lines =
    elim (insert_one original_len e deltas op lines) [
      | ok lines' ↦ apply_inserts original_len e deltas ops lines'
      | err x ↦ err x
    ]

abbrev pub start_of : BatchOperation → ℕ
start_of op = (replace_range op.line_range).0

abbrev pub end_of : BatchOperation → ℕ
end_of op = (replace_range op.line_range).1

abbrev pub anchor_of : BatchOperation → ℕ
anchor_of op = insert_anchor op.line_range

-- The highest first.
abbrev pub by_start : BatchOperation → BatchOperation → Bool
by_start a b = leb (start_of b) (start_of a)

abbrev pub by_anchor : BatchOperation → BatchOperation → Bool
by_anchor a b = leb (anchor_of b) (anchor_of a)

abbrev pub finish :
    EditableContent → Result BatchError (List EditableLine) → Result BatchError EditableContent
finish c (ok ls) = ok (preserve_trailing_newline (record c { lines = ls }))
finish c (err x) = err x

abbrev pub insert_phase :
    EditableContent
    → List BatchOperation
    → Result BatchError Replaced
    → Result BatchError (List EditableLine)
insert_phase c inserts (err x) = err x
insert_phase c inserts (ok (lines, deltas)) =
    apply_inserts (length c.lines) c.dominant_ending deltas inserts lines

unfoldable pub apply_batch_operations :
    EditableContent → List BatchOperation → Result BatchError EditableContent
unfolding filter sort_by apply_replaces apply_inserts preserve_trailing_newline
apply_batch_operations original operations = finish original (
    insert_phase original (sort_by by_anchor (filter is_insert operations)) (
      apply_replaces (length original.lines) original.dominant_ending
        (sort_by by_start (filter is_replace operations)) (original.lines, [])))
