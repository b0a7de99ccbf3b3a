-- ===== src/Batch/Duplicates.antt =====
-- The checks of `batch_edit` that refuse content which repeats the lines around its target:
-- `is_structural_noise`, `check_replace_duplicates` and the loop of the handler.
use octofs.Prelude.{
  ℕ, zero, suc, ◌+◌, ◌-◌, min, Bool, true, false, not, ◌&&◌, ◌||◌, Option, none, some, List, [],
  ◌∷◌, ◌==◌, ltb, leb, if◌then◌else◌, length, get_or, take, drop,
}
use octofs.Text.{Bytes, bytes_eq, is_empty}
use octofs.Editable.{incoming_content_lines}
use octofs.Batch.{BatchOperation, insert_op, replace_op, single, range, replace_range}

-- How many bytes the white space character at the start takes, 0 where there is none.
unfoldable pub white_len : Bytes → ℕ
white_len s =
    let c = get_or s 0 0 in
    let d = get_or s 1 0 in
    let f = get_or s 2 0 in
    if is_empty s
    then 0
    else if (leb 9 c && leb c 13) || c == 32
    then 1
    else if c == 0xc2 && (d == 0x85 || d == 0xa0)
    then 2
    else if c == 0xe1 && (d == 0x9a && f == 0x80)
    then 3
    else if c == 0xe2
        && ((d == 0x80 && ((leb 0x80 f && leb f 0x8a) || (f == 0xa8 || (f == 0xa9 || f == 0xaf))))
            || (d == 0x81 && f == 0x9f))
    then 3
    else if c == 0xe3 && (d == 0x80 && f == 0x80)
    then 3
    else 0

-- White space only, behind the rest of a character.
unfoldable pub all_white : ℕ → Bytes → Bool
unfolding white_len
all_white skip [] = true
all_white zero (c ∷ cs) =
    let rest = all_white (white_len (c ∷ cs) - 1) cs in
    if white_len (c ∷ cs) == 0 then false else rest
all_white (suc k) (c ∷ cs) = all_white k cs

unfoldable pub trim_start : ℕ → Bytes → Bytes
unfolding white_len
trim_start skip [] = []
trim_start zero (c ∷ cs) =
    let rest = trim_start (white_len (c ∷ cs) - 1) cs in
    if white_len (c ∷ cs) == 0 then c ∷ cs else rest
trim_start (suc k) (c ∷ cs) = trim_start k cs

unfoldable pub trim_end : Bytes → Bytes
unfolding all_white
trim_end [] = []
trim_end (c ∷ cs) = let rest = trim_end cs in if all_white 0 (c ∷ cs) then [] else c ∷ rest

abbrev pub is_trailer : ℕ → Bool
is_trailer c = c == b',' || c == b';'

-- `trim_end_matches([',', ';'])`
unfoldable pub trim_trailers : Bytes → Bytes
trim_trailers [] = []
trim_trailers (c ∷ cs) =
    let rest = trim_trailers cs in if is_empty rest && is_trailer c then [] else c ∷ rest

abbrev pub is_closer : Bytes → Bool
is_closer [] = false
is_closer (c ∷ []) = c == b'}' || (c == b']' || c == b')')
is_closer (c ∷ d ∷ cs) = false

unfoldable pub is_structural_noise : Bytes → Bool
unfolding trim_start trim_end trim_trailers
is_structural_noise line =
    let trimmed = trim_end (trim_start 0 line) in
    if is_empty trimmed then true else is_closer (trim_trailers trimmed)

-- The messages, by the operation's index and the lines that are repeated.
pub data Duplicate : Type 0 where
  line_before line_after : ℕ → ℕ → Duplicate
  inserted_line : ℕ → ℕ → Duplicate
  inserted_block : ℕ → ℕ → ℕ → Duplicate

abbrev pub last_or : List Bytes → Bytes → Bytes
last_or ls d = get_or ls (length ls - 1) d

abbrev pub repeats : Bytes → Bytes → Bool
repeats content line = bytes_eq content line && not (is_structural_noise line)

abbrev pub duplicate_before : List Bytes → List Bytes → ℕ → Bool
duplicate_before content_lines file_lines start_line =
    ltb 1 start_line && repeats (get_or content_lines 0 []) (get_or file_lines (start_line - 2) [])

abbrev pub duplicate_after : List Bytes → List Bytes → ℕ → Bool
duplicate_after content_lines file_lines end_line =
    ltb end_line (length file_lines)
    && repeats (last_or content_lines []) (get_or file_lines end_line [])

unfoldable pub check_replace_duplicates : List Bytes → List Bytes → ℕ → ℕ → ℕ → Option Duplicate
unfolding is_structural_noise bytes_eq
check_replace_duplicates content_lines file_lines start_line end_line operation_index =
    if is_empty content_lines
    then none
    else if duplicate_before content_lines file_lines start_line
    then some (line_before operation_index (start_line - 1))
    else if duplicate_after content_lines file_lines end_line
    then some (line_after operation_index (end_line + 1))
    else none

unfoldable pub lines_eq : List Bytes → List Bytes → Bool
unfolding bytes_eq
lines_eq [] [] = true
lines_eq [] (y ∷ ys) = false
lines_eq (x ∷ xs) [] = false
lines_eq (x ∷ xs) (y ∷ ys) = bytes_eq x y && lines_eq xs ys

-- An inserted line must not repeat the line behind it, a block not the block behind it.
unfoldable pub check_insert_duplicates : List Bytes → List Bytes → ℕ → ℕ → Option Duplicate
unfolding is_structural_noise bytes_eq lines_eq
check_insert_duplicates content_lines original_lines insert_after operation_index =
    if length content_lines == 1
    then (if ltb insert_after (length original_lines)
          && repeats (get_or content_lines 0 []) (get_or original_lines insert_after [])
        then some (inserted_line operation_index insert_after)
        else none)
    else let available = length original_lines - insert_after in
      let check_len = min (length content_lines) available in
      if leb 2 check_len
        && lines_eq (take check_len content_lines)
            (take check_len (drop insert_after original_lines))
      then some (inserted_block operation_index insert_after check_len)
      else none

-- The body of the loop over the operations.
unfoldable pub duplicate_of : List Bytes → BatchOperation → Option Duplicate
unfolding incoming_content_lines check_replace_duplicates check_insert_duplicates
duplicate_of original_lines op =
    let content_lines = incoming_content_lines op.content in
    if is_empty content_lines then none else elim op.operation_type [
      | replace_op ↦
          check_replace_duplicates content_lines original_lines (replace_range op.line_range).0
            (replace_range op.line_range).1 op.operation_index
      | insert_op ↦ elim op.line_range [
        | single line ↦ check_insert_duplicates content_lines original_lines line op.operation_index
        | range s e ↦ none
      ]
    ]

unfoldable pub first_duplicate : List Bytes → List BatchOperation → Option Duplicate
unfolding duplicate_of
first_duplicate original_lines [] = none
first_duplicate original_lines (op ∷ ops) = elim (duplicate_of original_lines op) [
  | some d ↦ some d
  | none ↦ first_duplicate original_lines ops
]
