-- ===== src/StrReplace.antt =====
-- The replacement of exact texts in src/mcp/fs/text_editing.rs (`str_replace_spec` up to its fuzzy
-- stage) and src/mcp/fs/multi_edit.rs (`replace`).
use octofs.Prelude.{
  Result, ok, err, ◌>>=◌, ℕ, zero, suc, ◌+◌, Bool, true, false, not, ◌&&◌, ◌||◌, Option, none, some,
  List, [], ◌∷◌, ◌++◌, map, ◌==◌, ltb, leb, if◌then◌else◌, length, take, drop,
}
use octofs.LineHash.{LineId, line_id_at}
use octofs.Text.{
  Bytes, lf, cr, is_empty, find, find_from, replace, replace_from, match_indices,
  match_indices_from, lines, bytes_eq,
}
use octofs.Editable.{
  EditableContent, EditError, Edited, from_raw, normalized, rendered, replace_normalized_range,
  is_none, preserve_trailing_newline, sanitize_incoming_content,
}
pub mod Utf8
pub mod Matches
pub mod Steps
pub mod Replaces
pub mod Terminators
pub mod Edits

abbrev pub cons_position : ℕ → Option (List ℕ) → Option (List ℕ)
cons_position i none = none
cons_position i (some positions) = some (i ∷ positions)

-- The loop of `find_all_positions`, with a bound on its rounds: `none` where they do not end within it.
unfoldable pub find_all_positions : ℕ → Bytes → Bytes → ℕ → Option (List ℕ)
find_all_positions zero haystack needle start = none
find_all_positions (suc rounds) haystack needle start = elim (find needle (drop start haystack)) [
  | none ↦ some []
  | some pos ↦
      cons_position (start + pos)
        (find_all_positions rounds haystack needle (start + pos + length needle))
]

-- `for position in positions.rev()`: the last position first
unfoldable pub replace_positions : ℕ → Bytes → EditableContent → List ℕ → Edited
replace_positions len new c [] = ok c
replace_positions len new c (position ∷ positions) =
    replace_positions len new c positions >>= λ edited.
    replace_normalized_range edited position (position + len) new

-- `content[..offset].matches('\n').count() + 1`
abbrev pub count_byte : ℕ → Bytes → ℕ
count_byte b [] = 0
count_byte b (c ∷ s) = (if c == b then 1 else 0) + count_byte b s

abbrev pub byte_offset_to_line : Bytes → ℕ → ℕ
byte_offset_to_line content offset = count_byte lf (take offset content) + 1

abbrev pub escaped_n : Bytes
escaped_n = 92 ∷ b'n' ∷ []

abbrev pub escaped_t : Bytes
escaped_t = 92 ∷ b't' ∷ []

abbrev pub escaped_r : Bytes
escaped_r = 92 ∷ b'r' ∷ []

unfoldable pub unescape_literals : Bytes → Bytes
unfolding replace_from
unescape_literals s =
    replace escaped_r (cr ∷ []) (replace escaped_t (b'\t' ∷ []) (replace escaped_n (lf ∷ []) s))

-- The characters of a text of UTF-8.
abbrev pub count_chars : Bytes → ℕ
count_chars [] = 0
count_chars (b ∷ s) = (if ltb b 128 || leb 192 b then 1 else 0) + count_chars s

-- `content.matches(old).count()`: an empty text is found around every character
unfoldable pub occurrences : Bytes → Bytes → ℕ
unfolding match_indices_from
occurrences old content =
    if is_empty old then count_chars content + 1 else length (match_indices old content)

-- `s.contains(old)`
unfoldable pub contains : Bytes → Bytes → Bool
unfolding find_from
contains old s = not (is_none (find old s))

-- How an exact stage ends; `endless` where its search for the positions does not.
pub data Outcome : Type 0 where
  edited_as : EditableContent → Outcome
  several : List LineId → Outcome
  failed : EditError → Outcome
  endless : Outcome

abbrev pub outcome_of : Edited → Outcome
outcome_of (err e) = failed e
outcome_of (ok edited) = edited_as (preserve_trailing_newline edited)

abbrev pub position_or : Option ℕ → ℕ
position_or none = 0
position_or (some position) = position

-- The edit of `apply_unique_replacement`.
unfoldable pub replace_unique : EditableContent → Bytes → Bytes → Bytes → Outcome
unfolding find_from replace_normalized_range preserve_trailing_newline
replace_unique original content old new =
    let match_offset = position_or (find old content) in
    outcome_of (replace_normalized_range original match_offset (match_offset + length old) new)

abbrev pub replace_at : EditableContent → Bytes → Bytes → Option (List ℕ) → Outcome
replace_at original old new none = endless
replace_at original old new (some positions) =
    outcome_of (replace_positions (length old) new original positions)

-- The edit of `apply_replace_all`.
unfoldable pub replace_all : EditableContent → Bytes → Bytes → Bytes → Outcome
unfolding find_all_positions replace_positions preserve_trailing_newline
replace_all original content old new =
    replace_at original old new (find_all_positions (suc (length content)) content old 0)

module _ (line_hash : Bytes → Bytes) where
  abbrev pub ids_of : Bytes → List ℕ → List LineId
  ids_of content positions =
      map (λ (i : ℕ). line_id_at line_hash (lines content) (byte_offset_to_line content i))
        positions

  abbrev pub several_at : Bytes → Option (List ℕ) → Outcome
  several_at content none = endless
  several_at content (some positions) = several (ids_of content positions)

  -- Stage 1; `none` where it finds nothing.
  unfoldable pub exact_stage : EditableContent → Bytes → Bytes → Bytes → Bool → Option Outcome
  unfolding occurrences replace_all replace_unique find_all_positions lines
  exact_stage original content old new all =
      let n = occurrences old content in
      if all && leb 1 n
      then some (replace_all original content old new)
      else if n == 1
      then some (replace_unique original content old new)
      else if ltb 1 n
      then some (several_at content (find_all_positions (suc (length content)) content old 0))
      else none

  -- Stage 1.5, with the escapes of the texts interpreted.
  unfoldable pub escaped_stage : EditableContent → Bytes → Bytes → Bytes → Bool → Option Outcome
  unfolding contains unescape_literals occurrences replace_all replace_unique bytes_eq
      sanitize_incoming_content
  escaped_stage original content old new all =
      let un_old = unescape_literals old in
      let n = occurrences un_old content in
      let un_new = sanitize_incoming_content (unescape_literals new) in
      if (contains escaped_n old || contains escaped_t old || contains escaped_r old)
        && not (bytes_eq un_old old)
      then if all && leb 1 n
        then some (replace_all original content un_old un_new)
        else if n == 1
        then some (replace_unique original content un_old un_new)
        else none
      else none

  -- `str_replace_spec` on the text of the file, up to its fuzzy stage, which it goes on to on `none`.
  unfoldable pub exact_stages : Bytes → Bytes → Bytes → Bool → Option Outcome
  unfolding from_raw normalized replace_from sanitize_incoming_content exact_stage escaped_stage
  exact_stages raw old_text new_text all =
      let original = from_raw raw in
      let content = normalized original in
      let old = replace (cr ∷ lf ∷ []) (lf ∷ []) old_text in
      let new = sanitize_incoming_content new_text in
      elim (exact_stage original content old new all) [
        | some outcome ↦ some outcome
        | none ↦ escaped_stage original content old new all
      ]

pub record Edit : Type 0 where
  pub path : Option Bytes
  pub old_text : Bytes
  pub new_text : Bytes
  pub all : Bool

-- The errors of `replace` of multi_edit.rs; a text that is not found is shown with the diagnostic.
pub data ReplaceError : Type 0 where
  empty_old_text : ReplaceError
  no_match : Bytes → Bytes → ReplaceError
  several_matches : List LineId → ReplaceError
  edit_failed : EditError → ReplaceError

abbrev pub rendered_of : Edited → Result ReplaceError Bytes
rendered_of (err e) = err (edit_failed e)
rendered_of (ok edited) = ok (rendered (preserve_trailing_newline edited))

module _ (line_hash : Bytes → Bytes) where
  -- `replace` of multi_edit.rs
  unfoldable pub replace_edit : Bytes → Edit → Result ReplaceError Bytes
  unfolding from_raw normalized rendered replace_from sanitize_incoming_content match_indices_from
      replace_positions preserve_trailing_newline lines
  replace_edit raw edit =
      let content = from_raw raw in
      let text = normalized content in
      let old = replace (cr ∷ lf ∷ []) (lf ∷ []) edit.old_text in
      let positions = match_indices old text in
      if is_empty edit.old_text
      then err empty_old_text
      else if is_empty positions
      then err (no_match text old)
      else if ltb 1 (length positions) && not edit.all
      then err (several_matches (ids_of line_hash text positions))
      else rendered_of (
          replace_positions (length old) (sanitize_incoming_content edit.new_text) content
            positions)
