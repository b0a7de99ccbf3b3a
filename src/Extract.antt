-- ===== src/Extract.antt =====
-- `execute_extract_lines` of src/mcp/fs/core.rs, from the values of its parameters and the texts of the
-- two files to the edited target.
use octofs.Prelude.{
  Result, ok, err, ◌>>=◌, ℕ, zero, suc, ◌+◌, ◌-◌, Bool, true, false, not, ◌&&◌, ◌||◌, Option, none,
  some, List, [], ◌∷◌, ◌++◌, map, ◌==◌, ltb, leb, if◌then◌else◌, length, get_or, take, drop,
}
use octofs.Prelude.Int.{ℤ, pos, negsuc}
use octofs.Text.{Bytes, lf, cr, is_empty, ends_with, lines, trim_end_matches, join}
use octofs.LineHash.{LineError, VerifyError, resolve_line_index, verify_line_id}
use octofs.LineHash.Endpoint.{Value, Endpoint, number, id, EndpointError, parse_endpoint}
use octofs.Editable.{EditableContent, EditError, Edited, from_raw, insert_lines}
pub mod Places
pub mod Ranges
pub mod Appends

-- Which end of the range of the source.
pub data Which : Type 0 where
  the_start the_end : Which

pub data ExtractError : Type 0 where
  missing_start missing_append_line no_target_lines : ExtractError
  bad_endpoint : Which → EndpointError → ExtractError
  bad_append_endpoint : EndpointError → ExtractError
  bad_append_line : ℤ → ExtractError
  bad_index : Which → LineError → ExtractError
  bad_id : Which → VerifyError → ExtractError
  backwards : ℕ → ℕ → ExtractError
  bad_append_id : VerifyError → ExtractError
  insert_failed : EditError → ExtractError

abbrev pub map_err {ℓ κ μ} :
    {E : Type ℓ} {F : Type κ} {A : Type μ} → (E → F) → Result E A → Result F A
map_err f (ok a) = ok a
map_err f (err e) = err (f e)

-- A parameter that is missing or null is `none`.
unfoldable pub parse_range : Option Value → Option Value → Result ExtractError (Endpoint × Endpoint)
unfolding parse_endpoint
parse_range none from_end = err missing_start
parse_range (some v) none =
    map_err (bad_endpoint the_start) (parse_endpoint v) >>= λ start. ok (start, start)
parse_range (some v) (some w) = map_err (bad_endpoint the_start) (parse_endpoint v) >>= λ start.
    map_err (bad_endpoint the_end) (parse_endpoint w) >>= λ end. ok (start, end)

-- Only 0 and -1 may be given as a number.
abbrev pub check_append : Endpoint → Result ExtractError Endpoint
check_append (id line hash) = ok (id line hash)
check_append (number (pos zero)) = ok (number (pos zero))
check_append (number (pos (suc n))) = err (bad_append_line (pos (suc n)))
check_append (number (negsuc zero)) = ok (number (negsuc zero))
check_append (number (negsuc (suc n))) = err (bad_append_line (negsuc (suc n)))

unfoldable pub parse_append_line : Option Value → Result ExtractError Endpoint
unfolding parse_endpoint
parse_append_line none = err missing_append_line
parse_append_line (some v) = map_err bad_append_endpoint (parse_endpoint v) >>= check_append

abbrev pub from_source : Bytes → ℕ → ℕ → List Bytes
from_source source from to =
    map (trim_end_matches cr) (take (to - (from - 1)) (drop (from - 1) (lines source)))

-- `extracted_content`
abbrev pub content_of : List Bytes → Bool → Bool → Bytes
content_of extracted at_last ends =
    if length extracted == 1 && (at_last && not ends)
    then get_or extracted 0 []
    else if at_last && ends
    then join (lf ∷ []) extracted ++ lf ∷ []
    else join (lf ∷ []) extracted

module _ (line_hash : Bytes → Bytes) where
  -- `resolve_extract_endpoint`
  unfoldable pub resolve_extract_endpoint : Which → Endpoint → List Bytes → Result ExtractError ℕ
  unfolding resolve_line_index verify_line_id
  resolve_extract_endpoint which (number n) source_lines =
      map_err (bad_index which) (resolve_line_index n (length source_lines))
  resolve_extract_endpoint which (id line hash) source_lines =
      map_err (bad_id which) (verify_line_id line_hash line hash source_lines)

  unfoldable pub resolve_range : Endpoint × Endpoint → List Bytes → Result ExtractError (ℕ × ℕ)
  unfolding resolve_extract_endpoint
  resolve_range (start, end) source_lines =
      resolve_extract_endpoint the_start start source_lines >>= λ from.
      resolve_extract_endpoint the_end end source_lines >>= λ to.
      if ltb to from then err (backwards from to) else ok (from, to)

  -- The line behind which the lines are put, and whether they go to the end by `-1`.
  unfoldable pub append_position : Endpoint → Bytes → Result ExtractError (ℕ × Bool)
  unfolding verify_line_id lines
  append_position (number (pos n)) target = ok (n, false)
  append_position (number (negsuc n)) target = ok (length (lines target), true)
  append_position (id line hash) target =
      if is_empty target
      then err no_target_lines
      else map_err bad_append_id (verify_line_id line_hash line hash (lines target)) >>= λ n.
          ok (n, false)

  -- The lines put into the target, and its new trailing newline.
  unfoldable pub append_lines :
      Bytes → Bytes → ℕ × ℕ → ℕ × Bool → Result ExtractError EditableContent
  unfolding lines trim_end_matches ends_with join from_raw insert_lines
  append_lines source target (from, to) (insert_after, at_end) =
      let extracted = from_source source from to in
      let extracted_content =
        content_of extracted (to == length (lines source)) (ends_with lf source) in
      map_err insert_failed (
        insert_lines (from_raw target) insert_after extracted (
          if is_empty target || at_end
          then ends_with lf extracted_content
          else ends_with lf target))

  unfoldable pub extract_lines :
      Option Value
      → Option Value
      → Option Value
      → Bytes
      → Bytes
      → Result ExtractError EditableContent
  unfolding parse_range parse_append_line resolve_range append_position append_lines lines
  extract_lines from_start from_end append_line source target =
      parse_range from_start from_end >>= λ range. parse_append_line append_line >>= λ append.
      resolve_range range (lines source) >>= λ found.
      append_position append target >>= λ position. append_lines source target found position
