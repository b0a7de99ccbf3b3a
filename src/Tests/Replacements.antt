-- ===== src/Tests/Replacements.antt =====
-- Runs of the replacement of exact texts, and its theorems at concrete files.
use octofs.Prelude.{◌≡◌, refl, true, false, none, some, ok, [], ◌∷◌, ℕ}
use octofs.Text.{starts_with, Bytes, lf, cr, match_indices, match_indices_from, replace_from}
use octofs.StrReplace.Utf8.{is_utf8}
use octofs.Editable.{
  sanitize_incoming_content, replace_normalized_range, EditableContent, from_raw, normalized,
  rendered,
}
use octofs.Editable.Content.{from_raw-IsValid}
use octofs.StrReplace.{
  occurrences, Edit, replace_edit, exact_stage, edited_as, endless, find_all_positions,
}
use octofs.StrReplace.Matches.{find_all_positions-match_indices}
use octofs.StrReplace.Edits.{
  IsReplaced, exact_stage-IsReplaced, exact_stage_endless, replace_edit-IsReplaced, old_of, new_of,
}

abbrev hash_of : Bytes → Bytes
hash_of s = s

-- "a\r\nba"
abbrev crlf_file : Bytes
crlf_file = b'a' ∷ cr ∷ lf ∷ b'b' ∷ b'a' ∷ []

abbrev c_file : EditableContent
c_file = from_raw crlf_file

-- "a" for "é"
abbrev each_a : Edit
each_a = record { path = none; old_text = b'a' ∷ []; new_text = 195 ∷ 169 ∷ []; all = true }

replaced_file :
    replace_edit hash_of crlf_file each_a ≡ ok (195 ∷ 169 ∷ cr ∷ lf ∷ b'b' ∷ 195 ∷ 169 ∷ [])
unfolding replace_edit starts_with replace_normalized_range
replaced_file = refl

find_all_positions-match_indices_example :
    find_all_positions 6 crlf_file (b'a' ∷ []) 0 ≡ some (match_indices (b'a' ∷ []) crlf_file)
find_all_positions-match_indices_example =
    find_all_positions-match_indices (b'a' ∷ []) crlf_file refl

exact_stage-IsReplaced_example :
    (edited : EditableContent) × (exact_stage hash_of c_file
        (normalized c_file)
        (b'a' ∷ [])
        (195 ∷ 169 ∷ [])
        true
      ≡ some (edited_as edited))
    × IsReplaced c_file (b'a' ∷ []) (195 ∷ 169 ∷ []) edited
unfolding is_utf8 occurrences normalized from_raw match_indices_from replace_from starts_with
    sanitize_incoming_content
exact_stage-IsReplaced_example =
    exact_stage-IsReplaced c_file (from_raw-IsValid crlf_file) (b'a' ∷ []) (195 ∷ 169 ∷ []) refl
      refl refl refl hash_of true refl refl

exact_stage_endless_example :
    (exact_stage hash_of c_file (normalized c_file) [] [] false ≡ some endless)
    × ((rounds : ℕ) → find_all_positions rounds (normalized c_file) [] 0 ≡ none)
unfolding is_utf8 occurrences normalized from_raw match_indices_from replace_from starts_with
    sanitize_incoming_content
exact_stage_endless_example = exact_stage_endless hash_of c_file [] false refl refl

replace_edit-IsReplaced_example :
    (edited : EditableContent) × (replace_edit hash_of crlf_file each_a ≡ ok (rendered edited))
    × IsReplaced c_file (old_of each_a) (new_of each_a) edited
unfolding is_utf8 occurrences normalized from_raw match_indices_from replace_from starts_with
    sanitize_incoming_content
replace_edit-IsReplaced_example =
    replace_edit-IsReplaced hash_of crlf_file each_a refl refl refl refl refl refl
