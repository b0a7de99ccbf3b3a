-- ===== src/Editable.antt =====
-- `EditableContent` of src/mcp/fs/text_editing.rs: a file as lines that keep their own
-- terminator, edited in the space where every terminator is a newline.
use octofs.Prelude.{
  Result, ok, err, ℕ, suc, ◌+◌, ◌-◌, min, Bool, true, false, not, ◌&&◌, ◌||◌, Option, none, some,
  List, [], ◌∷◌, ◌++◌, map, ◌==◌, ltb, leb, if◌then◌else◌, length, get_or, take, drop,
}
use octofs.Text.{
  Bytes, lf, cr, is_empty, ends_with, strip_suffix, split_inclusive, trim_end_matches, slice, lines,
  split, join,
}
pub mod Content
pub mod RoundTrip
pub mod Scans
pub mod Endings
pub mod Joins
pub mod Parts
pub mod Counts
pub mod Splice
pub mod Trailing
pub mod Insertion

-- `ending: &'static str`, which is "", "\n" or "\r\n"
pub data Ending : Type 0 where
  unterminated lf_ending crlf_ending : Ending

abbrev pub ending_bytes : Ending → Bytes
ending_bytes unterminated = []
ending_bytes lf_ending = lf ∷ []
ending_bytes crlf_ending = cr ∷ lf ∷ []

abbrev pub has_ending : Ending → Bool
has_ending unterminated = false
has_ending lf_ending = true
has_ending crlf_ending = true

abbrev pub is_crlf : Ending → Bool
is_crlf crlf_ending = true
is_crlf lf_ending = false
is_crlf unterminated = false

abbrev pub is_lf : Ending → Bool
is_lf lf_ending = true
is_lf crlf_ending = false
is_lf unterminated = false

pub record EditableLine : Type 0 where
  pub text : Bytes
  pub ending : Ending

pub record EditableContent : Type 0 where
  pub lines : List EditableLine
  pub dominant_ending : Ending
  pub had_trailing_newline : Bool

abbrev pub line : Bytes → Ending → EditableLine
line t e = record { text = t; ending = e }

-- The closure of `from_raw`: one piece of `split_inclusive` as a line.
unfoldable pub classify : Bytes → EditableLine
unfolding strip_suffix
classify piece = elim (strip_suffix (cr ∷ lf ∷ []) piece) [
  | some text ↦ line text crlf_ending
  | none ↦ elim (strip_suffix (lf ∷ []) piece) [
    | some text ↦ line text lf_ending
    | none ↦ line piece unterminated
  ]
]

-- `crlf_count` and `lf_count`
unfoldable pub count_ending : (Ending → Bool) → List EditableLine → ℕ
count_ending p [] = 0
count_ending p (l ∷ ls) = (if p l.ending then 1 else 0) + count_ending p ls

unfoldable pub from_raw : Bytes → EditableContent
unfolding classify count_ending split_inclusive ends_with
from_raw raw =
    let ls = map classify (split_inclusive lf raw) in
    record {
      lines = ls;
      dominant_ending =
          if ltb (count_ending is_lf ls) (count_ending is_crlf ls) then crlf_ending else lf_ending;
      had_trailing_newline = ends_with lf raw;
    }

abbrev pub normalized_line : EditableLine → Bytes
normalized_line l = l.text ++ (if has_ending l.ending then lf ∷ [] else [])

unfoldable pub normalized_lines : List EditableLine → Bytes
normalized_lines [] = []
normalized_lines (l ∷ ls) = normalized_line l ++ normalized_lines ls

unfoldable pub normalized : EditableContent → Bytes
unfolding normalized_lines
normalized c = normalized_lines c.lines

unfoldable pub rendered_lines : List EditableLine → Bytes
rendered_lines [] = []
rendered_lines (l ∷ ls) = (l.text ++ ending_bytes l.ending) ++ rendered_lines ls

unfoldable pub rendered : EditableContent → Bytes
unfolding rendered_lines
rendered c = rendered_lines c.lines

abbrev pub end_piece : Ending → Bytes → EditableLine
end_piece e piece = elim (strip_suffix (lf ∷ []) piece) [
  | some text ↦ line text e
  | none ↦ line piece unterminated
]

unfoldable pub lines_with_ending : Bytes → Ending → List EditableLine
unfolding strip_suffix split_inclusive
lines_with_ending content e = map (end_piece e) (split_inclusive lf content)

-- The errors of the fallible methods; the payload of each is what its message shows.
pub data EditError : Type 0 where
  invalid_position : ℕ → EditError
  invalid_range : ℕ → ℕ → EditError
  start_out_of_bounds end_out_of_bounds line_missing : EditError

abbrev pub Edited : Type 0
Edited = Result EditError EditableContent

-- the variables of the loop of `replace_normalized_range`
pub record Scan : Type 0 where
  pub offset : ℕ
  pub start_line : Option ℕ
  pub end_line : Option ℕ
  pub region_start : ℕ
  pub region_end : ℕ

abbrev pub is_none {ℓ} : {A : Type ℓ} → Option A → Bool
is_none none = true
is_none (some a) = false

abbrev pub line_len : EditableLine → ℕ
line_len l = length l.text + (if has_ending l.ending then 1 else 0)

-- The test that takes `index` for the line where the replacement starts.
abbrev pub starts_here : ℕ → ℕ → ℕ → ℕ → ℕ → Bool
starts_here start len total index next_offset =
    ltb start next_offset || (start == len && index + 1 == total)

abbrev pub enter : ℕ → ℕ → ℕ → ℕ → ℕ → Scan → Scan
enter start len total index next_offset st =
    if is_none st.start_line && starts_here start len total index next_offset
    then record st { start_line = some index; region_start = st.offset }
    else st

unfoldable pub scan : ℕ → ℕ → ℕ → ℕ → ℕ → List EditableLine → Scan → Scan
scan start last_offset len total index [] st = st
scan start last_offset len total index (l ∷ ls) st =
    let next_offset = st.offset + line_len l in
    let st' = enter start len total index next_offset st in
    elim (ltb last_offset next_offset) [
      | true ↦ record st' { end_line = some index; region_end = next_offset }
      | false ↦
          scan start last_offset len total (index + 1) ls (record st' { offset = next_offset })
    ]

abbrev pub scan_init : Scan
scan_init = record {
  offset = 0;
  start_line = none;
  end_line = none;
  region_start = 0;
  region_end = 0;
}

-- `changed_lines.pop()`
abbrev pub pop_line : List EditableLine → Option (List EditableLine × EditableLine)
pop_line [] = none
pop_line (l ∷ ls) = elim (pop_line ls) [ none ↦ some ([], l) | some (i, x) ↦ some (l ∷ i, x) ]

-- The changed lines before the untouched suffix; an unterminated last one runs into the next line.
unfoldable pub join_suffix :
    Bytes → Ending → List EditableLine → List EditableLine → Option (List EditableLine)
unfolding ends_with
join_suffix changed e changed_lines [] = some (changed_lines ++ [])
join_suffix changed e changed_lines (head ∷ rest) =
    if not (is_empty changed) && not (ends_with lf changed)
    then elim (pop_line changed_lines) [
      | none ↦ none
      | some (front, tail) ↦ some ((front ++ line (tail.text ++ head.text) e ∷ []) ++ rest)
    ]
    else some (changed_lines ++ head ∷ rest)

-- `self.lines.extend(changed_lines); self.lines.extend(suffix)`
abbrev pub extend_lines : EditableContent → List EditableLine → Option (List EditableLine) → Edited
extend_lines c front none = err line_missing
extend_lines c front (some new) = ok (record c { lines = front ++ new })

-- The code behind the loop.
unfoldable pub splice_lines : EditableContent → Bytes → ℕ → ℕ → Bytes → ℕ → ℕ → ℕ → ℕ → Edited
unfolding lines_with_ending join_suffix
splice_lines c content start end replacement start_line end_line region_start region_end =
    let changed =
      slice region_start start content ++ (replacement ++ slice end region_end content) in
    extend_lines c (take start_line (take (end_line + 1) c.lines)) (
      join_suffix changed c.dominant_ending (lines_with_ending changed c.dominant_ending)
        (drop (end_line + 1) c.lines))

-- `content.is_char_boundary(i)`, for an `i` up to the length: not inside a UTF-8 sequence
unfoldable pub is_char_boundary : Bytes → ℕ → Bool
is_char_boundary s i = elim (drop i s) [ [] ↦ true | b ∷ _ ↦ ltb b 128 || leb 192 b ]

unfoldable pub replace_found : EditableContent → Bytes → ℕ → ℕ → Bytes → Scan → Edited
unfolding splice_lines
replace_found c content start end replacement st = elim st.start_line [
  | none ↦ err start_out_of_bounds
  | some i ↦ elim st.end_line [
    | none ↦ err end_out_of_bounds
    | some j ↦ splice_lines c content start end replacement i j st.region_start st.region_end
  ]
]

abbrev pub last_offset_of : ℕ → ℕ → ℕ → ℕ
last_offset_of start end len = if ltb start end then end - 1 else min start (len - 1)

unfoldable pub replace_normalized_range : EditableContent → ℕ → ℕ → Bytes → Edited
unfolding normalized is_char_boundary lines_with_ending scan replace_found
replace_normalized_range c start end replacement =
    let content = normalized c in
    if ltb end start
      || (ltb (length content) end
          || (not (is_char_boundary content start) || not (is_char_boundary content end)))
    then err (invalid_range start end)
    else if is_empty c.lines
    then ok (record c { lines = lines_with_ending replacement c.dominant_ending })
    else replace_found c content start end replacement (
        scan start (last_offset_of start end (length content)) (length content) (length c.lines) 0
          c.lines scan_init)

abbrev pub terminate : Ending → EditableLine → EditableLine
terminate e l = if has_ending l.ending then l else record l { ending = e }

abbrev pub close_last : EditableContent → EditableLine → EditableLine
close_last c l =
    if c.had_trailing_newline
    then terminate c.dominant_ending l
    else if not (is_empty l.text)
    then record l { ending = unterminated }
    else l

unfoldable pub close_lines : EditableContent → List EditableLine → List EditableLine
close_lines c [] = []
close_lines c (l ∷ []) = close_last c l ∷ []
close_lines c (l ∷ m ∷ ls) = terminate c.dominant_ending l ∷ close_lines c (m ∷ ls)

unfoldable pub preserve_trailing_newline : EditableContent → EditableContent
unfolding close_lines
preserve_trailing_newline c = elim c.lines [
  | [] ↦ if c.had_trailing_newline then record c { lines = line [] c.dominant_ending ∷ [] } else c
  | l ∷ ls ↦ record c { lines = close_lines c (l ∷ ls) }
]

abbrev pub unterminate_last : List EditableLine → List EditableLine
unterminate_last [] = []
unterminate_last (l ∷ []) = record l { ending = unterminated } ∷ []
unterminate_last (l ∷ m ∷ ls) = l ∷ unterminate_last (m ∷ ls)

abbrev pub terminate_last : Ending → List EditableLine → List EditableLine
terminate_last e [] = []
terminate_last e (l ∷ []) = terminate e l ∷ []
terminate_last e (l ∷ m ∷ ls) = l ∷ terminate_last e (m ∷ ls)

unfoldable pub insert_lines : EditableContent → ℕ → List Bytes → Bool → Edited
unfolding trim_end_matches
insert_lines c position content_lines trailing_newline =
    let inserted =
      map (λ (l : Bytes). line (trim_end_matches cr l) c.dominant_ending) content_lines in
    if ltb (length c.lines) position
    then err (invalid_position position)
    else if is_empty inserted
    then ok c
    else let before = terminate_last c.dominant_ending (take position c.lines) in
      let new =
        if position == length c.lines && not trailing_newline
        then unterminate_last inserted
        else inserted in
      ok (record c {
        lines = before ++ (new ++ drop position c.lines);
        had_trailing_newline = trailing_newline;
      })

-- Operation text is line content: terminators and carriage returns at line ends are not.
unfoldable pub incoming_content_lines : Bytes → List Bytes
unfolding lines trim_end_matches
incoming_content_lines content = map (trim_end_matches cr) (lines content)

unfoldable pub sanitize_incoming_content : Bytes → Bytes
unfolding split trim_end_matches join
sanitize_incoming_content content = join (lf ∷ []) (map (trim_end_matches cr) (split lf content))
