-- ===== src/Editable/Insertion.antt =====
-- What `insert_lines` does to the bytes of a file.
use octofs.Prelude.{
  ok, ℕ, ◌≤◌, ◌≡◌, refl, sym, ap, ap₂, ◌∙◌, Bool, true, false, not, ◌&&◌, inl, inr, List, [], ◌∷◌,
  ◌++◌, map, append_assoc, append-nil, arith, Bool-cases, ◌==◌, ltb, if◌then◌else◌, length, take,
  drop, take-append-drop,
}
use octofs.Text.{Bytes, cr, is_empty, join, trim_end_matches}
use octofs.Editable.{
  Ending, has_ending, ending_bytes, EditableLine, EditableContent, line, rendered, rendered_lines,
  terminate_last, unterminate_last, insert_lines,
}

-- Lines in one text, the last with or without a terminator.
abbrev pub block : Bytes → Bool → List Bytes → Bytes
block eol closed ls = if is_empty ls then [] else join eol ls ++ (if closed then eol else [])

-- What ends the text before the inserted lines: nothing, unless its last line had no terminator.
abbrev pub glue : Ending → List EditableLine → Bytes
glue e [] = []
glue e (l ∷ []) = if has_ending l.ending then [] else ending_bytes e
glue e (l ∷ m ∷ ls) = glue e (m ∷ ls)

pub rendered_lines-append :
    (ls ms : List EditableLine) → rendered_lines (ls ++ ms) ≡ rendered_lines ls ++ rendered_lines ms
unfolding rendered_lines
rendered_lines-append [] ms = refl
rendered_lines-append (l ∷ ls) ms =
    ap ((l.text ++ ending_bytes l.ending) ++◌) (rendered_lines-append ls ms)
    ∙ sym (append_assoc (l.text ++ ending_bytes l.ending) (rendered_lines ls) (rendered_lines ms))

no_bytes : (e : Ending) → has_ending e ≡ false → ending_bytes e ≡ []
no_bytes e h = ground arith

rendered-terminate_last :
    (e : Ending) (ls : List EditableLine)
    → rendered_lines (terminate_last e ls) ≡ rendered_lines ls ++ glue e ls
unfolding rendered_lines
rendered-terminate_last e [] = refl
rendered-terminate_last e (l ∷ []) = elim (Bool-cases (has_ending l.ending)) [
  | inl h ↦ rw h (sym (append-nil _))
  | inr h ↦ rw h (simp (append-nil, no_bytes l.ending h))
]
rendered-terminate_last e (l ∷ m ∷ ls) =
    ap ((l.text ++ ending_bytes l.ending) ++◌) (rendered-terminate_last e (m ∷ ls))
    ∙ sym
        (append_assoc (l.text ++ ending_bytes l.ending) (rendered_lines (m ∷ ls)) (glue e (m ∷ ls)))

block-cons :
    (eol : Bytes) (closed : Bool) (l m : Bytes) (ls : List Bytes)
    → block eol closed (l ∷ m ∷ ls) ≡ (l ++ eol) ++ block eol closed (m ∷ ls)
unfolding join
block-cons eol closed l m ls = simp append_assoc

module _ (e : Ending) where
  abbrev inserted : List Bytes → List EditableLine
  inserted ls = map (λ (l : Bytes). line (trim_end_matches cr l) e) ls

  rendered-inserted :
      (ls : List Bytes)
      → rendered_lines (inserted ls) ≡ block (ending_bytes e) true (map (trim_end_matches cr) ls)
  unfolding rendered_lines join
  rendered-inserted [] = refl
  rendered-inserted (l ∷ []) = append-nil (trim_end_matches cr l ++ ending_bytes e)
  rendered-inserted (l ∷ m ∷ ls) =
      ap ((trim_end_matches cr l ++ ending_bytes e) ++◌) (rendered-inserted (m ∷ ls))
      ∙ sym (
          block-cons (ending_bytes e) true (trim_end_matches cr l) (trim_end_matches cr m)
            (map (trim_end_matches cr) ls))

  rendered-unterminated :
      (ls : List Bytes)
      → rendered_lines (unterminate_last (inserted ls))
        ≡ block (ending_bytes e) false (map (trim_end_matches cr) ls)
  unfolding rendered_lines join
  rendered-unterminated [] = refl
  rendered-unterminated (l ∷ []) = append-nil (trim_end_matches cr l ++ [])
  rendered-unterminated (l ∷ m ∷ ls) =
      ap ((trim_end_matches cr l ++ ending_bytes e) ++◌) (rendered-unterminated (m ∷ ls))
      ∙ sym (
          block-cons (ending_bytes e) false (trim_end_matches cr l) (trim_end_matches cr m)
            (map (trim_end_matches cr) ls))

-- The lines as one block between the lines before the position and those behind it.
abbrev pub text_with : EditableContent → ℕ → List Bytes → Bool → Bytes
text_with c position ls trailing =
    rendered_lines (take position c.lines)
    ++ ((if is_empty ls
          then []
          else glue c.dominant_ending (take position c.lines)
            ++ block (ending_bytes c.dominant_ending)
                (not (position == length c.lines && not trailing)) (map (trim_end_matches cr) ls))
        ++ rendered_lines (drop position c.lines))

module _ (c : EditableContent) (position : ℕ) (ls : List Bytes) (trailing : Bool) where
  rendered-new :
      rendered_lines (
        if position == length c.lines && not trailing
        then unterminate_last (inserted c.dominant_ending ls)
        else inserted c.dominant_ending ls)
      ≡ block
          (ending_bytes c.dominant_ending)
          (not (position == length c.lines && not trailing))
          (map (trim_end_matches cr) ls)
  rendered-new = elim (Bool-cases (position == length c.lines && not trailing)) [
    | inl h ↦ rw h (rendered-unterminated c.dominant_ending ls)
    | inr h ↦ rw h (rendered-inserted c.dominant_ending ls)
  ]

  abbrev with_inserted : EditableContent
  with_inserted = record c {
    lines =
        terminate_last c.dominant_ending (take position c.lines)
        ++ ((if position == length c.lines && not trailing
              then unterminate_last (inserted c.dominant_ending ls)
              else inserted c.dominant_ending ls)
            ++ drop position c.lines);
    had_trailing_newline = trailing;
  }

  rendered-inserted_text :
      rendered_lines (
        terminate_last c.dominant_ending (take position c.lines)
        ++ ((if position == length c.lines && not trailing
              then unterminate_last (inserted c.dominant_ending ls)
              else inserted c.dominant_ending ls)
            ++ drop position c.lines))
      ≡ rendered_lines (take position c.lines)
        ++ ((glue c.dominant_ending (take position c.lines)
              ++ block
                  (ending_bytes c.dominant_ending)
                  (not (position == length c.lines && not trailing))
                  (map (trim_end_matches cr) ls))
            ++ rendered_lines (drop position c.lines))
  rendered-inserted_text =
      rendered_lines-append (terminate_last c.dominant_ending (take position c.lines)) _
      ∙ ap₂ ◌++◌ (rendered-terminate_last c.dominant_ending (take position c.lines)) (
          rendered_lines-append _ (drop position c.lines)
          ∙ ap (◌++ rendered_lines (drop position c.lines)) rendered-new)
      ∙ simp append_assoc

  within : position ≤ length c.lines → ltb (length c.lines) position ≡ false
  within h = ground arith

-- An insertion at a position within the file never fails, and adds one block of lines, each with the
-- terminator that the file mostly has; every byte of the file stays.
pub rendered-insert_lines :
    (c : EditableContent) (position : ℕ) (ls : List Bytes) (trailing : Bool)
    → position ≤ length c.lines
    → (edited : EditableContent) × (insert_lines c position ls trailing ≡ ok edited)
      × (rendered edited ≡ text_with c position ls trailing)
unfolding insert_lines rendered
rendered-insert_lines c position [] trailing h = (
  c,
  rw (within c position [] trailing h) refl,
  ap rendered_lines (sym (take-append-drop position c.lines))
      ∙ rendered_lines-append (take position c.lines) (drop position c.lines),
)
rendered-insert_lines c position (l ∷ ls) trailing h = (
  with_inserted c position (l ∷ ls) trailing,
  rw (within c position (l ∷ ls) trailing h) refl,
  rendered-inserted_text c position (l ∷ ls) trailing,
)
