-- ===== src/StrReplace/Edits.antt =====
-- What the edits by exact texts do to the text of a file.
use octofs.Prelude.{
  ok, ℕ, suc, ◌+◌, ◌≤◌, ◌≡◌, refl, sym, ap, ◌∙◌, Bool, true, false, not, ◌&&◌, ◌||◌, none, some,
  inl, inr, [], ◌∷◌, ◌++◌, arith, Bool-cases, ◌==◌, ltb, leb, length, All,
}
use octofs.Text.{Bytes, lf, cr, is_empty, starts_with, replace, match_indices}
use octofs.Editable.{
  EditableContent, from_raw, normalized, rendered, preserve_trailing_newline,
  sanitize_incoming_content,
}
use octofs.Editable.Content.{IsValid, from_raw-IsValid}
use octofs.Editable.Trailing.{
  with_trailing, chop_open, chop_closed, ends_with-lf, normalized-preserve_trailing_newline,
  preserve_trailing_newline-IsValid,
}
use octofs.StrReplace.{
  find_all_positions, replace_positions, edited_as, endless, replace_unique, replace_all,
  replace_at, outcome_of, occurrences, exact_stage, Edit, replace_edit, count_chars, rendered_of,
}
use octofs.StrReplace.Utf8.{is_utf8, starts_char-is_utf8}
use octofs.StrReplace.Matches.{
  find_all_positions-match_indices, find_all_positions_empty, single_match,
}
use octofs.StrReplace.Terminators.{Stands, replaced-Stands}
use octofs.StrReplace.Steps.{TextIs, Replaced}
use octofs.StrReplace.Replaces.{replaced, replace_hit, replace_miss}

with_trailing-TextIs :
    (had : Bool) (edited : EditableContent) (rest : Bytes)
    → TextIs edited [] rest
    → with_trailing had (normalized edited) ≡ with_trailing had rest
with_trailing-TextIs had edited rest (inl e) = ap (with_trailing had) e
with_trailing-TextIs true edited rest (inr (e, f, g)) =
    ap (with_trailing true) e ∙ rw (ends_with-lf rest, f) refl
with_trailing-TextIs false edited rest (inr (e, f, g)) =
    ap (with_trailing false) e ∙ chop_closed rest g f ∙ sym (chop_open rest f)

-- The content behind the edits: the text with every occurrence replaced in one pass, on lines of the
-- file with their terminators and lines with its dominant one or none.
pub record IsReplaced (c : EditableContent) (old new : Bytes) (edited : EditableContent)
    : Type 0 where
  pub valid : IsValid edited
  pub text :
      normalized edited ≡ with_trailing c.had_trailing_newline (replace old new (normalized c))
  pub lines : All (Stands c) edited.lines

occurrences_text :
    (old s : Bytes) → is_empty old ≡ false → occurrences old s ≡ length (match_indices old s)
unfolding occurrences
occurrences_text old s n = rw n refl

module _ (c : EditableContent) (v : IsValid c) (old new : Bytes) (n : is_empty old ≡ false)
    (u_old : is_utf8 0 old ≡ true) (u_new : is_utf8 0 new ≡ true)
    (u : is_utf8 0 (normalized c) ≡ true) where
  abbrev done :
      Replaced c []
        (replace old new (normalized c))
        (replace_positions (length old) new c (match_indices old (normalized c)))
  done = replaced old new n u_old u_new c v [] 0 0 (normalized c) u refl

  IsReplaced-done : IsReplaced c old new (preserve_trailing_newline done.edited)
  IsReplaced-done = record {
    valid = preserve_trailing_newline-IsValid done.edited done.valid;
    text =
        normalized-preserve_trailing_newline done.edited done.valid
        ∙ ap (λ b. with_trailing b (normalized done.edited)) done.trailing
        ∙ with_trailing-TextIs c.had_trailing_newline done.edited (replace old new (normalized c))
            done.text;
    lines = replaced-Stands (length old) new c (match_indices old (normalized c)) done.returns;
  }

  replace_all-edited :
      replace_all c (normalized c) old new ≡ edited_as (preserve_trailing_newline done.edited)
  unfolding replace_all
  replace_all-edited =
      ap (replace_at c old new) (find_all_positions-match_indices old (normalized c) n)
      ∙ ap outcome_of done.returns

  replace_unique-edited :
      length (match_indices old (normalized c)) ≡ 1
      → replace_unique c (normalized c) old new ≡ edited_as (preserve_trailing_newline done.edited)
  unfolding replace_unique replace_positions
  replace_unique-edited h =
      let (i, e, f) = single_match old (normalized c) n h in
      rw e (ap outcome_of (sym (ap (replace_positions (length old) new c) f) ∙ done.returns))

  -- For well-formed lines, texts in UTF-8 and a text to replace that is not empty: where it occurs, and once or with all
  -- occurrences asked for, the exact stage edits the file. Its text becomes the one in which every
  -- occurrence is replaced in one pass, and then, if the file ended with a newline, a newline is added
  -- at the end where there is none, else one newline that ends a last line with text is taken off. Each
  -- line of it is a line of the file, with its terminator, or has the dominant terminator or none.
  pub exact_stage-IsReplaced :
      (line_hash : Bytes → Bytes) (all : Bool)
      → leb 1 (occurrences old (normalized c)) ≡ true
      → (all || occurrences old (normalized c) == 1) ≡ true
      → (edited : EditableContent) × (exact_stage line_hash c (normalized c) old new all
          ≡ some (edited_as edited))
        × IsReplaced c old new edited
  unfolding exact_stage
  exact_stage-IsReplaced line_hash true h k =
      (preserve_trailing_newline done.edited, rw h (ap some replace_all-edited), IsReplaced-done)
  exact_stage-IsReplaced line_hash false h k = (
    preserve_trailing_newline done.edited,
    rw k (
        ap some
          (replace_unique-edited (sym (occurrences_text old (normalized c) n) ∙ ground arith))),
    IsReplaced-done,
  )

characters : (s : Bytes) → is_empty s ≡ false → is_utf8 0 s ≡ true → 1 ≤ count_chars s
characters [] n u = cc
characters (b ∷ s) n u = let l = starts_char-is_utf8 (b ∷ s) u in rw l (omega arith)

occurrences_empty : (s : Bytes) → occurrences [] s ≡ count_chars s + 1
unfolding occurrences
occurrences_empty s = refl

-- An empty text to replace in a file that is not empty: the exact stage searches for its positions,
-- and that search does not end, within any number of rounds.
pub exact_stage_endless :
    (line_hash : Bytes → Bytes) (c : EditableContent) (new : Bytes) (all : Bool)
    → is_empty (normalized c) ≡ false
    → is_utf8 0 (normalized c) ≡ true
    → (exact_stage line_hash c (normalized c) [] new all ≡ some endless)
      × ((rounds : ℕ) → find_all_positions rounds (normalized c) [] 0 ≡ none)
unfolding exact_stage replace_all
exact_stage_endless line_hash c new all n u =
    (stage all, λ rounds. find_all_positions_empty rounds (normalized c) 0)
  where
    several_chars : 2 ≤ occurrences [] (normalized c)
    several_chars = omega (arith, occurrences_empty (normalized c), characters (normalized c) n u)

    never : find_all_positions (suc (length (normalized c))) (normalized c) [] 0 ≡ none
    never = find_all_positions_empty (suc (length (normalized c))) (normalized c) 0

    stage : (b : Bool) → exact_stage line_hash c (normalized c) [] new b ≡ some endless
    stage true =
        let h : leb 1 (occurrences [] (normalized c)) ≡ true = ground (arith, several_chars) in
        rw (h, never) refl
    stage false =
        let h : (occurrences [] (normalized c) == 1) ≡ false = ground (arith, several_chars) in
        let k : ltb 1 (occurrences [] (normalized c)) ≡ true = ground (arith, several_chars) in
        rw (h, k, never) refl

replaced_nonempty :
    (old new s : Bytes)
    → is_empty new ≡ false
    → is_empty s ≡ false
    → is_empty (replace old new s) ≡ false
replaced_nonempty old new [] m n = cc
replaced_nonempty old new (c ∷ s) m n = elim (Bool-cases (starts_with old (c ∷ s))) [
  | inl h ↦ ap is_empty (replace_hit old new c s h) ∙ is_empty-append_left new _ m
  | inr h ↦ ap is_empty (replace_miss old new c s h)
]
  where
    is_empty-append_left : (a b : Bytes) → is_empty a ≡ false → is_empty (a ++ b) ≡ false
    is_empty-append_left [] b h = cc
    is_empty-append_left (x ∷ a) b h = refl

-- The texts of an edit, as the source compares them.
abbrev pub old_of : Edit → Bytes
old_of edit = replace (cr ∷ lf ∷ []) (lf ∷ []) edit.old_text

abbrev pub new_of : Edit → Bytes
new_of edit = sanitize_incoming_content edit.new_text

-- An edit of a transaction, with texts in UTF-8 and a text to replace that is not empty and occurs, and
-- once or with all occurrences asked for, writes a file whose text is that of the old one with every
-- occurrence replaced in one pass; then, if the file ended with a newline, a newline is added at the end
-- where there is none, else one newline that ends a last line with text is taken off. Each line written
-- is a line of the old file, with its terminator, or has its dominant terminator or none.
pub replace_edit-IsReplaced :
    (line_hash : Bytes → Bytes) (raw : Bytes) (edit : Edit)
    → is_utf8 0 (normalized (from_raw raw)) ≡ true
    → is_utf8 0 (old_of edit) ≡ true
    → is_utf8 0 (new_of edit) ≡ true
    → is_empty edit.old_text ≡ false
    → is_empty (match_indices (old_of edit) (normalized (from_raw raw))) ≡ false
    → (ltb 1 (length (match_indices (old_of edit) (normalized (from_raw raw)))) && not edit.all)
      ≡ false
    → (edited : EditableContent) × (replace_edit line_hash raw edit ≡ ok (rendered edited))
      × IsReplaced (from_raw raw) (old_of edit) (new_of edit) edited
unfolding replace_edit
replace_edit-IsReplaced line_hash raw edit u u_old u_new n m k =
    let c = from_raw raw in
    let v = from_raw-IsValid raw in
    let o = replaced_nonempty (cr ∷ lf ∷ []) (lf ∷ []) edit.old_text refl n in
    let d = done c v (old_of edit) (new_of edit) o u_old u_new u in
    (
      preserve_trailing_newline d.edited,
      rw (n, m, k) (ap rendered_of d.returns),
      IsReplaced-done c v (old_of edit) (new_of edit) o u_old u_new u,
    )
