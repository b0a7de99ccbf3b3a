-- ===== src/Editable/Counts.antt =====
-- The lines of the normalized text are as many as the lines of the content.
use octofs.Prelude.{
  ℕ, suc, ◌≡◌, refl, ap, ◌∙◌, false, List, [], ◌∷◌, ◌++◌, append_assoc, append-nil, inl, inr,
  Bool-cases, length, length-map,
}
use octofs.Text.{Bytes, lf, is_empty, split_inclusive, lines, push_first}
use octofs.Editable.{EditableLine, EditableContent, normalized_lines, normalized, has_ending}
use octofs.Editable.Content.{HasNoLf, WellFormed, IsValid}

split_inclusive-lf :
    (t s : Bytes)
    → HasNoLf t
    → split_inclusive lf (t ++ lf ∷ s) ≡ (t ++ lf ∷ []) ∷ split_inclusive lf s
unfolding split_inclusive
split_inclusive-lf [] s h = refl
split_inclusive-lf (c ∷ t) s h = rw h.0 (ap (push_first c) (split_inclusive-lf t s h.1))

split_inclusive-one :
    (c : ℕ) (t : Bytes) → HasNoLf (c ∷ t) → split_inclusive lf (c ∷ t) ≡ (c ∷ t) ∷ []
unfolding split_inclusive
split_inclusive-one c [] h = rw h.0
split_inclusive-one c (d ∷ t) h = rw h.0 (ap (push_first c) (split_inclusive-one d t h.1))

ended_piece :
    (t s : Bytes)
    → HasNoLf t
    → length (split_inclusive lf ((t ++ lf ∷ []) ++ s)) ≡ suc (length (split_inclusive lf s))
ended_piece t s h =
    ap (λ x. length (split_inclusive lf x)) (append_assoc t (lf ∷ []) s)
    ∙ ap length (split_inclusive-lf t s h)

open_piece :
    (t : Bytes) → HasNoLf t → is_empty t ≡ false → length (split_inclusive lf ((t ++ []) ++ [])) ≡ 1
open_piece [] h e = cc
open_piece (c ∷ t) h e =
    ap (λ x. length (split_inclusive lf x)) (append-nil ((c ∷ t) ++ []) ∙ append-nil (c ∷ t))
    ∙ ap length (split_inclusive-one c t h)

none_left : length (split_inclusive lf []) ≡ 0
none_left = unfold split_inclusive in refl

pieces :
    (ls : List EditableLine)
    → WellFormed ls
    → length (split_inclusive lf (normalized_lines ls)) ≡ length ls
unfolding normalized_lines
pieces [] w = none_left
pieces (l ∷ []) w = elim (Bool-cases (has_ending l.ending)) [
  | inl e ↦ rw e (ended_piece l.text [] w.0 ∙ ap suc none_left)
  | inr e ↦ rw e (open_piece l.text w.0 (w.1 e))
]
pieces (l ∷ m ∷ ls) (h, e, w) =
    rw e (ended_piece l.text (normalized_lines (m ∷ ls)) h ∙ ap suc (pieces (m ∷ ls) w))

-- The lines that the tools count in a file are the lines that an edit of it has.
pub length-lines :
    (c : EditableContent) → IsValid c → length (lines (normalized c)) ≡ length c.lines
unfolding lines normalized
length-lines c v =
    length-map _ (split_inclusive lf (normalized_lines c.lines)) ∙ pieces c.lines v.well_formed
