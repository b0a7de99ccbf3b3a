-- ===== src/Editable/Trailing.antt =====
-- What `preserve_trailing_newline` does to the text.
use octofs.Prelude.{
  append_assoc, append-nil, inr, inl, Bool-cases, ℕ, ◌≡◌, refl, sym, ap, ◌∙◌, subst, Bool, true,
  false, not, ◌&&◌, List, [], ◌∷◌, ◌++◌, arith, ◌==◌, ◌<◌, length, if◌then◌else◌,
}
use octofs.Text.{Bytes, lf, is_empty, ends_with}
use octofs.Text.Ends.{ends_with-append}
use octofs.Editable.{
  has_ending, EditableLine, EditableContent, normalized_lines, normalized, close_lines,
  preserve_trailing_newline, unterminated,
}
use octofs.Editable.Content.{HasNoLf, WellFormed, IsValid}
use octofs.Editable.Scans.{width-pos}
use octofs.Editable.Endings.{WellFormed-terminated}
use octofs.Editable.Joins.{ends_with-lf-append}

-- A text without its last newline, unless that ends an empty line.
unfoldable pub chop : Bytes → Bytes
chop [] = []
chop (c ∷ []) = c ∷ []
chop (c ∷ d ∷ []) = if d == lf && not (c == lf) then c ∷ [] else c ∷ d ∷ []
chop (c ∷ d ∷ f ∷ s) = c ∷ chop (d ∷ f ∷ s)

-- A text with the newline at its end that the file had, or without one.
abbrev pub with_trailing : Bool → Bytes → Bytes
with_trailing had s = if had then (if ends_with lf s then s else s ++ lf ∷ []) else chop s

chop-lf : (r : Bytes) → is_empty r ≡ false → chop (lf ∷ r) ≡ lf ∷ chop r
unfolding chop
chop-lf [] h = cc
chop-lf (d ∷ []) h = ground arith
chop-lf (d ∷ e ∷ r) h = refl

chop-cons : (c d : ℕ) (s : Bytes) → is_empty s ≡ false → chop (c ∷ d ∷ s) ≡ c ∷ chop (d ∷ s)
unfolding chop
chop-cons c d [] h = cc
chop-cons c d (e ∷ s) h = refl

more_empty : (s r : Bytes) → is_empty (s ++ lf ∷ r) ≡ false
more_empty [] r = refl
more_empty (c ∷ s) r = refl

chop-append : (s r : Bytes) → is_empty r ≡ false → chop (s ++ lf ∷ r) ≡ s ++ lf ∷ chop r
chop-append [] r h = chop-lf r h
chop-append (c ∷ []) r h = chop-cons c lf r h ∙ ap (c ∷◌) (chop-lf r h)
chop-append (c ∷ e ∷ s) r h =
    chop-cons c e (s ++ lf ∷ r) (more_empty s r) ∙ ap (c ∷◌) (chop-append (e ∷ s) r h)

-- A text that does not end with a newline.
pub chop_open : (s : Bytes) → ends_with lf s ≡ false → chop s ≡ s
unfolding chop ends_with
chop_open [] h = refl
chop_open (c ∷ []) h = refl
chop_open (c ∷ d ∷ []) h = ground arith
chop_open (c ∷ d ∷ e ∷ s) h = ap (c ∷◌) (chop_open (d ∷ e ∷ s) h)

pub chop_closed :
    (s : Bytes) → is_empty s ≡ false → ends_with lf s ≡ false → chop (s ++ lf ∷ []) ≡ s
unfolding chop ends_with
chop_closed [] h k = cc
chop_closed (c ∷ []) h k = ground arith
chop_closed (c ∷ d ∷ s) h k =
    chop-cons c d (s ++ lf ∷ []) (more_empty s []) ∙ ap (c ∷◌) (chop_closed (d ∷ s) refl k)

pub ends_with-lf : (s : Bytes) → ends_with lf (s ++ lf ∷ []) ≡ true
ends_with-lf s = ends_with-append lf s (lf ∷ []) refl ∙ (unfold ends_with in ground arith)

with_trailing-append :
    (had : Bool) (s r : Bytes)
    → is_empty r ≡ false
    → with_trailing had (s ++ lf ∷ r) ≡ s ++ lf ∷ with_trailing had r
with_trailing-append false s r h = chop-append s r h
with_trailing-append true s r h =
    let e : ends_with lf (s ++ lf ∷ r) ≡ ends_with lf r =
      ends_with-append lf s (lf ∷ r) refl ∙ ends_with-append lf (lf ∷ []) r h in
    rw e (elim (Bool-cases (ends_with lf r)) [
      | inl k ↦ rw k refl
      | inr k ↦ rw k (append_assoc s (lf ∷ r) (lf ∷ []))
    ])

last_text : (l : EditableLine) → has_ending l.ending ≡ false → normalized_lines (l ∷ []) ≡ l.text
unfolding normalized_lines
last_text l h = rw h (append-nil (l.text ++ []) ∙ append-nil l.text)

last_line :
    (l : EditableLine) → has_ending l.ending ≡ true → normalized_lines (l ∷ []) ≡ l.text ++ lf ∷ []
unfolding normalized_lines
last_line l h = rw h (append-nil (l.text ++ lf ∷ []))

with_trailing_closed :
    (had : Bool) (s : Bytes)
    → HasNoLf s
    → is_empty s ≡ false
    → with_trailing had (s ++ lf ∷ []) ≡ (if had then s ++ lf ∷ [] else s)
with_trailing_closed true s h k = rw (ends_with-lf s) refl
with_trailing_closed false s h k = chop_closed s k (ends_with-lf-append [] s h k)

with_trailing_open :
    (had : Bool) (s : Bytes)
    → HasNoLf s
    → is_empty s ≡ false
    → with_trailing had s ≡ (if had then s ++ lf ∷ [] else s)
with_trailing_open true s h k = rw (ends_with-lf-append [] s h k) refl
with_trailing_open false s h k = chop_open s (ends_with-lf-append [] s h k)

pos_nonempty : (s : Bytes) → 0 < length s → is_empty s ≡ false
pos_nonempty [] h = absurd (omega arith)
pos_nonempty (c ∷ s) h = refl

with_trailing_empty :
    (had : Bool) (s : Bytes) → is_empty s ≡ true → with_trailing had (s ++ lf ∷ []) ≡ s ++ lf ∷ []
unfolding chop ends_with
with_trailing_empty true [] h = refl
with_trailing_empty false [] h = refl
with_trailing_empty had (x ∷ s) h = cc

module _ (c : EditableContent) (dominant : has_ending c.dominant_ending ≡ true) where
  close-empty :
      (l : EditableLine)
      → has_ending l.ending ≡ true
      → is_empty l.text ≡ true
      → close_lines c (l ∷ []) ≡ l ∷ []
  unfolding close_lines
  close-empty l h k = elim (Bool-cases c.had_trailing_newline) [
    | inl t ↦ rw (t, h) refl
    | inr t ↦ rw (t, k) refl
  ]

  close-text :
      (l : EditableLine)
      → is_empty l.text ≡ false
      → normalized_lines (close_lines c (l ∷ []))
        ≡ (if c.had_trailing_newline then l.text ++ lf ∷ [] else l.text)
  unfolding close_lines
  close-text l k = elim (Bool-cases c.had_trailing_newline) [
    | inl t ↦ elim (Bool-cases (has_ending l.ending)) [
      | inl h ↦ rw (t, h) (last_line l h)
      | inr h ↦ rw (t, h) (last_line (record l { ending = c.dominant_ending }) dominant)
    ]
    | inr t ↦ rw (t, k) (last_text (record l { ending = unterminated }) refl)
  ]

  close-single :
      (l : EditableLine)
      → WellFormed (l ∷ [])
      → normalized_lines (close_lines c (l ∷ []))
        ≡ with_trailing c.had_trailing_newline (normalized_lines (l ∷ []))
  close-single l w = elim (Bool-cases (has_ending l.ending)) [
    | inl h ↦ elim (Bool-cases (is_empty l.text)) [
      | inl k ↦
          ap normalized_lines (close-empty l h k)
          ∙ rw (last_line l h) (sym (with_trailing_empty c.had_trailing_newline l.text k))
      | inr k ↦
          close-text l k
          ∙ rw (last_line l h) (sym (with_trailing_closed c.had_trailing_newline l.text w.0 k))
    ]
    | inr h ↦
        close-text l (w.1 h)
        ∙ rw (last_text l h) (sym (with_trailing_open c.had_trailing_newline l.text w.0 (w.1 h)))
  ]

  ended_cons :
      (l : EditableLine) (ls : List EditableLine)
      → has_ending l.ending ≡ true
      → normalized_lines (l ∷ ls) ≡ l.text ++ lf ∷ normalized_lines ls
  unfolding normalized_lines
  ended_cons l ls h = rw h (append_assoc l.text (lf ∷ []) (normalized_lines ls))

  close-cons :
      (l m : EditableLine) (ls : List EditableLine)
      → has_ending l.ending ≡ true
      → close_lines c (l ∷ m ∷ ls) ≡ l ∷ close_lines c (m ∷ ls)
  unfolding close_lines
  close-cons l m ls h = rw h refl

  close_lines-with_trailing :
      (ls : List EditableLine)
      → WellFormed ls
      → is_empty ls ≡ false
      → normalized_lines (close_lines c ls)
        ≡ with_trailing c.had_trailing_newline (normalized_lines ls)
  close_lines-with_trailing [] w h = cc
  close_lines-with_trailing (l ∷ []) w h = close-single l w
  close_lines-with_trailing (l ∷ m ∷ ls) w h =
      ap normalized_lines (close-cons l m ls w.1)
      ∙ ended_cons l (close_lines c (m ∷ ls)) w.1
      ∙ ap (λ r. l.text ++ lf ∷ r) (close_lines-with_trailing (m ∷ ls) w.2 refl)
      ∙ sym (
          with_trailing-append c.had_trailing_newline l.text (normalized_lines (m ∷ ls))
            (pos_nonempty (normalized_lines (m ∷ ls)) (width-pos (m ∷ ls) w.2 (omega arith))))
      ∙ ap (with_trailing c.had_trailing_newline) (sym (ended_cons l (m ∷ ls) w.1))

-- The text behind `preserve_trailing_newline` is the text with the newline at its end that the file
-- had, or without one.
pub normalized-preserve_trailing_newline :
    (c : EditableContent)
    → IsValid c
    → normalized (preserve_trailing_newline c) ≡ with_trailing c.had_trailing_newline (normalized c)
unfolding preserve_trailing_newline normalized chop ends_with
normalized-preserve_trailing_newline c v = preserved c.lines refl
  where
    preserved :
        (ls : List EditableLine)
        → c.lines ≡ ls
        → normalized (preserve_trailing_newline c)
          ≡ with_trailing c.had_trailing_newline (normalized c)
    preserved [] e = rw e (elim (Bool-cases c.had_trailing_newline) [
      | inl t ↦ rw (t, v.dominant) refl
      | inr t ↦ rw t refl
    ])
    preserved (l ∷ ls) e =
        rw e
          (close_lines-with_trailing c v.dominant (l ∷ ls) (subst WellFormed e v.well_formed) refl)

module _ (c : EditableContent) (dominant : has_ending c.dominant_ending ≡ true) where
  WellFormed-close-single :
      (l : EditableLine) → WellFormed (l ∷ []) → WellFormed (close_lines c (l ∷ []))
  unfolding close_lines
  WellFormed-close-single l w = ground arith

  WellFormed-close_lines : (ls : List EditableLine) → WellFormed ls → WellFormed (close_lines c ls)
  WellFormed-close_lines [] w = unfold close_lines in tt
  WellFormed-close_lines (l ∷ []) w = WellFormed-close-single l w
  WellFormed-close_lines (l ∷ m ∷ ls) w =
      subst WellFormed (sym (close-cons c dominant l m ls w.1)) (
        WellFormed-terminated l (close_lines c (m ∷ ls)) w.0 w.1
          (WellFormed-close_lines (m ∷ ls) w.2))

pub preserve_trailing_newline-IsValid :
    (c : EditableContent) → IsValid c → IsValid (preserve_trailing_newline c)
unfolding preserve_trailing_newline
preserve_trailing_newline-IsValid c v = preserved c.lines refl
  where
    preserved : (ls : List EditableLine) → c.lines ≡ ls → IsValid (preserve_trailing_newline c)
    preserved [] e = rw e (elim (Bool-cases c.had_trailing_newline) [
      | inl t ↦ rw t (record { well_formed = (tt, λ h. cc); dominant = v.dominant })
      | inr t ↦ rw t (record { well_formed = tt; dominant = v.dominant })
    ])
    preserved (l ∷ ls) e = rw e (record {
      well_formed = WellFormed-close_lines c v.dominant (l ∷ ls) (subst WellFormed e v.well_formed);
      dominant = v.dominant;
    })
