-- ===== src/StrReplace/Terminators.antt =====
-- Which terminators the lines of a file have behind the edits by exact texts.
use octofs.Prelude.{
  ok, err, bound, subst_ok, ℕ, zero, suc, ◌+◌, ◌≡◌, refl, sym, subst, Bool, true, false, not, ◌&&◌,
  ◌⊎◌, inl, inr, Option, none, some, List, [], ◌∷◌, ◌++◌, map, Bool-cases, Option-cases, length,
  take, drop, All, All-imp, if◌then◌else◌,
}
use octofs.Text.{Bytes, lf, is_empty, ends_with, split_inclusive, strip_suffix, slice}
use octofs.Editable.{
  Ending, unterminated, EditableLine, line, EditableContent, Edited, end_piece, lines_with_ending,
  pop_line, join_suffix, extend_lines, splice_lines, replace_found, replace_normalized_range, Scan,
  has_ending, terminate, close_lines, preserve_trailing_newline, normalized, invalid_range, scan,
  scan_init, last_offset_of, close_last, start_out_of_bounds, end_out_of_bounds,
}
use octofs.StrReplace.{replace_positions}

-- The line ends as a line that an edit makes: with this terminator or with none.
abbrev pub IsMade : Ending → EditableLine → Type 0
IsMade e l = (l.ending ≡ e) ⊎ (l.ending ≡ unterminated)

-- A line of the list, with its terminator.
abbrev pub IsIn : EditableLine → List EditableLine → Type 0
IsIn l [] = ⊥
IsIn l (x ∷ xs) = (x ≡ l) ⊎ IsIn l xs

module _ (P : EditableLine → Type 0) where
  All-append : (a b : List EditableLine) → All P a → All P b → All P (a ++ b)
  All-append [] b h k = k
  All-append (x ∷ a) b h k = (h.0, All-append a b h.1 k)

  All-take : (n : ℕ) (a : List EditableLine) → All P a → All P (take n a)
  All-take zero a h = tt
  All-take (suc n) [] h = tt
  All-take (suc n) (x ∷ a) h = (h.0, All-take n a h.1)

  All-drop : (n : ℕ) (a : List EditableLine) → All P a → All P (drop n a)
  All-drop zero a h = h
  All-drop (suc n) [] h = tt
  All-drop (suc n) (x ∷ a) h = All-drop n a h.1

  All-pop_line :
      (a : List EditableLine) {front : List EditableLine} {tail : EditableLine}
      → pop_line a ≡ some (front, tail)
      → All P a
      → All P front
  All-pop_line [] h k = cc
  All-pop_line (x ∷ a) {front} {tail} h k = elim (Option-cases (pop_line a)) [
    | inl e ↦
        let q : ◌≡◌ {A = Option (List EditableLine × EditableLine)} (some ([], x))
            (some (front, tail)) =
          rw e at h in
        let r : [] ≡ front = cc in subst (All P) r tt
    | inr ((i, y), e) ↦
        let q : ◌≡◌ {A = Option (List EditableLine × EditableLine)} (some (x ∷ i, y))
            (some (front, tail)) =
          rw e at h in
        let r : x ∷ i ≡ front = cc in subst (All P) r (k.0, All-pop_line a e k.1)
  ]

  module _ (e : Ending) (made : (l : EditableLine) → IsMade e l → P l) where
    All-end_piece : (ps : List Bytes) → All P (map (end_piece e) ps)
    All-end_piece [] = tt
    All-end_piece (p ∷ ps) =
        (made (end_piece e p) (go (strip_suffix (lf ∷ []) p)), All-end_piece ps)
      where
        go :
            (o : Option Bytes)
            → IsMade e (elim o [ some text ↦ line text e | none ↦ line p unterminated ])
        go none = inr refl
        go (some text) = inl refl

    All-lines_with_ending : (content : Bytes) → All P (lines_with_ending content e)
    unfolding lines_with_ending
    All-lines_with_ending content = All-end_piece (split_inclusive lf content)

    All-join_suffix :
        (changed : Bytes) (a b : List EditableLine) {new : List EditableLine}
        → join_suffix changed e a b ≡ some new
        → All P a
        → All P b
        → All P new
    unfolding join_suffix
    All-join_suffix changed a [] {new} h p q =
        let k : a ++ [] ≡ new = cc in subst (All P) k (All-append a [] p tt)
    All-join_suffix changed a (head ∷ rest) {new} h p q =
        joined (not (is_empty changed) && not (ends_with lf changed)) (pop_line a) refl h
      where
        joined :
            (b : Bool) (o : Option (List EditableLine × EditableLine))
            → pop_line a ≡ o
            → (if b
                then elim o [
                  | none ↦ none
                  | some (front, tail) ↦
                      some ((front ++ line (tail.text ++ head.text) e ∷ []) ++ rest)
                ]
                else some (a ++ head ∷ rest))
              ≡ some new
            → All P new
        joined false o r k =
            let m : a ++ head ∷ rest ≡ new = cc in subst (All P) m (All-append a (head ∷ rest) p q)
        joined true none r k = cc
        joined true (some (front, tail)) r k =
            let m : (front ++ line (tail.text ++ head.text) e ∷ []) ++ rest ≡ new = cc in
            subst (All P) m (
              All-append (front ++ line (tail.text ++ head.text) e ∷ []) rest
                (All-append front (line (tail.text ++ head.text) e ∷ []) (All-pop_line a r p)
                  (made _ (inl refl), tt))
                q.1)

    -- The edit keeps the dominant terminator, and its lines satisfy the predicate.
    abbrev pub Made : EditableContent → Type 0
    Made d = (d.dominant_ending ≡ e) × All P d.lines

    module _ (c : EditableContent) (k : Made c) where
      extend_lines-Made :
          (front : List EditableLine) (o : Option (List EditableLine)) {d : EditableContent}
          → All P front
          → ((new : List EditableLine) → o ≡ some new → All P new)
          → extend_lines c front o ≡ ok d
          → Made d
      extend_lines-Made front none p q h = cc
      extend_lines-Made front (some new) p q h =
          subst_ok Made h (k.0, All-append front new p (q new refl))

      splice_lines-Made :
          (content : Bytes) (start end : ℕ) (r : Bytes) (i j rs re : ℕ) {d : EditableContent}
          → splice_lines c content start end r i j rs re ≡ ok d
          → Made d
      unfolding splice_lines
      splice_lines-Made content start end r i j rs re h =
          let changed = slice rs start content ++ (r ++ slice end re content) in
          let behind = drop (j + 1) c.lines in
          extend_lines-Made (take i (take (j + 1) c.lines)) _
            (All-take i (take (j + 1) c.lines) (All-take (j + 1) c.lines k.1))
            (λ new q.
              All-join_suffix changed (lines_with_ending changed e) behind
                (subst (λ x. join_suffix changed x (lines_with_ending changed x) behind ≡ some new)
                  k.0 q)
                (All-lines_with_ending changed) (All-drop (j + 1) c.lines k.1))
            h

      replace_found-Made :
          (content : Bytes) (start end : ℕ) (r : Bytes) (st : Scan) {d : EditableContent}
          → replace_found c content start end r st ≡ ok d
          → Made d
      unfolding replace_found
      replace_found-Made content start end r st {d} h = found st.start_line st.end_line h
        where
          found :
              (a b : Option ℕ)
              → elim a [
                | none ↦ err start_out_of_bounds
                | some i ↦ elim b [
                  | none ↦ err end_out_of_bounds
                  | some j ↦ splice_lines c content start end r i j st.region_start st.region_end
                ]
              ]
                ≡ ok d
              → Made d
          found none b q = cc
          found (some i) none q = cc
          found (some i) (some j) q =
              splice_lines-Made content start end r i j st.region_start st.region_end q

      replace_normalized_range-Made :
          (start end : ℕ) (r : Bytes) {d : EditableContent}
          → replace_normalized_range c start end r ≡ ok d
          → Made d
      unfolding replace_normalized_range
      replace_normalized_range-Made start end r {d} h =
          guarded _ (is_empty c.lines) _
            (replace_found-Made (normalized c) start end r (
              scan start (last_offset_of start end (length (normalized c))) (length (normalized c))
                (length c.lines) 0 c.lines scan_init))
            h
        where
          guarded :
              (g b : Bool) (found : Edited)
              → (found ≡ ok d → Made d)
              → (if g
                  then err (invalid_range start end)
                  else if b
                  then ok (record c { lines = lines_with_ending r c.dominant_ending })
                  else found)
                ≡ ok d
              → Made d
          guarded true b found f q = cc
          guarded false true found f q =
              subst_ok Made q (
                k.0,
                subst (λ x. All P (lines_with_ending r x)) (sym k.0) (All-lines_with_ending r),
              )
          guarded false false found f q = f q

    pub replace_positions-Made :
        (len : ℕ) (new : Bytes) (c : EditableContent) (positions : List ℕ) {d : EditableContent}
        → Made c
        → replace_positions len new c positions ≡ ok d
        → Made d
    unfolding replace_positions
    replace_positions-Made len new c [] k h = subst_ok Made h k
    replace_positions-Made len new c (i ∷ is) k h =
        let (m, p, q) =
          bound (replace_positions len new c is)
            (λ edited. replace_normalized_range edited i (i + len) new) h in
        replace_normalized_range-Made m (replace_positions-Made len new c is k p) i (i + len) new q

    All-terminate : (l : EditableLine) → P l → P (terminate e l)
    All-terminate l p = elim (Bool-cases (has_ending l.ending)) [
      | inl h ↦ rw h p
      | inr h ↦ rw h (made (record l { ending = e }) (inl refl))
    ]

    close_last-Made :
        (c : EditableContent) (l : EditableLine) → c.dominant_ending ≡ e → P l → P (close_last c l)
    close_last-Made c l k p = elim (Bool-cases c.had_trailing_newline) [
      | inl h ↦ rw (h, k) (All-terminate l p)
      | inr h ↦ elim (Bool-cases (is_empty l.text)) [
        | inl f ↦ rw (h, f) p
        | inr f ↦ rw (h, f) (made (record l { ending = unterminated }) (inr refl))
      ]
    ]

    close_lines-Made :
        (c : EditableContent) (ls : List EditableLine)
        → c.dominant_ending ≡ e
        → All P ls
        → All P (close_lines c ls)
    unfolding close_lines
    close_lines-Made c [] k p = tt
    close_lines-Made c (l ∷ []) k p = (close_last-Made c l k p.0, tt)
    close_lines-Made c (l ∷ m ∷ ls) k p =
        (rw k (All-terminate l p.0), close_lines-Made c (m ∷ ls) k p.1)

    abbrev AllLines : EditableContent → Type 0
    AllLines d = All P d.lines

    pub preserve_trailing_newline-Made :
        (c : EditableContent) → Made c → All P (preserve_trailing_newline c).lines
    unfolding preserve_trailing_newline
    preserve_trailing_newline-Made c k = go c.lines k.1
      where
        go :
            (ls : List EditableLine)
            → All P ls
            → AllLines (elim ls [
              | [] ↦
                  if c.had_trailing_newline
                  then record c { lines = line [] c.dominant_ending ∷ [] }
                  else c
              | l ∷ ms ↦ record c { lines = close_lines c (l ∷ ms) }
            ])
        go [] p = elim (Bool-cases c.had_trailing_newline) [
          | inl h ↦ rw h (made (line [] c.dominant_ending) (inl k.0), tt)
          | inr h ↦ rw h k.1
        ]
        go (l ∷ ms) p = close_lines-Made c (l ∷ ms) k.0 p

-- A line of the file, with its terminator, or a line with the dominant terminator or none.
abbrev pub Stands : EditableContent → EditableLine → Type 0
Stands c l = IsIn l c.lines ⊎ IsMade c.dominant_ending l

All-IsIn : (ls : List EditableLine) → All (λ l. IsIn l ls) ls
All-IsIn [] = tt
All-IsIn (x ∷ ls) = (inl refl, All-imp ls (λ l h. inr h) (All-IsIn ls))

-- The edits leave no other lines, and no other terminators.
pub replaced-Stands :
    (len : ℕ) (new : Bytes) (c : EditableContent) (positions : List ℕ) {d : EditableContent}
    → replace_positions len new c positions ≡ ok d
    → All (Stands c) (preserve_trailing_newline d).lines
replaced-Stands len new c positions {d} h =
    let made : (l : EditableLine) → IsMade c.dominant_ending l → Stands c l = λ l m. inr m in
    preserve_trailing_newline-Made (Stands c) c.dominant_ending made d (
      replace_positions-Made (Stands c) c.dominant_ending made len new c positions
        (refl, All-imp c.lines (λ l i. inl i) (All-IsIn c.lines)) h)
