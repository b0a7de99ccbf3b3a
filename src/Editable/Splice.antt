-- ===== src/Editable/Splice.antt =====
-- `replace_normalized_range` replaces exactly the range it is given.
use octofs.Prelude.{
  take-drop-append-drop, ok, ◌||◌, Bool, ap₂, ℕ, suc, ◌+◌, ◌≤◌, ◌<◌, ◌≡◌, refl, sym, ap, ◌∙◌, subst,
  true, false, not, ◌⊎◌, inl, inr, some, List, [], ◌∷◌, ◌++◌, append_assoc, arith, Bool-cases, ltb,
  length, take, drop, take-length-append,
}
use octofs.Text.{Bytes, lf, is_empty, ends_with, slice}
use octofs.Text.Ends.{ends_with-append, is_empty-append_right}
use octofs.Editable.{
  scan_init, Bool, extend_lines, Option, EditableLine, EditableContent, normalized_lines,
  normalized, lines_with_ending, Edited, Scan, scan, splice_lines, replace_found,
  replace_normalized_range, is_char_boundary, last_offset_of,
}
use octofs.Editable.Content.{WellFormed, IsValid}
use octofs.Editable.Scans.{
  width-pos, width-nil, normalized_lines-append, width, Region, scan-Region,
}
use octofs.Editable.Endings.{WellFormed-append, Terminated}
use octofs.Editable.Joins.{WellFormed-changed, normalized-changed, Joined, join_suffix-Joined}
use octofs.Editable.Parts.{
  splice, changed_text, parts-WellFormed, splice_nil, eq_nil_of_is_empty, length-pos, last_lt,
  last_covered, last-Ahead, take_first, drop_two, take_two,
}

-- What an edit of the range leaves: the replaced text, with a newline more only where text is left
-- behind the range that does not end with one.
pub record Spliced (c : EditableContent) (start end : ℕ) (r : Bytes) (res : Edited) : Type 0 where
  pub edited : EditableContent
  pub returns : res ≡ ok edited
  pub valid : IsValid edited
  pub dominant : edited.dominant_ending ≡ c.dominant_ending
  pub trailing : edited.had_trailing_newline ≡ c.had_trailing_newline
  pub text :
      (normalized edited ≡ splice (normalized c) start end r)
      ⊎ ((normalized edited ≡ splice (normalized c) start end r ++ lf ∷ [])
          × (ends_with lf (drop end (normalized c)) ≡ false)
          × (is_empty (drop end (normalized c)) ≡ false))

module _ (c : EditableContent) (v : IsValid c) (start end : ℕ) (r : Bytes) where
  abbrev content : Bytes
  content = normalized c

  module _ (pre mid post : List EditableLine) (k : ℕ) (splits : c.lines ≡ pre ++ (mid ++ post))
      (length_mid : length mid ≡ suc k) (begins : width pre ≤ start)
      (covered : end ≤ width pre + width mid) where
    abbrev changed : Bytes
    changed = slice (width pre) start content ++ (r ++ slice end (width pre + width mid) content)

    content_is : content ≡ normalized_lines pre ++ (normalized_lines mid ++ normalized_lines post)
    unfolding normalized
    content_is =
        ap normalized_lines splits
        ∙ normalized_lines-append pre (mid ++ post)
        ∙ ap (normalized_lines pre ++◌) (normalized_lines-append mid post)

    kept_before : take (length pre) (take (length pre + k + 1) c.lines) ≡ pre
    kept_before =
        ap (take (length pre)) (take_two pre mid post c.lines splits _ (omega arith))
        ∙ take-length-append pre mid

    kept_behind : drop (length pre + k + 1) c.lines ≡ post
    kept_behind = drop_two pre mid post c.lines splits _ (omega arith)

    spliced_text :
        normalized_lines pre ++ (changed ++ normalized_lines post) ≡ splice content start end r
    spliced_text =
        ap₂ (λ p q. p ++ (changed ++ q))
          (sym (
            take_first (normalized_lines pre) (normalized_lines mid) (normalized_lines post) content
              content_is))
          (sym (
            drop_two (normalized_lines pre) (normalized_lines mid) (normalized_lines post) content
              content_is (width pre + width mid) refl))
        ∙ changed_text content r start end (width pre) (width pre + width mid) begins covered

    normalized-extended :
        (new : List EditableLine)
        → normalized (record c { lines = pre ++ new })
          ≡ normalized_lines pre ++ normalized_lines new
    unfolding normalized
    normalized-extended new = normalized_lines-append pre new

    extended_text :
        (new : List EditableLine) (t : Bytes)
        → normalized_lines new ≡ (changed ++ normalized_lines post) ++ t
        → normalized (record c { lines = pre ++ new }) ≡ splice content start end r ++ t
    extended_text new t e =
        normalized-extended new
        ∙ ap (normalized_lines pre ++◌) e
        ∙ sym (append_assoc (normalized_lines pre) (changed ++ normalized_lines post) t)
        ∙ ap (◌++ t) spliced_text

    behind_text :
        drop end content ≡ slice end (width pre + width mid) content ++ normalized_lines post
    behind_text =
        sym (take-drop-append-drop end (width pre + width mid) content covered)
        ∙ ap (slice end (width pre + width mid) content ++◌) (
            drop_two (normalized_lines pre) (normalized_lines mid) (normalized_lines post) content
              content_is (width pre + width mid) refl)

    spliced_cases :
        (new : List EditableLine)
        → ((normalized_lines new ≡ changed ++ normalized_lines post)
            ⊎ ((normalized_lines new ≡ (changed ++ normalized_lines post) ++ lf ∷ [])
                × (ends_with lf (normalized_lines post) ≡ false)
                × (is_empty (normalized_lines post) ≡ false)))
        → (normalized (record c { lines = pre ++ new }) ≡ splice content start end r)
          ⊎ ((normalized (record c { lines = pre ++ new }) ≡ splice content start end r ++ lf ∷ [])
              × (ends_with lf (drop end content) ≡ false)
              × (is_empty (drop end content) ≡ false))
    spliced_cases new (inl e) =
        inl (normalized-extended new ∙ ap (normalized_lines pre ++◌) e ∙ spliced_text)
    spliced_cases new (inr (e, f, g)) = inr (
      extended_text new (lf ∷ []) e,
      ap (ends_with lf) behind_text
          ∙ ends_with-append lf (slice end (width pre + width mid) content) (normalized_lines post)
              g
          ∙ f,
      ap is_empty behind_text
          ∙ is_empty-append_right (slice end (width pre + width mid) content)
              (normalized_lines post) g,
    )

    extend_lines-Spliced :
        {j : Option (List EditableLine)}
        → Terminated pre
        → Joined changed post j
        → Spliced c start end r (extend_lines c pre j)
    extend_lines-Spliced t joined = record {
      edited = record c { lines = pre ++ joined.new };
      returns = rw joined.returns;
      valid = record {
        well_formed = WellFormed-append pre joined.new t joined.well_formed;
        dominant = v.dominant;
      };
      dominant = refl;
      trailing = refl;
      text = spliced_cases joined.new joined.text;
    }

    splice_lines-Spliced : Spliced c start end r (
        splice_lines c content start end r
          (length pre)
          (length pre + k)
          (width pre)
          (width pre + width mid))
    unfolding splice_lines
    splice_lines-Spliced =
        let w =
          parts-WellFormed pre mid post (omega arith) (subst WellFormed splits v.well_formed) in
        rw (kept_before, kept_behind)
          (extend_lines-Spliced w.0
            (join_suffix-Joined c.dominant_ending v.dominant changed post w.1))

  scanned-Spliced :
      (st : Scan)
      → start ≤ end
      → end ≤ length content
      → Region c.lines 0 0 start (last_offset_of start end (length content)) st
      → Spliced c start end r (replace_found c content start end r st)
  unfolding replace_found
  scanned-Spliced st le within g =
      let rs : st.region_start ≡ width g.pre = omega (arith, g.region_start) in
      let re : st.region_end ≡ width g.pre + width g.mid = omega (arith, g.region_end) in
      let i : st.start_line ≡ some (length g.pre) = g.start_line ∙ ap some (omega arith) in
      let j : st.end_line ≡ some (length g.pre + g.k) = g.end_line ∙ ap some (omega arith) in
      rw (i, j, rs, re)
        (splice_lines-Spliced g.pre g.mid g.post g.k g.splits g.length_mid (omega (arith, g.begins))
          (last_covered (length content) le within (width g.pre + width g.mid)
            (omega (arith, g.covered))))

  abbrev guard : Bool
  guard =
      ltb end start
      || (ltb (length content) end
          || (not (is_char_boundary content start) || not (is_char_boundary content end)))

  replace_scans :
      guard ≡ false
      → is_empty c.lines ≡ false
      → replace_normalized_range c start end r
        ≡ replace_found c content start end r (
            scan start
              (last_offset_of start end (length content))
              (length content)
              (length c.lines)
              0
              c.lines
              scan_init)
  unfolding replace_normalized_range
  replace_scans g h = rw (g, h)

  replace_fills :
      guard ≡ false
      → is_empty c.lines ≡ true
      → replace_normalized_range c start end r
        ≡ ok (record c { lines = lines_with_ending r c.dominant_ending })
  unfolding replace_normalized_range
  replace_fills g h = rw (g, h)

  filled-Spliced :
      start ≤ end
      → end ≤ length content
      → is_empty c.lines ≡ true
      → Spliced c start end r (ok (record c { lines = lines_with_ending r c.dominant_ending }))
  unfolding normalized
  filled-Spliced le within h =
      let e = eq_nil_of_is_empty c.lines h in
      let n : length content ≡ 0 = ap width e ∙ width-nil in
      record {
        edited = record c { lines = lines_with_ending r c.dominant_ending };
        returns = refl;
        valid = record {
          well_formed = WellFormed-changed c.dominant_ending v.dominant r;
          dominant = v.dominant;
        };
        dominant = refl;
        trailing = refl;
        text = inl (
            normalized-changed c.dominant_ending v.dominant r
            ∙ splice_nil start end content r n (omega arith) (omega arith));
      }

  content-pos : is_empty c.lines ≡ false → 0 < length content
  unfolding normalized
  content-pos h = width-pos c.lines v.well_formed (length-pos c.lines h)

  -- For well-formed lines, a range within the text, at character boundaries, is replaced: the edit never fails, keeps the
  -- lines valid, and leaves the text before and behind the range as it was, but for one newline that may
  -- be added at the end where text is behind the range and does not end with one.
  pub replace_normalized_range-Spliced :
      start ≤ end
      → end ≤ length content
      → is_char_boundary content start ≡ true
      → is_char_boundary content end ≡ true
      → Spliced c start end r (replace_normalized_range c start end r)
  replace_normalized_range-Spliced le within b1 b2 =
      let g : guard ≡ false = ground arith in
      elim (Bool-cases (is_empty c.lines)) [
        | inl h ↦ rw (replace_fills g h) (filled-Spliced le within h)
        | inr h ↦ rw (replace_scans g h) (
            scanned-Spliced _ le within (
              scan-Region start _ (length content) (length c.lines) 0 0 c.lines v.well_formed
                (omega arith) (unfold normalized in omega arith) (omega arith)
                (last_lt (length content) le within (content-pos h))
                (last-Ahead (length content) le within (length c.lines) (content-pos h)
                  (length-pos c.lines h))))
      ]
