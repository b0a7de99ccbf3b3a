-- ===== src/Editable/Joins.antt =====
-- The changed lines of `replace_normalized_range` joined to the lines behind them.
use octofs.Prelude.{
  ◌≡◌, refl, sym, ap, ◌∙◌, subst, true, false, not, ◌&&◌, ◌⊎◌, inl, inr, Option, some, List, [],
  ◌∷◌, ◌++◌, append-nil, append_assoc, arith, Bool-cases,
}
use octofs.Text.{Bytes, lf, is_empty, ends_with}
use octofs.Editable.{
  Ending, has_ending, EditableLine, line, lines_with_ending, pop_line, normalized_lines,
  join_suffix,
}
use octofs.Editable.Content.{HasNoLf, WellFormed}
use octofs.Editable.Scans.{normalized_lines-append, WellFormed-tail}
use octofs.Editable.Endings.{
  ended_lines, lines_with_ending-ended, normalized-ended, WellFormed-ended, Terminated-ended,
  Popped-ended, Popped, pop_line-append, WellFormed-terminated, Terminated, WellFormed-append,
}

-- What `join_suffix` gives: the changed text and the suffix behind it, and a newline more where
-- the changed text runs into a last line that had none.
pub record Joined (changed : Bytes) (suffix : List EditableLine) (r : Option (List EditableLine))
    : Type 0 where
  pub new : List EditableLine
  pub returns : r ≡ some new
  pub well_formed : WellFormed new
  pub text :
      (normalized_lines new ≡ changed ++ normalized_lines suffix)
      ⊎ ((normalized_lines new ≡ (changed ++ normalized_lines suffix) ++ lf ∷ [])
          × (ends_with lf (normalized_lines suffix) ≡ false)
          × (is_empty (normalized_lines suffix) ≡ false))

HasNoLf-append : (a b : Bytes) → HasNoLf a → HasNoLf b → HasNoLf (a ++ b)
HasNoLf-append [] b h k = k
HasNoLf-append (c ∷ a) b h k = (h.0, HasNoLf-append a b h.1 k)

pub ends_with-lf-append :
    (a b : Bytes) → HasNoLf b → is_empty b ≡ false → ends_with lf (a ++ b) ≡ false
unfolding ends_with
ends_with-lf-append [] [] h n = cc
ends_with-lf-append [] (c ∷ []) h n = h.0
ends_with-lf-append [] (c ∷ d ∷ b) h n = ends_with-lf-append [] (d ∷ b) h.1 refl
ends_with-lf-append (x ∷ []) [] h n = cc
ends_with-lf-append (x ∷ []) (c ∷ b) h n = ends_with-lf-append [] (c ∷ b) h n
ends_with-lf-append (x ∷ y ∷ a) b h n = ends_with-lf-append (y ∷ a) b h n

last_open :
    (h : EditableLine) (rest : List EditableLine)
    → WellFormed (h ∷ rest)
    → has_ending h.ending ≡ false
    → rest ≡ []
last_open h [] w k = refl
last_open h (m ∷ rest) w k = ground arith

open_text :
    (h : EditableLine) (rest : List EditableLine)
    → WellFormed (h ∷ rest)
    → has_ending h.ending ≡ false
    → is_empty h.text ≡ false
open_text h [] w k = w.1 k
open_text h (m ∷ rest) w k = ground arith

module _ (e : Ending) (he : has_ending e ≡ true) (changed : Bytes) where
  abbrev pub changed_lines : List EditableLine
  changed_lines = lines_with_ending changed e

  pub normalized-changed : normalized_lines changed_lines ≡ changed
  normalized-changed =
      ap normalized_lines (lines_with_ending-ended e changed) ∙ normalized-ended e he changed

  -- with an empty changed text, or one that ends its last line
  Joined-plain :
      (suffix : List EditableLine)
      → WellFormed (changed_lines ++ suffix)
      → Joined changed suffix (some (changed_lines ++ suffix))
  Joined-plain suffix w = record {
    new = changed_lines ++ suffix;
    returns = refl;
    well_formed = w;
    text = inl (
        normalized_lines-append changed_lines suffix
        ∙ ap (◌++ normalized_lines suffix) normalized-changed);
  }

  pub WellFormed-changed : WellFormed changed_lines
  WellFormed-changed =
      subst WellFormed (sym (lines_with_ending-ended e changed)) (WellFormed-ended e he changed)

  Terminated-changed :
      (not (is_empty changed) && not (ends_with lf changed)) ≡ false → Terminated changed_lines
  Terminated-changed h =
      subst Terminated (sym (lines_with_ending-ended e changed)) (closed changed h)
    where
      closed :
          (s : Bytes)
          → (not (is_empty s) && not (ends_with lf s)) ≡ false
          → Terminated (ended_lines e s)
      closed [] k = unfold ended_lines in tt
      closed (c ∷ cs) k = Terminated-ended e he (c ∷ cs) (ground arith)

  Popped-changed :
      (not (is_empty changed) && not (ends_with lf changed)) ≡ true → Popped changed_lines
  Popped-changed h =
      subst Popped (sym (lines_with_ending-ended e changed))
        (Popped-ended e he changed (ground arith) (ground arith))

  module _ (h : EditableLine) (rest : List EditableLine) (w : WellFormed (h ∷ rest)) where
    HasNoLf-head : HasNoLf h.text
    HasNoLf-head = first rest w
      where
        first : (ls : List EditableLine) → WellFormed (h ∷ ls) → HasNoLf h.text
        first [] k = k.0
        first (m ∷ ls) k = k.0

    module _ (p : Popped changed_lines) (t : is_empty changed ≡ false) where
      abbrev merged : List EditableLine
      merged = (p.front ++ line (p.tail.text ++ h.text) e ∷ []) ++ rest

      WellFormed-merged : WellFormed merged
      WellFormed-merged =
          subst WellFormed (sym (append_assoc p.front (line (p.tail.text ++ h.text) e ∷ []) rest)) (
            WellFormed-append p.front (line (p.tail.text ++ h.text) e ∷ rest) p.terminated (
              WellFormed-terminated (line (p.tail.text ++ h.text) e) rest
                (HasNoLf-append p.tail.text h.text p.has_no_lf HasNoLf-head) he
                (WellFormed-tail h rest w)))

      changed_is : changed ≡ normalized_lines p.front ++ p.tail.text
      unfolding normalized_lines
      changed_is =
          sym normalized-changed
          ∙ ap normalized_lines p.splits
          ∙ normalized_lines-append p.front (p.tail ∷ [])
          ∙ rw p.is_open (simp append-nil)

      normalized-merged :
          normalized_lines merged ≡ (changed ++ h.text) ++ (lf ∷ normalized_lines rest)
      unfolding normalized_lines
      normalized-merged = simp (normalized_lines-append, he, append_assoc, changed_is)

      merged_closed :
          has_ending h.ending ≡ true
          → (changed ++ h.text) ++ (lf ∷ normalized_lines rest)
            ≡ changed ++ normalized_lines (h ∷ rest)
      unfolding normalized_lines
      merged_closed k = rw k (simp append_assoc)

      text_open : has_ending h.ending ≡ false → normalized_lines (h ∷ rest) ≡ h.text
      unfolding normalized_lines
      text_open k = rw (k, last_open h rest w k) (simp append-nil)

      merged_open :
          has_ending h.ending ≡ false
          → (normalized_lines merged ≡ (changed ++ normalized_lines (h ∷ rest)) ++ lf ∷ [])
            × (ends_with lf (normalized_lines (h ∷ rest)) ≡ false)
            × (is_empty (normalized_lines (h ∷ rest)) ≡ false)
      unfolding normalized_lines
      merged_open k = rw (text_open k) (
        normalized-merged
            ∙ ap (λ r. (changed ++ h.text) ++ lf ∷ normalized_lines r) (last_open h rest w k),
        ends_with-lf-append [] h.text HasNoLf-head (open_text h rest w k),
        open_text h rest w k,
      )

      Joined-merged : Joined changed (h ∷ rest) (some merged)
      Joined-merged = record {
        new = merged;
        returns = refl;
        well_formed = WellFormed-merged;
        text = elim (Bool-cases (has_ending h.ending)) [
          | inl k ↦ inl (normalized-merged ∙ merged_closed k)
          | inr k ↦ inr (merged_open k)
        ];
      }

  pub join_suffix-Joined :
      (suffix : List EditableLine)
      → WellFormed suffix
      → Joined changed suffix (join_suffix changed e changed_lines suffix)
  unfolding join_suffix
  join_suffix-Joined [] w =
      Joined-plain [] (subst WellFormed (sym (append-nil changed_lines)) WellFormed-changed)
  join_suffix-Joined (h ∷ rest) w =
      elim (Bool-cases (not (is_empty changed) && not (ends_with lf changed))) [
        | inl k ↦
            let p = Popped-changed k in
            rw (k, (ap pop_line p.splits ∙ pop_line-append p.front p.tail))
              (Joined-merged h rest w p (ground arith))
        | inr k ↦ rw k (
            Joined-plain (h ∷ rest)
              (WellFormed-append changed_lines (h ∷ rest) (Terminated-changed k) w))
      ]
