-- ===== src/StrReplace/Steps.antt =====
-- One replacement among several: the text behind it is already replaced.
use octofs.Prelude.{
  ok, ◌+◌, ◌≡◌, refl, sym, ap, ap₂, ◌∙◌, true, false, ◌⊎◌, inl, inr, [], ◌∷◌, ◌++◌, append_assoc,
  arith, length, length-append, take, drop, drop-length-append, take-length-append,
}
use octofs.Text.{Bytes, lf, is_empty, ends_with}
use octofs.Text.Ends.{ends_with-append, is_empty-append_right}
use octofs.Editable.{
  EditableContent, Edited, normalized, replace_normalized_range, is_char_boundary,
}
use octofs.Editable.Content.{IsValid}
use octofs.Editable.Parts.{splice}
use octofs.Editable.Splice.{Spliced, replace_normalized_range-Spliced}
use octofs.Editable.Trailing.{ends_with-lf}
use octofs.StrReplace.Utf8.{starts_char, is_char_boundary-append}

-- The text of an edited content: with a newline more only behind a rest that does not end with one.
abbrev pub TextIs : EditableContent → Bytes → Bytes → Type 0
TextIs edited p rest =
    (normalized edited ≡ p ++ rest)
    ⊎ ((normalized edited ≡ (p ++ rest) ++ lf ∷ [])
        × (ends_with lf rest ≡ false)
        × (is_empty rest ≡ false))

pub TextIs-shift :
    (edited : EditableContent) (p a rest : Bytes)
    → TextIs edited (p ++ a) rest
    → TextIs edited p (a ++ rest)
TextIs-shift edited p a rest (inl e) = inl (e ∙ append_assoc p a rest)
TextIs-shift edited p a rest (inr (e, f, g)) = inr (
  e ∙ ap (◌++ lf ∷ []) (append_assoc p a rest),
  ends_with-append lf a rest g ∙ f,
  is_empty-append_right a rest g,
)

pub record Replaced (c : EditableContent) (p rest : Bytes) (res : Edited) : Type 0 where
  pub edited : EditableContent
  pub returns : res ≡ ok edited
  pub valid : IsValid edited
  pub trailing : edited.had_trailing_newline ≡ c.had_trailing_newline
  pub text : TextIs edited p rest

starts_char-append :
    (s t : Bytes) → starts_char s ≡ true → starts_char t ≡ true → starts_char (s ++ t) ≡ true
starts_char-append [] t h k = k
starts_char-append (b ∷ s) t h k = h

drop-parts :
    (p old rest content : Bytes)
    → content ≡ (p ++ old) ++ rest
    → drop (length p + length old) content ≡ rest
drop-parts p old rest content e =
    ap (λ k. drop k content) (sym (length-append p old))
    ∙ ap (drop (length (p ++ old))) e
    ∙ drop-length-append (p ++ old) rest

-- The text with `r` in the place of `old`.
splice-parts :
    (p old rest r content : Bytes)
    → content ≡ (p ++ old) ++ rest
    → splice content (length p) (length p + length old) r ≡ p ++ (r ++ rest)
splice-parts p old rest r content e =
    ap₂ (λ q t. q ++ (r ++ t))
      (ap (take (length p)) (e ∙ append_assoc p old rest) ∙ take-length-append p (old ++ rest))
      (drop-parts p old rest content e)

module _ (c : EditableContent) (v : IsValid c) (p old rest new : Bytes)
    (o : starts_char (old ++ rest) ≡ true) (s : starts_char rest ≡ true)
    (e : normalized c ≡ (p ++ old) ++ rest) where
  Spliced-parts :
      Spliced c
        (length p)
        (length p + length old)
        new
        (replace_normalized_range c (length p) (length p + length old) new)
  Spliced-parts =
      replace_normalized_range-Spliced c v (length p) (length p + length old) new (omega arith)
        (omega (arith, ap length e, length-append (p ++ old) rest, length-append p old))
        (ap (λ t. is_char_boundary t (length p)) (e ∙ append_assoc p old rest)
          ∙ is_char_boundary-append p (old ++ rest) o)
        (ap₂ is_char_boundary e (sym (length-append p old))
          ∙ is_char_boundary-append (p ++ old) rest s)

  -- What the edit of one occurrence leaves, with `t` for the end that an earlier edit left.
  spliced_text :
      (edited : EditableContent)
      → ((normalized edited ≡ splice (normalized c) (length p) (length p + length old) new)
          ⊎ ((normalized edited
                ≡ splice (normalized c) (length p) (length p + length old) new ++ lf ∷ [])
              × (ends_with lf (drop (length p + length old) (normalized c)) ≡ false)
              × (is_empty (drop (length p + length old) (normalized c)) ≡ false)))
      → TextIs edited p (new ++ rest)
  spliced_text edited (inl h) = inl (h ∙ splice-parts p old rest new (normalized c) e)
  spliced_text edited (inr (h, f, g)) =
      let d = drop-parts p old rest (normalized c) e in
      let n : is_empty rest ≡ false = ap is_empty (sym d) ∙ g in
      inr (
        h ∙ ap (◌++ lf ∷ []) (splice-parts p old rest new (normalized c) e),
        ends_with-append lf new rest n ∙ ap (ends_with lf) (sym d) ∙ f,
        is_empty-append_right new rest n,
      )

-- Of an occurrence with the rest behind it replaced.
module _ (c : EditableContent) (v : IsValid c) (p old rest new : Bytes)
    (o : (t : Bytes) → starts_char (old ++ t) ≡ true) (s : starts_char rest ≡ true) where
  pub step-Replaced :
      TextIs c (p ++ old) rest
      → Replaced c p
          (new ++ rest)
          (replace_normalized_range c (length p) (length p + length old) new)
  step-Replaced (inl e) =
      let r = Spliced-parts c v p old rest new (o rest) s e in
      record {
        edited = r.edited;
        returns = r.returns;
        valid = r.valid;
        trailing = r.trailing;
        text = spliced_text c v p old rest new (o rest) s e r.edited r.text;
      }
  step-Replaced (inr (e, f, g)) =
      let s' : starts_char (rest ++ lf ∷ []) ≡ true = starts_char-append rest (lf ∷ []) s refl in
      let e' = e ∙ append_assoc (p ++ old) rest (lf ∷ []) in
      let r = Spliced-parts c v p old (rest ++ lf ∷ []) new (o (rest ++ lf ∷ [])) s' e' in
      record {
        edited = r.edited;
        returns = r.returns;
        valid = r.valid;
        trailing = r.trailing;
        text = closed_text r.edited f g (
            spliced_text c v p old (rest ++ lf ∷ []) new (o (rest ++ lf ∷ [])) s' e' r.edited
              r.text);
      }
    where
      closed_text :
          (edited : EditableContent)
          → ends_with lf rest ≡ false
          → is_empty rest ≡ false
          → TextIs edited p (new ++ (rest ++ lf ∷ []))
          → TextIs edited p (new ++ rest)
      closed_text edited f g (inl h) = inr (
        h
            ∙ ap (p ++◌) (sym (append_assoc new rest (lf ∷ [])))
            ∙ sym (append_assoc p (new ++ rest) (lf ∷ [])),
        ends_with-append lf new rest g ∙ f,
        is_empty-append_right new rest g,
      )
      closed_text edited f g (inr (h, k, l)) =
          let e1 =
            ends_with-append lf new (rest ++ lf ∷ []) (is_empty-append_right rest (lf ∷ []) refl) in
          let e2 = ends_with-lf rest in absurd (cc)
