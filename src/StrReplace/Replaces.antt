-- ===== src/StrReplace/Replaces.antt =====
-- The replacements of all occurrences, the last first, together.
use octofs.Prelude.{
  ◌>>=◌, ℕ, zero, suc, ◌+◌, ◌-◌, ◌≡◌, refl, sym, ap, ◌∙◌, subst, true, false, inl, inr, [], ◌∷◌,
  ◌++◌, append_assoc, append-nil, arith, Bool-cases, length, length-append, take, drop, ◌<◌,
  take_all, take-length-append,
}
use octofs.Text.{Bytes, is_empty, starts_with, replace_from, match_indices_from}
use octofs.Editable.{EditableContent, normalized, replace_normalized_range}
use octofs.Editable.Content.{IsValid}
use octofs.StrReplace.{replace_positions}
use octofs.StrReplace.Utf8.{is_utf8, is_utf8-tail, is_utf8-behind, starts_char, starts_char-is_utf8}
use octofs.StrReplace.Matches.{starts_with-append, match_hit, match_miss, drop_pred, length-pos}
use octofs.StrReplace.Steps.{TextIs, TextIs-shift, Replaced, step-Replaced}

take_pred : (n c : ℕ) (s : Bytes) → 0 < n → take n (c ∷ s) ≡ c ∷ take (n - 1) s
take_pred zero c s h = absurd (omega arith)
take_pred (suc n) c s h = ap (λ k. c ∷ take k s) (omega arith)

pub replace_hit :
    (old new : Bytes) (c : ℕ) (s : Bytes)
    → starts_with old (c ∷ s) ≡ true
    → replace_from old new 0 (c ∷ s) ≡ new ++ replace_from old new (length old - 1) s
unfolding replace_from
replace_hit old new c s h = rw (h, replace_from) refl

replace_skip :
    (old new : Bytes) (k c : ℕ) (s : Bytes)
    → replace_from old new (suc k) (c ∷ s) ≡ replace_from old new k s
unfolding replace_from
replace_skip old new k c s = refl

pub replace_miss :
    (old new : Bytes) (c : ℕ) (s : Bytes)
    → starts_with old (c ∷ s) ≡ false
    → replace_from old new 0 (c ∷ s) ≡ c ∷ replace_from old new 0 s
unfolding replace_from
replace_miss old new c s h = rw (h, replace_from) refl

module _ (old new : Bytes) (n : is_empty old ≡ false) (u_old : is_utf8 0 old ≡ true)
    (u_new : is_utf8 0 new ≡ true) where
  -- Behind the occurrence at the head of a text.
  behind-is_utf8 :
      (j c : ℕ) (s : Bytes)
      → is_utf8 j (c ∷ s) ≡ true
      → starts_with old (c ∷ s) ≡ true
      → is_utf8 0 (drop (length old - 1) s) ≡ true
  behind-is_utf8 j c s u h =
      ap (is_utf8 0) (sym (drop_pred (length old) c s (length-pos old n)))
      ∙ is_utf8-behind j old (drop (length old) (c ∷ s)) u_old n
          (ap (is_utf8 j) (sym (starts_with-append old (c ∷ s) h)) ∙ u)

  starts_char-behind : (t : Bytes) → starts_char t ≡ true → starts_char (new ++ t) ≡ true
  starts_char-behind t h = cases new u_new
    where
      cases : (r : Bytes) → is_utf8 0 r ≡ true → starts_char (r ++ t) ≡ true
      cases [] u = h
      cases (b ∷ r) u = starts_char-is_utf8 (b ∷ r) u

  starts_char-replaced :
      (k : ℕ) (s : Bytes)
      → is_utf8 0 (drop k s) ≡ true
      → starts_char (replace_from old new k s) ≡ true
  starts_char-replaced k [] u = unfold replace_from in refl
  starts_char-replaced (suc k) (c ∷ s) u =
      ap starts_char (replace_skip old new k c s) ∙ starts_char-replaced k s u
  starts_char-replaced zero (c ∷ s) u = elim (Bool-cases (starts_with old (c ∷ s))) [
    | inl h ↦
        ap starts_char (replace_hit old new c s h)
        ∙ starts_char-behind _ (starts_char-replaced (length old - 1) s (behind-is_utf8 0 c s u h))
    | inr h ↦ ap starts_char (replace_miss old new c s h) ∙ starts_char-is_utf8 (c ∷ s) u
  ]

  module _ (c : EditableContent) (v : IsValid c) where
    abbrev Done : Bytes → ℕ → Bytes → Type 0
    Done p k s =
        Replaced c (p ++ take k s) (replace_from old new k s)
          (replace_positions (length old) new c (match_indices_from old (length p) k s))

    Done-nil : (p : Bytes) (k : ℕ) → normalized c ≡ p ++ [] → Done p k []
    unfolding replace_from match_indices_from replace_positions
    Done-nil p k e = record {
      edited = c;
      returns = refl;
      valid = v;
      trailing = refl;
      text =
          inl (
            e ∙ ap (p ++◌) (sym (take_all k [] (omega arith))) ∙ sym (append-nil (p ++ take k [])));
    }

    at_end :
        (p : Bytes) (b k : ℕ) (s : Bytes)
        → match_indices_from old (length p + 1) k s
          ≡ match_indices_from old (length (p ++ b ∷ [])) k s
    at_end p b k s = ap (λ i. match_indices_from old i k s) (sym (length-append p (b ∷ [])))

    Done-skip : (p : Bytes) (k b : ℕ) (s : Bytes) → Done (p ++ b ∷ []) k s → Done p (suc k) (b ∷ s)
    unfolding replace_from match_indices_from
    Done-skip p k b s d = record {
      edited = d.edited;
      returns = ap (replace_positions (length old) new c) (at_end p b k s) ∙ d.returns;
      valid = d.valid;
      trailing = d.trailing;
      text =
          subst (λ q. TextIs d.edited q (replace_from old new k s))
            (append_assoc p (b ∷ []) (take k s)) d.text;
    }

    Done-miss :
        (p : Bytes) (b : ℕ) (s : Bytes)
        → starts_with old (b ∷ s) ≡ false
        → Done (p ++ b ∷ []) 0 s
        → Done p 0 (b ∷ s)
    Done-miss p b s h d = record {
      edited = d.edited;
      returns =
          ap (replace_positions (length old) new c)
            (match_miss old (length p) b s h ∙ at_end p b 0 s)
          ∙ d.returns;
      valid = d.valid;
      trailing = d.trailing;
      text = subst (TextIs d.edited (p ++ [])) (sym (replace_miss old new b s h)) (
          TextIs-shift d.edited (p ++ []) (b ∷ []) (replace_from old new 0 s) (
            subst (λ q. TextIs d.edited q (replace_from old new 0 s))
              (append-nil (p ++ b ∷ []) ∙ ap (◌++ b ∷ []) (sym (append-nil p))) d.text));
    }

    occurrence :
        (p : Bytes) (b : ℕ) (s : Bytes)
        → starts_with old (b ∷ s) ≡ true
        → (p ++ b ∷ []) ++ take (length old - 1) s ≡ p ++ old
    occurrence p b s h =
        append_assoc p (b ∷ []) (take (length old - 1) s)
        ∙ ap (p ++◌) (
            sym (take_pred (length old) b s (length-pos old n))
            ∙ ap (take (length old)) (starts_with-append old (b ∷ s) h)
            ∙ take-length-append old (drop (length old) (b ∷ s)))

    starts_char-old : (t : Bytes) → starts_char (old ++ t) ≡ true
    starts_char-old t = cases old n u_old
      where
        cases : (r : Bytes) → is_empty r ≡ false → is_utf8 0 r ≡ true → starts_char (r ++ t) ≡ true
        cases [] m u = cc
        cases (b ∷ r) m u = starts_char-is_utf8 (b ∷ r) u

    Done-hit :
        (p : Bytes) (j b : ℕ) (s : Bytes)
        → is_utf8 j (b ∷ s) ≡ true
        → starts_with old (b ∷ s) ≡ true
        → Done (p ++ b ∷ []) (length old - 1) s
        → Done p 0 (b ∷ s)
    unfolding replace_positions
    Done-hit p j b s u h d =
        let rest = replace_from old new (length old - 1) s in
        let step =
          step-Replaced d.edited d.valid p old rest new starts_char-old
            (starts_char-replaced (length old - 1) s (behind-is_utf8 j b s u h))
            (subst (λ q. TextIs d.edited q rest) (occurrence p b s h) d.text) in
        record {
          edited = step.edited;
          returns =
              ap (replace_positions (length old) new c) (match_hit old (length p) b s h)
              ∙ ap
                  (λ r.
                    r >>= λ e. replace_normalized_range e (length p) (length p + length old) new)
                  (ap (replace_positions (length old) new c) (at_end p b (length old - 1) s)
                    ∙ d.returns)
              ∙ step.returns;
          valid = step.valid;
          trailing = step.trailing ∙ d.trailing;
          text =
              subst (λ q. TextIs step.edited q (replace_from old new 0 (b ∷ s)))
                (sym (append-nil p))
                (subst (TextIs step.edited p) (sym (replace_hit old new b s h)) step.text);
        }

    pub replaced :
        (p : Bytes) (k j : ℕ) (s : Bytes) → is_utf8 j s ≡ true → normalized c ≡ p ++ s → Done p k s
    replaced p k j [] u e = Done-nil p k e
    replaced p (suc k) j (b ∷ s) u e =
        let t = is_utf8-tail j b s u in
        Done-skip p k b s (replaced (p ++ b ∷ []) k t.0 s t.1 (e ∙ sym (append_assoc p (b ∷ []) s)))
    replaced p zero j (b ∷ s) u e =
        let t = is_utf8-tail j b s u in
        let e' = e ∙ sym (append_assoc p (b ∷ []) s) in
        elim (Bool-cases (starts_with old (b ∷ s))) [
          | inl h ↦ Done-hit p j b s u h (replaced (p ++ b ∷ []) (length old - 1) t.0 s t.1 e')
          | inr h ↦ Done-miss p b s h (replaced (p ++ b ∷ []) 0 t.0 s t.1 e')
        ]
