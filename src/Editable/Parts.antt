-- ===== src/Editable/Parts.antt =====
-- The parts of a text and of its lines around an edited range.
use octofs.Prelude.{
  zero, append-nil, ℕ, suc, ◌+◌, ◌≤◌, ◌<◌, ◌≡◌, refl, sym, ap, ◌∙◌, true, false, inl, inr, List, [],
  ◌∷◌, ◌++◌, append_assoc, arith, length, take, drop, length-append, take-length-append,
  drop-length-append, take-append-take-drop, take-drop-append-drop,
}
use octofs.Text.{Bytes, is_empty, slice}
use octofs.Editable.{EditableLine, last_offset_of}
use octofs.Editable.Content.{WellFormed}
use octofs.Editable.Scans.{Ahead, WellFormed-tail}
use octofs.Editable.Endings.{Terminated, Terminated-of_append}
use native.Mathlib.Decide.{dec_lt}

-- The text with the bytes from `start` to `end` replaced.
abbrev pub splice : Bytes → ℕ → ℕ → Bytes → Bytes
splice s start end r = take start s ++ (r ++ drop end s)

-- Of the bytes before, inside and behind the region [rs, re).
pub changed_text :
    (s r : Bytes) (start end rs re : ℕ)
    → rs ≤ start
    → end ≤ re
    → take rs s ++ ((slice rs start s ++ (r ++ slice end re s)) ++ drop re s) ≡ splice s start end r
changed_text s r start end rs re h k =
    regroup
    ∙ ap (◌++ (r ++ (slice end re s ++ drop re s))) (take-append-take-drop rs start s h)
    ∙ ap (λ t. take start s ++ (r ++ t)) (take-drop-append-drop end re s k)
  where
    regroup :
        take rs s ++ ((slice rs start s ++ (r ++ slice end re s)) ++ drop re s)
        ≡ (take rs s ++ slice rs start s) ++ (r ++ (slice end re s ++ drop re s))
    regroup = simp append_assoc

WellFormed-of_append : (ls ms : List EditableLine) → WellFormed (ls ++ ms) → WellFormed ms
WellFormed-of_append [] ms w = w
WellFormed-of_append (l ∷ ls) ms w = WellFormed-of_append ls ms (WellFormed-tail l (ls ++ ms) w)

pub parts-WellFormed :
    (pre mid post : List EditableLine)
    → 0 < length mid
    → WellFormed (pre ++ (mid ++ post))
    → Terminated pre × WellFormed post
parts-WellFormed pre [] post n w = absurd (omega arith)
parts-WellFormed pre (m ∷ mid) post n w =
    let t = Terminated-of_append pre m (mid ++ post) w in
    (t.0, WellFormed-of_append (m ∷ mid) post t.1)

-- the first and the last of three parts, by their lengths
module _ {ℓ} {A : Type ℓ} (a b c s : List A) (splits : s ≡ a ++ (b ++ c)) where
  splits_left : s ≡ (a ++ b) ++ c
  splits_left = splits ∙ sym (append_assoc a b c)

  pub take_first : take (length a) s ≡ a
  take_first = ap (take (length a)) splits ∙ take-length-append a (b ++ c)

  pub take_two : (n : ℕ) → n ≡ length a + length b → take n s ≡ a ++ b
  take_two n e =
      ap (λ m. take m s) (e ∙ sym (length-append a b))
      ∙ ap (take (length (a ++ b))) splits_left
      ∙ take-length-append (a ++ b) c

  pub drop_two : (n : ℕ) → n ≡ length a + length b → drop n s ≡ c
  drop_two n e =
      ap (λ m. drop m s) (e ∙ sym (length-append a b))
      ∙ ap (drop (length (a ++ b))) splits_left
      ∙ drop-length-append (a ++ b) c

pub splice_nil :
    (start end : ℕ) (s r : Bytes) → length s ≡ 0 → start ≤ 0 → end ≤ 0 → r ≡ splice s start end r
splice_nil zero zero [] r n h k = sym (append-nil r)
splice_nil start (suc end) [] r n h k = absurd (omega arith)
splice_nil (suc start) end [] r n h k = absurd (omega arith)
splice_nil start end (c ∷ s) r n h k = absurd (omega arith)

pub eq_nil_of_is_empty {ℓ} : {A : Type ℓ} (l : List A) → is_empty l ≡ true → l ≡ []
eq_nil_of_is_empty [] h = refl
eq_nil_of_is_empty (x ∷ l) h = cc

pub length-pos {ℓ} : {A : Type ℓ} (l : List A) → is_empty l ≡ false → 0 < length l
length-pos [] h = cc
length-pos (x ∷ l) h = omega arith

module _ {start end : ℕ} (len : ℕ) (le : start ≤ end) (within : end ≤ len) where
  pub last_lt : 0 < len → last_offset_of start end len < len
  last_lt n = ground arith

  pub last_covered : (re : ℕ) → last_offset_of start end len < re → end ≤ re
  last_covered re h = ground arith

  pub last-Ahead :
      (total : ℕ) → 0 < len → 0 < total → Ahead start (last_offset_of start end len) len total 0
  last-Ahead total n t = elim (dec_lt start len) [
    | yes p ↦ inl (ground arith)
    | no p ↦ inr (ground arith)
  ]
