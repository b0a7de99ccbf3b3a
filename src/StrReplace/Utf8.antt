-- ===== src/StrReplace/Utf8.antt =====
-- What UTF-8 has for the search of whole texts: a text occurs only at the boundaries of characters.
use octofs.Prelude.{
  ℕ, zero, suc, ◌≡◌, refl, sym, ap, ◌∙◌, Bool, true, false, ◌&&◌, ◌||◌, [], ◌∷◌, ◌++◌, arith, ltb,
  leb, if◌then◌else◌, length, drop-length-append,
}
use octofs.Text.{Bytes, is_empty}
use octofs.Editable.{is_char_boundary}

-- The first byte of a character, and the number of bytes that follow it.
abbrev pub is_lead : ℕ → Bool
is_lead b = ltb b 128 || leb 192 b

abbrev pub following : ℕ → ℕ
following b = if ltb b 192 then 0 else if ltb b 224 then 1 else if ltb b 240 then 2 else 3

-- Bytes in groups of a first byte and those that follow it, behind `k` more bytes of a group. Each
-- text of UTF-8 is one, with `k` zero.
unfoldable pub is_utf8 : ℕ → Bytes → Bool
is_utf8 zero [] = true
is_utf8 (suc k) [] = false
is_utf8 zero (b ∷ s) = is_lead b && is_utf8 (following b) s
is_utf8 (suc k) (b ∷ s) = (leb 128 b && ltb b 192) && is_utf8 k s

-- The text starts at the boundary of a character.
abbrev pub starts_char : Bytes → Bool
starts_char [] = true
starts_char (b ∷ s) = is_lead b

pub starts_char-is_utf8 : (s : Bytes) → is_utf8 0 s ≡ true → starts_char s ≡ true
unfolding is_utf8
starts_char-is_utf8 [] h = refl
starts_char-is_utf8 (b ∷ s) h = ground arith

pub is_utf8-tail : (k b : ℕ) (s : Bytes) → is_utf8 k (b ∷ s) ≡ true → (j : ℕ) × (is_utf8 j s ≡ true)
unfolding is_utf8
is_utf8-tail zero b s h = (following b, ground arith)
is_utf8-tail (suc k) b s h = (k, ground arith)

pub is_utf8-append : (k : ℕ) (s t : Bytes) → is_utf8 k s ≡ true → is_utf8 k (s ++ t) ≡ is_utf8 0 t
unfolding is_utf8
is_utf8-append zero [] t h = refl
is_utf8-append (suc k) [] t h = cc
is_utf8-append zero (b ∷ s) t h =
    let l : is_lead b ≡ true = ground arith in
    ap (◌&& is_utf8 (following b) (s ++ t)) l ∙ is_utf8-append (following b) s t (ground arith)
is_utf8-append (suc k) (b ∷ s) t h =
    let l : (leb 128 b && ltb b 192) ≡ true = ground arith in
    ap (◌&& is_utf8 k (s ++ t)) l ∙ is_utf8-append k s t (ground arith)

-- Behind a text that occurs, the rest is a text again.
pub is_utf8-behind :
    (k : ℕ) (old t : Bytes)
    → is_utf8 0 old ≡ true
    → is_empty old ≡ false
    → is_utf8 k (old ++ t) ≡ true
    → is_utf8 0 t ≡ true
unfolding is_utf8
is_utf8-behind zero old t h n u = sym (is_utf8-append 0 old t h) ∙ u
is_utf8-behind (suc k) [] t h n u = cc
is_utf8-behind (suc k) (b ∷ old) t h n u = absurd (ground arith)

pub is_char_boundary-append :
    (p s : Bytes) → starts_char s ≡ true → is_char_boundary (p ++ s) (length p) ≡ true
unfolding is_char_boundary
is_char_boundary-append p [] h = rw (is_char_boundary, drop-length-append p []) refl
is_char_boundary-append p (b ∷ s) h = rw (is_char_boundary, drop-length-append p (b ∷ s)) h
