-- ===== src/StrReplace/Matches.antt =====
-- The positions of a text that is not empty: `find_all_positions` ends and gives those of
-- `match_indices`.
use octofs.Prelude.{
  ap₂, ℕ, zero, suc, ◌+◌, ◌-◌, ◌<◌, ◌≡◌, refl, sym, ap, ◌∙◌, true, false, ◌⊎◌, inl, inr, none, some,
  List, [], ◌∷◌, ◌++◌, append_assoc, arith, Bool-cases, length, drop, drop-drop, length-append,
  drop-length-append,
}
use octofs.Text.{Bytes, is_empty, starts_with, match_indices_from, match_indices, find_from, find}
use octofs.StrReplace.{find_all_positions, cons_position}

pub starts_with-append : (p s : Bytes) → starts_with p s ≡ true → s ≡ p ++ drop (length p) s
unfolding starts_with
starts_with-append [] s h = refl
starts_with-append (c ∷ p) [] h = cc
starts_with-append (c ∷ p) (d ∷ s) h = ground (arith, starts_with-append p s)

pub match_indices_from-skip :
    (old : Bytes) (at k : ℕ) (s : Bytes)
    → match_indices_from old at k s ≡ match_indices_from old (at + k) 0 (drop k s)
unfolding match_indices_from
match_indices_from-skip old at zero s = ap (λ n. match_indices_from old n 0 s) (omega arith)
match_indices_from-skip old at (suc k) [] = refl
match_indices_from-skip old at (suc k) (c ∷ s) =
    match_indices_from-skip old (at + 1) k s
    ∙ ap (λ n. match_indices_from old n 0 (drop k s)) (omega arith)

pub match_hit :
    (old : Bytes) (at c : ℕ) (s : Bytes)
    → starts_with old (c ∷ s) ≡ true
    → match_indices_from old at 0 (c ∷ s) ≡ at ∷ match_indices_from old (at + 1) (length old - 1) s
unfolding match_indices_from
match_hit old at c s h = rw (h, match_indices_from) refl

pub match_miss :
    (old : Bytes) (at c : ℕ) (s : Bytes)
    → starts_with old (c ∷ s) ≡ false
    → match_indices_from old at 0 (c ∷ s) ≡ match_indices_from old (at + 1) 0 s
unfolding match_indices_from
match_miss old at c s h = rw (h, match_indices_from) refl

pub drop_pred : (n c : ℕ) (s : Bytes) → 0 < n → drop n (c ∷ s) ≡ drop (n - 1) s
drop_pred zero c s h = absurd (omega arith)
drop_pred (suc n) c s h = ap (λ k. drop k s) (omega arith)

pub length-pos : (s : Bytes) → is_empty s ≡ false → 0 < length s
length-pos [] h = cc
length-pos (c ∷ s) h = omega arith

-- The first occurrence of a text, with the same texts before and behind it for both searches.
record Found (old s : Bytes) : Type 0 where
  before : Bytes
  behind : Bytes
  splits : s ≡ before ++ (old ++ behind)
  finds : (at : ℕ) → find_from old at s ≡ some (at + length before)
  matches :
      (at : ℕ)
      → match_indices_from old at 0 s
        ≡ (at + length before) ∷ match_indices_from old (at + length before + length old) 0 behind

record Missing (old s : Bytes) : Type 0 where
  finds : (at : ℕ) → find_from old at s ≡ none
  matches : (at : ℕ) → match_indices_from old at 0 s ≡ []

module _ (old : Bytes) (n : is_empty old ≡ false) where
  Found-here : (c : ℕ) (s : Bytes) → starts_with old (c ∷ s) ≡ true → Found old (c ∷ s)
  Found-here c s h = record {
    before = [];
    behind = drop (length old) (c ∷ s);
    splits = starts_with-append old (c ∷ s) h;
    finds = λ at. unfold find_from in rw h (ap some (omega arith));
    matches = λ at.
        match_hit old at c s h
        ∙ ap₂ ◌∷◌ (omega arith) (
            match_indices_from-skip old (at + 1) (length old - 1) s
            ∙ ap₂ (λ i t. match_indices_from old i 0 t) (omega (arith, length-pos old n))
                (sym (drop_pred (length old) c s (length-pos old n))));
  }

  Found-later :
      (c : ℕ) (s : Bytes) → starts_with old (c ∷ s) ≡ false → Found old s → Found old (c ∷ s)
  Found-later c s h f = record {
    before = c ∷ f.before;
    behind = f.behind;
    splits = ap (c ∷◌) f.splits;
    finds = λ at. unfold find_from in rw h (f.finds (at + 1) ∙ ap some (omega arith));
    matches = λ at.
        match_miss old at c s h
        ∙ f.matches (at + 1)
        ∙ ap₂ (λ i j. i ∷ match_indices_from old j 0 f.behind) (omega arith) (omega arith);
  }

  Missing-later :
      (c : ℕ) (s : Bytes) → starts_with old (c ∷ s) ≡ false → Missing old s → Missing old (c ∷ s)
  Missing-later c s h m = record {
    finds = λ at. unfold find_from in rw h (m.finds (at + 1));
    matches = λ at. match_miss old at c s h ∙ m.matches (at + 1);
  }

  Missing-nil : (p : Bytes) → is_empty p ≡ false → Missing p []
  unfolding find_from starts_with match_indices_from
  Missing-nil [] h = cc
  Missing-nil (c ∷ p) h = record { finds = λ at. refl; matches = λ at. refl }

  searched : (s : Bytes) → Missing old s ⊎ Found old s
  searched [] = inl (Missing-nil old n)
  searched (c ∷ s) = elim (Bool-cases (starts_with old (c ∷ s))) [
    | inl h ↦ inr (Found-here c s h)
    | inr h ↦ elim (searched s) [
      | inl m ↦ inl (Missing-later c s h m)
      | inr f ↦ inr (Found-later c s h f)
    ]
  ]

  find_all-none :
      (rounds : ℕ) (h s : Bytes) (start : ℕ)
      → drop start h ≡ s
      → find old s ≡ none
      → find_all_positions (suc rounds) h old start ≡ some []
  unfolding find_all_positions
  find_all-none rounds h s start d e = rw (find_all_positions, d, e) refl

  find_all-some :
      (rounds : ℕ) (h s : Bytes) (start pos : ℕ)
      → drop start h ≡ s
      → find old s ≡ some pos
      → find_all_positions (suc rounds) h old start
        ≡ cons_position (start + pos) (find_all_positions rounds h old (start + pos + length old))
  unfolding find_all_positions
  find_all-some rounds h s start pos d e = rw (find_all_positions, d, e) refl

  behind_is :
      (h s : Bytes) (start : ℕ) (f : Found old s)
      → drop start h ≡ s
      → drop (start + length f.before + length old) h ≡ f.behind
  behind_is h s start f d =
      ap (λ k. drop k h) (omega (arith, length-append f.before old))
      ∙ sym (drop-drop start (length (f.before ++ old)) h)
      ∙ ap (drop (length (f.before ++ old)))
          (d ∙ f.splits ∙ sym (append_assoc f.before old f.behind))
      ∙ drop-length-append (f.before ++ old) f.behind

  length-behind : (s : Bytes) (f : Found old s) → length f.behind < length s
  length-behind s f = omega (
    arith,
    length-pos old n,
    ap length f.splits,
    length-append f.before (old ++ f.behind),
    length-append old f.behind,
  )

  find_all-from :
      (rounds start : ℕ) (h s : Bytes)
      → drop start h ≡ s
      → length s < rounds
      → find_all_positions rounds h old start ≡ some (match_indices_from old start 0 s)
  find_all-from zero start h s d l = absurd (omega arith)
  find_all-from (suc rounds) start h s d l = elim (searched s) [
    | inl m ↦ find_all-none rounds h s start d (m.finds 0) ∙ ap some (sym (m.matches start))
    | inr f ↦
        find_all-some rounds h s start (length f.before) d (f.finds 0 ∙ ap some (omega arith))
        ∙ ap (cons_position (start + length f.before)) (
            find_all-from rounds (start + length f.before + length old) h f.behind
              (behind_is h s start f d) (omega (arith, length-behind s f)))
        ∙ ap some (sym (f.matches start))
  ]

-- A text that occurs once is found there.
pub single_match :
    (old s : Bytes)
    → is_empty old ≡ false
    → length (match_indices old s) ≡ 1
    → (i : ℕ) × (find old s ≡ some i) × (match_indices old s ≡ i ∷ [])
single_match old s n h = elim (searched old n s) [
  | inl m ↦ absurd (omega (arith, ap length (m.matches 0)))
  | inr f ↦ (
    0 + length f.before,
    f.finds 0,
    f.matches 0
        ∙ ap ((0 + length f.before) ∷◌) (
            empty_rest (match_indices_from old (0 + length f.before + length old) 0 f.behind)
              (omega (arith, ap length (f.matches 0)))),
  )
]
  where
    empty_rest : (l : List ℕ) → length l ≡ 0 → l ≡ []
    empty_rest [] e = refl
    empty_rest (i ∷ l) e = absurd (omega arith)

-- For a text that is not empty the search ends, within one round more than the content has bytes,
-- with the positions of all matches.
pub find_all_positions-match_indices :
    (old content : Bytes)
    → is_empty old ≡ false
    → find_all_positions (suc (length content)) content old 0 ≡ some (match_indices old content)
find_all_positions-match_indices old content n =
    find_all-from old n (suc (length content)) 0 content content refl (omega arith)

find_empty : (s : Bytes) → find [] s ≡ some 0
unfolding find_from starts_with
find_empty [] = refl
find_empty (c ∷ s) = refl

-- For an empty text the search does not end, within any number of rounds.
pub find_all_positions_empty :
    (rounds : ℕ) (content : Bytes) (start : ℕ) → find_all_positions rounds content [] start ≡ none
unfolding find_all_positions
find_all_positions_empty zero content start = refl
find_all_positions_empty (suc rounds) content start =
    rw
      (
        find_all_positions,
        find_empty (drop start content),
        find_all_positions_empty rounds content (start + 0 + 0),
      )
      refl
