-- ===== src/Editable/Endings.antt =====
-- The lines of an LF text that is given one terminator (`lines_with_ending`), and how they join
-- the lines behind them.
use octofs.Prelude.{
  ℕ, ◌≡◌, refl, ap, ap₂, ◌∙◌, true, false, inl, inr, some, List, [], ◌∷◌, ◌++◌, map, arith, ◌==◌,
  if◌then◌else◌, Bool-cases, All,
}
use octofs.Text.{
  Bytes, lf, is_empty, ends_with, push_first, split_inclusive, strip_suffix, bytes_eq,
}
use octofs.Text.Splits.{split_inclusive-nil, split_inclusive-first}
use octofs.Editable.{
  Ending, unterminated, has_ending, EditableLine, line, end_piece, lines_with_ending, pop_line,
  normalized_lines,
}
use octofs.Editable.Content.{HasNoLf, WellFormed}

push_text : ℕ → List EditableLine → List EditableLine
push_text c [] = line (c ∷ []) unterminated ∷ []
push_text c (l ∷ ls) = line (c ∷ l.text) l.ending ∷ ls

-- What `lines_with_ending` computes, byte by byte.
unfoldable pub ended_lines : Ending → Bytes → List EditableLine
unfolding push_text
ended_lines e [] = []
ended_lines e (c ∷ cs) =
    let rest = ended_lines e cs in if c == lf then line [] e ∷ rest else push_text c rest

end_piece-lf : (e : Ending) (c : ℕ) → (c == lf) ≡ true → end_piece e (c ∷ []) ≡ line [] e
unfolding strip_suffix bytes_eq
end_piece-lf e c h = ground arith

end_piece-one :
    (e : Ending) (c : ℕ) → (c == lf) ≡ false → end_piece e (c ∷ []) ≡ line (c ∷ []) unterminated
unfolding strip_suffix bytes_eq
end_piece-one e c h = ground arith

end_piece-cons :
    (e : Ending) (c x : ℕ) (p : Bytes)
    → (c == lf) ≡ false
    → end_piece e (c ∷ x ∷ p) ≡ line (c ∷ (end_piece e (x ∷ p)).text) (end_piece e (x ∷ p)).ending
unfolding strip_suffix bytes_eq
end_piece-cons e c x p h = ground arith

map-end_piece-push_first :
    (e : Ending) (c : ℕ) (s : Bytes)
    → (c == lf) ≡ false
    → map (end_piece e) (push_first c (split_inclusive lf s))
      ≡ push_text c (map (end_piece e) (split_inclusive lf s))
unfolding push_text
map-end_piece-push_first e c [] h = rw split_inclusive-nil (ap (◌∷ []) (end_piece-one e c h))
map-end_piece-push_first e c (d ∷ s) h =
    let (p, ps, q) = split_inclusive-first lf d s in
    rw q (ap (◌∷ map (end_piece e) ps) (end_piece-cons e c d p h))

pub lines_with_ending-ended : (e : Ending) (s : Bytes) → lines_with_ending s e ≡ ended_lines e s
unfolding lines_with_ending ended_lines
lines_with_ending-ended e [] = refl
lines_with_ending-ended e (c ∷ cs) = elim (Bool-cases (c == lf)) [
  | inl h ↦ rw h (ap₂ ◌∷◌ (end_piece-lf e c h) (lines_with_ending-ended e cs))
  | inr h ↦
      rw h (map-end_piece-push_first e c cs h ∙ ap (push_text c) (lines_with_ending-ended e cs))
]

normalized-push_text :
    (c : ℕ) (ls : List EditableLine) → normalized_lines (push_text c ls) ≡ c ∷ normalized_lines ls
unfolding normalized_lines push_text
normalized-push_text c [] = refl
normalized-push_text c (l ∷ ls) = refl

module _ (e : Ending) (he : has_ending e ≡ true) where
  pub normalized-ended : (s : Bytes) → normalized_lines (ended_lines e s) ≡ s
  unfolding normalized_lines ended_lines
  normalized-ended [] = refl
  normalized-ended (c ∷ cs) =
      ground (arith, normalized-push_text c (ended_lines e cs), normalized-ended cs)

-- Lines that all have their terminator.
abbrev pub Terminated : List EditableLine → Type 0
Terminated = All (λ l. HasNoLf l.text × (has_ending l.ending ≡ true))

pub WellFormed-append :
    (ls ms : List EditableLine) → Terminated ls → WellFormed ms → WellFormed (ls ++ ms)
WellFormed-append [] ms t w = w
WellFormed-append (l ∷ []) [] t w = ground arith
WellFormed-append (l ∷ []) (m ∷ ms) t w = ground arith
WellFormed-append (l ∷ k ∷ ls) ms t w = (t.0.0, t.0.1, WellFormed-append (k ∷ ls) ms t.1 w)

pub Terminated-of_append :
    (ls : List EditableLine) (m : EditableLine) (ms : List EditableLine)
    → WellFormed (ls ++ m ∷ ms)
    → Terminated ls × WellFormed (m ∷ ms)
Terminated-of_append [] m ms w = (tt, w)
Terminated-of_append (l ∷ []) m ms w = (((w.0, w.1), tt), w.2)
Terminated-of_append (l ∷ k ∷ ls) m ms w =
    let r = Terminated-of_append (k ∷ ls) m ms w.2 in (((w.0, w.1), r.0), r.1)

WellFormed-push_text :
    (c : ℕ) (ls : List EditableLine)
    → (c == lf) ≡ false
    → WellFormed ls
    → WellFormed (push_text c ls)
unfolding push_text
WellFormed-push_text c [] h w = ground arith
WellFormed-push_text c (l ∷ []) h w = ground arith
WellFormed-push_text c (l ∷ m ∷ ls) h w = ground arith

Terminated-push_text :
    (c : ℕ) (ls : List EditableLine)
    → (c == lf) ≡ false
    → is_empty ls ≡ false
    → Terminated ls
    → Terminated (push_text c ls)
unfolding push_text
Terminated-push_text c [] h n t = cc
Terminated-push_text c (l ∷ ls) h n t = ground arith

is_empty-push_text : (c : ℕ) (ls : List EditableLine) → is_empty (push_text c ls) ≡ false
unfolding push_text
is_empty-push_text c [] = refl
is_empty-push_text c (l ∷ ls) = refl

is_empty-ended : (e : Ending) (c : ℕ) (s : Bytes) → is_empty (ended_lines e (c ∷ s)) ≡ false
unfolding ended_lines
is_empty-ended e c s = elim (Bool-cases (c == lf)) [
  | inl h ↦ rw h
  | inr h ↦ rw h (is_empty-push_text c (ended_lines e s))
]

pub WellFormed-terminated :
    (l : EditableLine) (ls : List EditableLine)
    → HasNoLf l.text
    → has_ending l.ending ≡ true
    → WellFormed ls
    → WellFormed (l ∷ ls)
WellFormed-terminated l [] n h w = ground arith
WellFormed-terminated l (m ∷ ls) n h w = (n, h, w)

-- A last line without its terminator, taken off.
pub record Popped (ls : List EditableLine) : Type 0 where
  pub front : List EditableLine
  pub tail : EditableLine
  pub splits : ls ≡ front ++ tail ∷ []
  pub terminated : Terminated front
  pub has_no_lf : HasNoLf tail.text
  pub is_open : has_ending tail.ending ≡ false

pub pop_line-append :
    (ls : List EditableLine) (l : EditableLine) → pop_line (ls ++ l ∷ []) ≡ some (ls, l)
pop_line-append [] l = refl
pop_line-append (m ∷ ls) l = rw (pop_line-append ls l)

Popped-push_text :
    (c : ℕ) (ls : List EditableLine) → (c == lf) ≡ false → Popped ls → Popped (push_text c ls)
unfolding push_text
Popped-push_text c ls h p = go p.front p.splits p.terminated
  where
    go :
        (front : List EditableLine)
        → ls ≡ front ++ p.tail ∷ []
        → Terminated front
        → Popped (push_text c ls)
    go [] e t = rw e (record {
      front = [];
      tail = line (c ∷ p.tail.text) p.tail.ending;
      splits = refl;
      terminated = tt;
      has_no_lf = (h, p.has_no_lf);
      is_open = p.is_open;
    })
    go (f ∷ fs) e t = rw e (record {
      front = line (c ∷ f.text) f.ending ∷ fs;
      tail = p.tail;
      splits = refl;
      terminated = (((h, t.0.0), t.0.1), t.1);
      has_no_lf = p.has_no_lf;
      is_open = p.is_open;
    })

module _ (e : Ending) (he : has_ending e ≡ true) where
  pub WellFormed-ended : (s : Bytes) → WellFormed (ended_lines e s)
  unfolding ended_lines
  WellFormed-ended [] = tt
  WellFormed-ended (c ∷ cs) = elim (Bool-cases (c == lf)) [
    | inl h ↦
        rw h (WellFormed-terminated (line [] e) (ended_lines e cs) tt he (WellFormed-ended cs))
    | inr h ↦ rw h (WellFormed-push_text c (ended_lines e cs) h (WellFormed-ended cs))
  ]

  pub Terminated-ended : (s : Bytes) → ends_with lf s ≡ true → Terminated (ended_lines e s)
  unfolding ended_lines ends_with push_text
  Terminated-ended [] h = cc
  Terminated-ended (c ∷ []) h = ground arith
  Terminated-ended (c ∷ d ∷ cs) h = elim (Bool-cases (c == lf)) [
    | inl k ↦ rw k ((tt, he), Terminated-ended (d ∷ cs) h)
    | inr k ↦ rw k (
        Terminated-push_text c (ended_lines e (d ∷ cs)) k (is_empty-ended e d cs)
          (Terminated-ended (d ∷ cs) h))
  ]

  pub Popped-ended :
      (s : Bytes) → is_empty s ≡ false → ends_with lf s ≡ false → Popped (ended_lines e s)
  unfolding ended_lines ends_with push_text
  Popped-ended [] n h = cc
  Popped-ended (c ∷ []) n h = rw h (record {
    front = [];
    tail = line (c ∷ []) unterminated;
    splits = refl;
    terminated = tt;
    has_no_lf = (h, tt);
    is_open = refl;
  })
  Popped-ended (c ∷ d ∷ cs) n h =
      let p = Popped-ended (d ∷ cs) refl h in
      elim (Bool-cases (c == lf)) [
        | inl k ↦ rw k (record {
          front = line [] e ∷ p.front;
          tail = p.tail;
          splits = ap (line [] e ∷◌) p.splits;
          terminated = ((tt, he), p.terminated);
          has_no_lf = p.has_no_lf;
          is_open = p.is_open;
        })
        | inr k ↦ rw k (Popped-push_text c (ended_lines e (d ∷ cs)) k p)
      ]
