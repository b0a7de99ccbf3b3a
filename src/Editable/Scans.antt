-- ===== src/Editable/Scans.antt =====
-- The loop of `replace_normalized_range` finds the lines that hold the replaced range.
use octofs.Prelude.{
  if◌then◌else◌, Bool, append_assoc, ℕ, suc, ◌+◌, ◌≤◌, ◌<◌, ◌≡◌, refl, sym, ap, ◌∙◌, true, false,
  ◌⊎◌, inl, inr, none, some, List, [], ◌∷◌, ◌++◌, arith, Bool-cases, ltb, length, length-append,
}
use octofs.Editable.{
  starts_here, lf, Bool, EditableLine, Scan, scan, has_ending, line_len, normalized_line,
  normalized_lines,
}
use octofs.Editable.Content.{WellFormed}

pub normalized_lines-append :
    (ls ms : List EditableLine)
    → normalized_lines (ls ++ ms) ≡ normalized_lines ls ++ normalized_lines ms
unfolding normalized_lines
normalized_lines-append [] ms = refl
normalized_lines-append (l ∷ ls) ms =
    ap (normalized_line l ++◌) (normalized_lines-append ls ms)
    ∙ sym (append_assoc (normalized_line l) (normalized_lines ls) (normalized_lines ms))

abbrev pub width : List EditableLine → ℕ
width ls = length (normalized_lines ls)

pub width-normalized_line : (l : EditableLine) → length (normalized_line l) ≡ line_len l
width-normalized_line l =
    length-append l.text _ ∙ ap (◌+◌ (length l.text)) (length_ending (has_ending l.ending))
  where
    length_ending : (b : Bool) → length (if b then lf ∷ [] else []) ≡ (if b then 1 else 0)
    length_ending true = refl
    length_ending false = refl

pub width-cons :
    (l : EditableLine) (ls : List EditableLine) → width (l ∷ ls) ≡ line_len l + width ls
unfolding normalized_lines
width-cons l ls =
    length-append (normalized_line l) (normalized_lines ls)
    ∙ ap (◌+ width ls) (width-normalized_line l)

-- From a line on, with the start of the range found in line `i`.
record Covers (ls : List EditableLine) (index offset i rs last : ℕ) (r : Scan) : Type 0 where
  mid : List EditableLine
  post : List EditableLine
  k : ℕ
  splits : ls ≡ mid ++ post
  length_mid : length mid ≡ suc k
  start_line : r.start_line ≡ some i
  end_line : r.end_line ≡ some (index + k)
  region_start : r.region_start ≡ rs
  region_end : r.region_end ≡ offset + width mid
  covered : last < r.region_end

abbrev inside : ℕ → ℕ → ℕ → Scan
inside offset i rs = record {
  offset = offset;
  start_line = some i;
  end_line = none;
  region_start = rs;
  region_end = 0;
}

abbrev pub outside : ℕ → Scan
outside offset = record {
  offset = offset;
  start_line = none;
  end_line = none;
  region_start = 0;
  region_end = 0;
}

pub width-nil : width [] ≡ 0
unfolding normalized_lines
width-nil = refl

width-single : (l : EditableLine) → width (l ∷ []) ≡ line_len l
width-single l = omega (arith, width-cons l [], width-nil)

Covers-hit :
    (index offset i rs last : ℕ) (l : EditableLine) (ls : List EditableLine)
    → ltb last (offset + line_len l) ≡ true
    → Covers (l ∷ ls) index offset i rs last (record {
      offset = offset;
      start_line = some i;
      end_line = some index;
      region_start = rs;
      region_end = offset + line_len l;
    })
Covers-hit index offset i rs last l ls e = record {
  mid = l ∷ [];
  post = ls;
  k = 0;
  splits = refl;
  length_mid = refl;
  start_line = refl;
  end_line = ground arith;
  region_start = refl;
  region_end = omega (arith, width-single l);
  covered = ground arith;
}

Covers-miss :
    (index offset i rs last : ℕ) (l : EditableLine) (ls : List EditableLine) {r : Scan}
    → Covers ls (index + 1) (offset + line_len l) i rs last r
    → Covers (l ∷ ls) index offset i rs last r
Covers-miss index offset i rs last l ls c = record {
  mid = l ∷ c.mid;
  post = c.post;
  k = suc c.k;
  splits = ap (l ∷◌) c.splits;
  length_mid = ap suc c.length_mid;
  start_line = c.start_line;
  end_line = c.end_line ∙ ap some (omega arith);
  region_start = c.region_start;
  region_end = omega (arith, c.region_end, width-cons l c.mid);
  covered = c.covered;
}

module _ (start last len total : ℕ) where
  scan_hit :
      (index offset i rs : ℕ) (l : EditableLine) (ls : List EditableLine)
      → ltb last (offset + line_len l) ≡ true
      → scan start last len total index (l ∷ ls) (inside offset i rs) ≡ (record {
        offset = offset;
        start_line = some i;
        end_line = some index;
        region_start = rs;
        region_end = offset + line_len l;
      })
  unfolding scan
  scan_hit index offset i rs l ls h = rw (h, scan)

  scan_miss :
      (index offset i rs : ℕ) (l : EditableLine) (ls : List EditableLine)
      → ltb last (offset + line_len l) ≡ false
      → scan start last len total index (l ∷ ls) (inside offset i rs)
        ≡ scan start last len total (index + 1) ls (inside (offset + line_len l) i rs)
  unfolding scan
  scan_miss index offset i rs l ls h = rw (h, scan)

  scan-Covers :
      (index offset i rs : ℕ) (ls : List EditableLine)
      → offset ≤ last
      → last < offset + width ls
      → Covers ls index offset i rs last (scan start last len total index ls (inside offset i rs))
  scan-Covers index offset i rs [] h k = absurd (omega (arith, width-nil))
  scan-Covers index offset i rs (l ∷ ls) h k = elim (Bool-cases (ltb last (offset + line_len l))) [
    | inl e ↦ rw (scan_hit index offset i rs l ls e) (Covers-hit index offset i rs last l ls e)
    | inr e ↦ rw (scan_miss index offset i rs l ls e) (
        Covers-miss index offset i rs last l ls (
          scan-Covers (index + 1) (offset + line_len l) i rs ls (ground arith)
            (omega (arith, width-cons l ls))))
  ]

-- From a line on, with the start of the range still ahead.
pub record Region (ls : List EditableLine) (index offset start last : ℕ) (r : Scan) : Type 0 where
  pub pre : List EditableLine
  pub mid : List EditableLine
  pub post : List EditableLine
  pub k : ℕ
  pub splits : ls ≡ pre ++ (mid ++ post)
  pub length_mid : length mid ≡ suc k
  pub start_line : r.start_line ≡ some (index + length pre)
  pub end_line : r.end_line ≡ some (index + length pre + k)
  pub region_start : r.region_start ≡ offset + width pre
  pub region_end : r.region_end ≡ offset + width pre + width mid
  pub begins : r.region_start ≤ start
  pub covered : last < r.region_end

line_len-pos : (l : EditableLine) (ls : List EditableLine) → WellFormed (l ∷ ls) → 0 < line_len l
line_len-pos l [] w = ground arith
line_len-pos l (m ∷ ls) w = ground arith

pub WellFormed-tail :
    (l : EditableLine) (ls : List EditableLine) → WellFormed (l ∷ ls) → WellFormed ls
WellFormed-tail l [] w = tt
WellFormed-tail l (m ∷ ls) w = w.2

pub width-pos : (ls : List EditableLine) → WellFormed ls → 0 < length ls → 0 < width ls
width-pos [] w h = absurd (omega arith)
width-pos (l ∷ ls) w h = omega (arith, width-cons l ls, line_len-pos l ls w)

Region-Covers :
    {ls : List EditableLine} {index offset start last : ℕ} {r : Scan}
    → offset ≤ start
    → Covers ls index offset index offset last r
    → Region ls index offset start last r
Region-Covers h c = record {
  pre = [];
  mid = c.mid;
  post = c.post;
  k = c.k;
  splits = c.splits;
  length_mid = c.length_mid;
  start_line = c.start_line ∙ ap some (omega arith);
  end_line = c.end_line ∙ ap some (omega arith);
  region_start = omega (arith, c.region_start, width-nil);
  region_end = omega (arith, c.region_end, width-nil);
  begins = omega (arith, c.region_start);
  covered = c.covered;
}

Region-cons :
    {ls : List EditableLine} {index offset start last : ℕ} {r : Scan} (l : EditableLine)
    → Region ls (index + 1) (offset + line_len l) start last r
    → Region (l ∷ ls) index offset start last r
Region-cons l g = record {
  pre = l ∷ g.pre;
  mid = g.mid;
  post = g.post;
  k = g.k;
  splits = ap (l ∷◌) g.splits;
  length_mid = g.length_mid;
  start_line = g.start_line ∙ ap some (omega arith);
  end_line = g.end_line ∙ ap some (omega arith);
  region_start = omega (arith, g.region_start, width-cons l g.pre);
  region_end = omega (arith, g.region_end, width-cons l g.pre);
  begins = g.begins;
  covered = g.covered;
}

module _ (start last len total : ℕ) where
  scan_start :
      (index offset : ℕ) (l : EditableLine) (ls : List EditableLine)
      → starts_here start len total index (offset + line_len l) ≡ true
      → scan start last len total index (l ∷ ls) (outside offset)
        ≡ scan start last len total index (l ∷ ls) (inside offset index offset)
  unfolding scan
  scan_start index offset l ls h = ground arith

  scan_later :
      (index offset : ℕ) (l : EditableLine) (ls : List EditableLine)
      → starts_here start len total index (offset + line_len l) ≡ false
      → ltb last (offset + line_len l) ≡ false
      → scan start last len total index (l ∷ ls) (outside offset)
        ≡ scan start last len total (index + 1) ls (outside (offset + line_len l))
  unfolding scan
  scan_later index offset l ls h k = ground arith

  -- Where the start lies: before the last byte of the range, or at the end of the content.
  abbrev pub Ahead : ℕ → Type 0
  Ahead index = (start ≤ last) ⊎ ((start ≡ len) × (last + 1 ≡ len) × (index < total))

  -- Of a line of `ll` bytes, with `n` lines of `wl` bytes behind it.
  module _ (index offset ll wl n : ℕ) (t : index + suc n ≡ total) (w : offset + ll + wl ≡ len) where
    start_le_last :
        starts_here start len total index (offset + ll) ≡ true
        → 0 < ll
        → offset ≤ start
        → Ahead index
        → offset ≤ last
    start_le_last e p h a = ground arith

    not_last :
        starts_here start len total index (offset + ll) ≡ false
        → (0 < n → 0 < wl)
        → Ahead index
        → ltb last (offset + ll) ≡ false
    not_last e p a = ground arith

    offset_le : starts_here start len total index (offset + ll) ≡ false → offset + ll ≤ start
    offset_le e = ground arith

    Ahead-suc :
        starts_here start len total index (offset + ll) ≡ false → Ahead index → Ahead (index + 1)
    Ahead-suc e (inl h) = inl h
    Ahead-suc e (inr h) = inr (h.0, h.1, ground arith)

  pub scan-Region :
      (index offset : ℕ) (ls : List EditableLine)
      → WellFormed ls
      → index + length ls ≡ total
      → offset + width ls ≡ len
      → offset ≤ start
      → last < len
      → Ahead index
      → Region ls index offset start last (scan start last len total index ls (outside offset))
  scan-Region index offset [] w t n h k a = absurd (omega (arith, width-nil))
  scan-Region index offset (l ∷ ls) w t n h k a =
      let n' : offset + line_len l + width ls ≡ len = omega (arith, width-cons l ls) in
      let pos = line_len-pos l ls w in
      elim (Bool-cases (starts_here start len total index (offset + line_len l))) [
        | inl e ↦ rw (scan_start index offset l ls e) (
            Region-Covers h (
              scan-Covers start last len total index offset index offset (l ∷ ls)
                (start_le_last index offset (line_len l) (width ls) (length ls) t n' e pos h a)
                (omega (arith, width-cons l ls))))
        | inr e ↦
            rw
              (scan_later index offset l ls e (
                not_last index offset (line_len l) (width ls) (length ls) t n' e
                  (width-pos ls (WellFormed-tail l ls w)) a))
              (Region-cons l (
                scan-Region (index + 1) (offset + line_len l) ls (WellFormed-tail l ls w)
                  (omega arith) n'
                  (offset_le index offset (line_len l) (width ls) (length ls) t n' e) k
                  (Ahead-suc index offset (line_len l) (width ls) (length ls) t n' e a)))
      ]
