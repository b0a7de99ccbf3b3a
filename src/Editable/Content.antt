-- ===== src/Editable/Content.antt =====
-- The lines of a raw text by one recursion on its bytes, the well-formedness of lines, and the
-- lengths and concatenations of their two renderings.
use octofs.Prelude.{
  ℕ, ◌≡◌, refl, sym, subst, ap, ap₂, ◌∙◌, Bool, true, false, ◌&&◌, inl, inr, List, [], ◌∷◌, map,
  arith, ◌==◌, if◌then◌else◌, Bool-cases, All,
}
use octofs.Text.{Bytes, lf, cr, is_empty, bytes_eq, push_first, split_inclusive}
use octofs.Text.Splits.{split_inclusive-nil, split_inclusive-first}
use octofs.Editable.{
  has_ending, from_raw, EditableContent, unterminated, lf_ending, crlf_ending, is_lf, EditableLine,
  line, classify,
}

abbrev pub is_bare_lf : EditableLine → Bool
is_bare_lf l = is_empty l.text && is_lf l.ending

abbrev pub cons_line : ℕ → EditableLine → EditableLine
cons_line c l = if c == cr && is_bare_lf l then line [] crlf_ending else line (c ∷ l.text) l.ending

unfoldable pub cons_lines : ℕ → List EditableLine → List EditableLine
cons_lines c [] = line (c ∷ []) unterminated ∷ []
cons_lines c (l ∷ ls) = cons_line c l ∷ ls

-- What `from_raw` computes, byte by byte.
unfoldable pub raw_lines : Bytes → List EditableLine
raw_lines [] = []
raw_lines (c ∷ cs) =
    let rest = raw_lines cs in if c == lf then line [] lf_ending ∷ rest else cons_lines c rest

is_bare_lf-classify : (p : Bytes) → is_bare_lf (classify p) ≡ bytes_eq p (lf ∷ [])
unfolding classify bytes_eq
is_bare_lf-classify [] = refl
is_bare_lf-classify (x ∷ []) = ground arith
is_bare_lf-classify (x ∷ y ∷ r) = ground arith

classify-lf : (c : ℕ) → (c == lf) ≡ true → classify (c ∷ []) ≡ line [] lf_ending
unfolding classify bytes_eq
classify-lf c h = ground arith

classify-one : (c : ℕ) → (c == lf) ≡ false → classify (c ∷ []) ≡ line (c ∷ []) unterminated
unfolding classify bytes_eq
classify-one c h = ground arith

classify-cons :
    (c x : ℕ) (p : Bytes)
    → (c == lf) ≡ false
    → classify (c ∷ x ∷ p) ≡ cons_line c (classify (x ∷ p))
unfolding classify bytes_eq
classify-cons c x [] h = ground arith
classify-cons c x (y ∷ p) h = ground arith

map-classify-push_first :
    (c : ℕ) (s : Bytes)
    → (c == lf) ≡ false
    → map classify (push_first c (split_inclusive lf s))
      ≡ cons_lines c (map classify (split_inclusive lf s))
unfolding cons_lines
map-classify-push_first c [] h = rw split_inclusive-nil (ground (arith, classify-one c))
map-classify-push_first c (d ∷ s) h =
    let (p, ps, e) = split_inclusive-first lf d s in
    rw e (ap (◌∷ map classify ps) (classify-cons c d p h))

pub classify-raw : (s : Bytes) → map classify (split_inclusive lf s) ≡ raw_lines s
unfolding split_inclusive raw_lines
classify-raw [] = refl
classify-raw (c ∷ cs) = elim (Bool-cases (c == lf)) [
  | inl h ↦ rw h (ap₂ ◌∷◌ (classify-lf c h) (classify-raw cs))
  | inr h ↦ rw h (map-classify-push_first c cs h ∙ ap (cons_lines c) (classify-raw cs))
]

-- Text of one line.
abbrev pub HasNoLf : Bytes → Type 0
HasNoLf = All (λ c. (c == lf) ≡ false)

-- Only the last line may lack its terminator, and then it has text.
abbrev pub WellFormed : List EditableLine → Type 0
WellFormed [] = Unit
WellFormed (l ∷ []) = HasNoLf l.text × (has_ending l.ending ≡ false → is_empty l.text ≡ false)
WellFormed (l ∷ m ∷ ls) = HasNoLf l.text × (has_ending l.ending ≡ true) × WellFormed (m ∷ ls)

pub record IsValid (c : EditableContent) : Type 0 where
  pub well_formed : WellFormed c.lines
  pub dominant : has_ending c.dominant_ending ≡ true

WellFormed-cons_lines :
    (c : ℕ) (ls : List EditableLine)
    → (c == lf) ≡ false
    → WellFormed ls
    → WellFormed (cons_lines c ls)
unfolding cons_lines
WellFormed-cons_lines c [] h w = ground arith
WellFormed-cons_lines c (l ∷ []) h w = ground arith
WellFormed-cons_lines c (l ∷ m ∷ ls) h w = ground arith

WellFormed-lf : (ls : List EditableLine) → WellFormed ls → WellFormed (line [] lf_ending ∷ ls)
WellFormed-lf [] w = ground arith
WellFormed-lf (l ∷ ls) w = ground arith

WellFormed-raw_lines : (s : Bytes) → WellFormed (raw_lines s)
unfolding raw_lines
WellFormed-raw_lines [] = tt
WellFormed-raw_lines (c ∷ cs) = ground (
  arith,
  WellFormed-lf (raw_lines cs),
  WellFormed-raw_lines cs,
  WellFormed-cons_lines c (raw_lines cs),
)

-- A file that is read has only lines without a newline in their text, each but the last terminated
-- and the last terminated or not empty, and a dominant terminator that is one.
pub from_raw-IsValid : (raw : Bytes) → IsValid (from_raw raw)
unfolding from_raw
from_raw-IsValid raw = record {
  well_formed = subst WellFormed (sym (classify-raw raw)) (WellFormed-raw_lines raw);
  dominant = ground arith;
}
