-- ===== src/Editable/RoundTrip.antt =====
-- Reading a file into lines and writing it back: `from_raw`, `rendered` and `normalized`.
use octofs.Prelude.{
  ℕ, ◌≡◌, refl, ap, ◌∙◌, Bool, false, ◌&&◌, List, [], ◌∷◌, arith, ◌==◌, if◌then◌else◌,
}
use octofs.Text.{Bytes, lf, cr, starts_with}
use octofs.Delta.{normalize}
use octofs.Editable.{EditableLine, from_raw, normalized_lines, normalized, rendered_lines, rendered}
use octofs.Editable.Content.{cons_lines, is_bare_lf, raw_lines, classify-raw}

rendered-cons_lines :
    (c : ℕ) (ls : List EditableLine) → rendered_lines (cons_lines c ls) ≡ c ∷ rendered_lines ls
unfolding rendered_lines cons_lines
rendered-cons_lines c [] = refl
rendered-cons_lines c (l ∷ ls) = ground arith

rendered-raw_lines : (s : Bytes) → rendered_lines (raw_lines s) ≡ s
unfolding rendered_lines raw_lines
rendered-raw_lines [] = refl
rendered-raw_lines (c ∷ cs) =
    ground (arith, rendered-cons_lines c (raw_lines cs), rendered-raw_lines cs)

-- Reading a file and writing it back gives the same bytes, whatever terminators it mixes.
pub rendered-from_raw : (raw : Bytes) → rendered (from_raw raw) ≡ raw
unfolding rendered from_raw
rendered-from_raw raw = ap rendered_lines (classify-raw raw) ∙ rendered-raw_lines raw

abbrev first_is_bare : List EditableLine → Bool
first_is_bare [] = false
first_is_bare (l ∷ ls) = is_bare_lf l

first_is_bare-raw_lines : (s : Bytes) → first_is_bare (raw_lines s) ≡ starts_with (lf ∷ []) s
unfolding starts_with raw_lines cons_lines
first_is_bare-raw_lines [] = refl
first_is_bare-raw_lines (c ∷ cs) = ground arith

normalized-cons_lines :
    (c : ℕ) (ls : List EditableLine)
    → normalized_lines (cons_lines c ls)
      ≡ (if c == cr && first_is_bare ls then normalized_lines ls else c ∷ normalized_lines ls)
unfolding normalized_lines cons_lines
normalized-cons_lines c [] = ground arith
normalized-cons_lines c (l ∷ ls) = ground arith

normalize-cons :
    (c : ℕ) (cs : Bytes)
    → normalize (c ∷ cs)
      ≡ (if c == cr && starts_with (lf ∷ []) cs then normalize cs else c ∷ normalize cs)
unfolding normalize starts_with
normalize-cons c [] = ground arith
normalize-cons c (d ∷ cs) = ground arith

normalized-raw_lines : (s : Bytes) → normalized_lines (raw_lines s) ≡ normalize s
unfolding normalized_lines raw_lines
normalized-raw_lines [] = unfold normalize in refl
normalized-raw_lines (c ∷ cs) = ground (
  arith,
  normalized-raw_lines cs,
  normalize-cons c cs,
  normalized-cons_lines c (raw_lines cs),
  first_is_bare-raw_lines cs,
)

-- The LF form of the lines is the file with every CRLF replaced by LF, the form in which the
-- delta views compare contents.
pub normalized-from_raw : (raw : Bytes) → normalized (from_raw raw) ≡ normalize raw
unfolding normalized from_raw
normalized-from_raw raw = ap normalized_lines (classify-raw raw) ∙ normalized-raw_lines raw
