-- ===== src/Batch/Simultaneous.antt =====
-- What operations on the lines of one original mean together: each line of the original is kept,
-- or replaced where a range that covers it begins, with the inserted lines in the gaps.
use octofs.Prelude.{
  ℕ, Bool, false, ◌&&◌, ◌||◌, List, [], ◌∷◌, ◌++◌, ◌==◌, leb, if◌then◌else◌, length,
}
use octofs.Editable.{Ending, EditableLine}
use octofs.Batch.{
  BatchOperation, is_replace, is_insert, start_of, end_of, anchor_of, content_lines_of,
}
use octofs.Batch.Flow.{flow}

unfoldable pub collect :
    (BatchOperation → List EditableLine) → List BatchOperation → List EditableLine
collect f [] = []
collect f (op ∷ ops) = f op ++ collect f ops

unfoldable pub any : (BatchOperation → Bool) → List BatchOperation → Bool
any p [] = false
any p (op ∷ ops) = p op || any p ops

-- The content of a replacement that begins at line `i`.
abbrev pub starting : Ending → ℕ → BatchOperation → List EditableLine
starting e i op = if is_replace op && start_of op == i then content_lines_of e op else []

abbrev pub touches : ℕ → BatchOperation → Bool
touches i op = is_replace op && (leb (start_of op) i && leb i (end_of op))

-- The content of an insertion behind line `i`.
abbrev pub anchored : Ending → ℕ → BatchOperation → List EditableLine
anchored e i op = if is_insert op && anchor_of op == i then content_lines_of e op else []

abbrev pub gap_of : Ending → List BatchOperation → ℕ → List EditableLine
gap_of e ops i = collect (anchored e i) ops

abbrev pub body_of : Ending → List BatchOperation → ℕ → EditableLine → List EditableLine
body_of e ops i l = collect (starting e i) ops ++ (if any (touches i) ops then [] else l ∷ [])

abbrev pub simultaneous : Ending → List BatchOperation → List EditableLine → List EditableLine
simultaneous e ops lines =
    flow (gap_of e ops) (body_of e ops) 0 lines ++ gap_of e ops (length lines)
