-- ===== src/Tests/Editing.antt =====
-- `EditableContent` on a file that mixes terminators.
use Prim.Native.Char.{code}
use Prim.Native.String.{String}
use octofs.Prelude.{ℕ, ◌≡◌, refl, [], ◌∷◌, arith, ok}
use octofs.Text.{Bytes}
use octofs.Delta.{normalize}
use octofs.Editable.{
  is_char_boundary, EditableContent, from_raw, normalized, rendered, replace_normalized_range,
  preserve_trailing_newline,
}
use octofs.Editable.Content.{IsValid, from_raw-IsValid}
use octofs.Editable.RoundTrip.{rendered-from_raw, normalized-from_raw}
use octofs.Editable.Splice.{Spliced, replace_normalized_range-Spliced}

abbrev pub codes : String → Bytes
codes String.[] = []
codes (String.◌∷◌ c s) = code c ∷ codes s

abbrev mixed : Bytes
mixed = codes "a\r\nbc\nd"

rendered-mixed : rendered (from_raw mixed) ≡ mixed
unfolding rendered from_raw
rendered-mixed = refl

normalized-mixed : normalized (from_raw mixed) ≡ codes "a\nbc\nd"
unfolding normalized from_raw
normalized-mixed = refl

abbrev rendered_edit : EditableContent → ℕ → ℕ → Bytes → Bytes
rendered_edit c start end r = elim (replace_normalized_range c start end r) [
  | ok d ↦ rendered (preserve_trailing_newline d)
  | _ ↦ []
]

edit_mixed : rendered_edit (from_raw mixed) 2 4 (codes "x\ny") ≡ codes "a\r\nx\ny\nd"
unfolding rendered from_raw replace_normalized_range preserve_trailing_newline
edit_mixed = refl

rendered-from_raw_example : rendered (from_raw mixed) ≡ mixed
rendered-from_raw_example = rendered-from_raw mixed

normalized-from_raw_example : normalized (from_raw mixed) ≡ normalize mixed
normalized-from_raw_example = normalized-from_raw mixed

replace_normalized_range-Spliced_example :
    Spliced
      (from_raw mixed)
      2
      4
      (codes "x\ny")
      (replace_normalized_range (from_raw mixed) 2 4 (codes "x\ny"))
unfolding from_raw normalized is_char_boundary
replace_normalized_range-Spliced_example =
    replace_normalized_range-Spliced (from_raw mixed) (from_raw-IsValid mixed) 2 4 (codes "x\ny")
      (omega arith) (omega arith) refl refl

from_raw-IsValid_example : IsValid (from_raw mixed)
from_raw-IsValid_example = from_raw-IsValid mixed
