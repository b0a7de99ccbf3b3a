-- ===== src/Tests/Views.antt =====
-- The line range of a view of a file of three lines.
use octofs.Prelude.{◌≡◌, refl, true, none, some, ok, ◌⊎◌}
use octofs.Prelude.Int.{pos}
use octofs.LineHash.Endpoint.{number, id}
use octofs.View.{ViewRange, resolve_view_range, line_count}
use octofs.View.Ranges.{InFile, resolve_view_range-InFile}
use octofs.Tests.Editing.{codes}

-- from line 9 to line 2
swapped_range :
    resolve_view_range
      (some (number (pos 9)))
      (some (id 2 (codes "aa")))
      none
      (some (codes "a\nb\nc"))
    ≡ ok (some (record { start = 2; end = 3; swapped = true; clamped = true }))
unfolding resolve_view_range
swapped_range = refl

resolve_view_range-InFile_example :
    (resolve_view_range
        (some (number (pos 9)))
        (some (id 2 (codes "aa")))
        none
        (some (codes "a\nb\nc"))
      ≡ ok none)
    ⊎ ((r : ViewRange) × (resolve_view_range
            (some (number (pos 9)))
            (some (id 2 (codes "aa")))
            none
            (some (codes "a\nb\nc"))
          ≡ ok (some r))
        × InFile (line_count (some (codes "a\nb\nc"))) r)
resolve_view_range-InFile_example =
    resolve_view_range-InFile (some (number (pos 9))) (some (id 2 (codes "aa"))) none
      (some (codes "a\nb\nc")) refl refl refl
