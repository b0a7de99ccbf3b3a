-- ===== src/Tests/ViewCaches.antt =====
-- The cache of views on one file.
use octofs.Prelude.{[], ◌≡◌, ◌↔◌, ◌≤◌, refl, some, length}
use octofs.Text.{starts_with}
use octofs.Maps.{lookup}
use octofs.Delta.{normalize, ViewCache, note_write, note_create}
use octofs.Delta.Views.{note_write_iff}
use octofs.Tests.Editing.{codes}

abbrev seen : ViewCache
seen = note_create [] (codes "f") (codes "a\r\nb")

written-seen :
    lookup (codes "f") (note_write seen (codes "f") (codes "a\nb") (codes "a\r\nc"))
    ≡ some (codes "a\nc")
unfolding lookup note_write note_create starts_with
written-seen = refl

note_write_iff_example :
    (lookup (codes "f") (note_write seen (codes "f") (codes "a\nb") (codes "a\r\nc"))
      ≡ some (codes "a\nc"))
    ↔ ((lookup (codes "f") seen ≡ some (normalize (codes "a\nb")))
        × (length (normalize (codes "a\r\nc")) ≤ 1048576)
        × (codes "a\nc" ≡ normalize (codes "a\r\nc")))
note_write_iff_example =
    note_write_iff seen (codes "f") (codes "a\nb") (codes "a\r\nc") (codes "a\nc")
