-- ===== src/Delta.antt =====
-- src/mcp/fs/delta.rs: the views of a file that show only what changed since the last one, and the
-- cache of what the client has seen.
use octofs.Prelude.{ℕ, Bool, true, false, Option, none, some, [], ◌∷◌, ltb, if◌then◌else◌, length}
use octofs.Text.{Bytes, lf, cr, replace, replace_from, bytes_eq}
use octofs.Maps.{Map, lookup, insert, remove}
pub mod Views

-- Line-ending agnostic form: views and edits both work on `lines()`.
unfoldable pub normalize : Bytes → Bytes
unfolding replace_from
normalize content = replace (cr ∷ lf ∷ []) (lf ∷ []) content

abbrev pub max_cached_bytes : ℕ
max_cached_bytes = 1048576

-- The last full content served for each file.
abbrev pub ViewCache : Type 0
ViewCache = Map Bytes

unfoldable pub set_view : ViewCache → Bytes → Bytes → ViewCache
unfolding insert remove
set_view cache key content =
    if ltb max_cached_bytes (length content) then remove key cache else insert key content cache

abbrev pub is_view : Option Bytes → Bytes → Bool
is_view none content = false
is_view (some view) content = bytes_eq view content

-- The entry stays valid only if it was current before the write.
unfoldable pub note_write : ViewCache → Bytes → Bytes → Bytes → ViewCache
unfolding set_view lookup remove normalize bytes_eq
note_write cache key before after =
    if is_view (lookup key cache) (normalize before)
    then set_view cache key (normalize after)
    else remove key cache

unfoldable pub note_create : ViewCache → Bytes → Bytes → ViewCache
unfolding set_view normalize
note_create cache key content = set_view cache key (normalize content)
