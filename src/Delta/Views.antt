-- ===== src/Delta/Views.antt =====
-- The cache of views after a write.
use octofs.Prelude.{
  ◌≤◌, ◌≡◌, ◌↔◌, refl, ap, true, false, Option, none, some, inl, inr, arith, ltb, if◌then◌else◌,
  Bool-cases, length,
}
use octofs.Text.{Bytes}
use octofs.Text.Equality.{eq_of_bytes_eq, bytes_eq_refl}
use octofs.Maps.{lookup, lookup-insert, lookup-remove}
use octofs.Delta.{normalize, max_cached_bytes, ViewCache, set_view, is_view, note_write}

lookup-set_view :
    (cache : ViewCache) (key content : Bytes)
    → lookup key (set_view cache key content)
      ≡ (if ltb max_cached_bytes (length content) then none else some content)
unfolding set_view
lookup-set_view cache key content = elim (Bool-cases (ltb max_cached_bytes (length content))) [
  | inl e ↦ rw (e, set_view) (rw (lookup-remove key key cache, bytes_eq_refl key) refl)
  | inr e ↦ rw (e, set_view) (rw (lookup-insert key key content cache, bytes_eq_refl key) refl)
]

is_view-eq : (o : Option Bytes) (c : Bytes) → is_view o c ≡ true → o ≡ some c
is_view-eq none c h = cc
is_view-eq (some d) c h = ap some (eq_of_bytes_eq d c h)

eq-is_view : (o : Option Bytes) (c : Bytes) → is_view o c ≡ false → o ≡ some c → ⊥
eq-is_view o c h e = ground (arith, ap (λ t. is_view t c) e, bytes_eq_refl c)

module _ (cache : ViewCache) (key before after : Bytes) where
  known :
      is_view (lookup key cache) (normalize before) ≡ true
      → lookup key (note_write cache key before after)
        ≡ (if ltb max_cached_bytes (length (normalize after)) then none else some (normalize after))
  unfolding note_write
  known h = rw h (lookup-set_view cache key (normalize after))

  unknown :
      is_view (lookup key cache) (normalize before) ≡ false
      → lookup key (note_write cache key before after) ≡ none
  unfolding note_write
  unknown h = rw h (rw (lookup-remove key key cache, bytes_eq_refl key) refl)

  -- After a write the cache has a view of the file exactly where it had the content before the write,
  -- line endings aside, and the new content is within the limit; the view is then the new content.
  pub note_write_iff :
      (view : Bytes)
      → (lookup key (note_write cache key before after) ≡ some view) ↔ (
          (lookup key cache ≡ some (normalize before))
          × (length (normalize after) ≤ 1048576)
          × (view ≡ normalize after))
  note_write_iff view = elim (Bool-cases (is_view (lookup key cache) (normalize before))) [
    | inl h ↦ ground (arith, known h, is_view-eq (lookup key cache) (normalize before) h)
    | inr h ↦ ground (arith, unknown h, eq-is_view (lookup key cache) (normalize before) h)
  ]
