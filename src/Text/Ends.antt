-- ===== src/Text/Ends.antt =====
-- The end of a text that is put together.
use octofs.Prelude.{ℕ, ◌≡◌, refl, false, [], ◌∷◌, ◌++◌}
use octofs.Text.{Bytes, is_empty, ends_with}

pub ends_with-append :
    (b : ℕ) (s t : Bytes) → is_empty t ≡ false → ends_with b (s ++ t) ≡ ends_with b t
unfolding ends_with
ends_with-append b [] t h = refl
ends_with-append b (c ∷ []) [] h = cc
ends_with-append b (c ∷ []) (d ∷ t) h = refl
ends_with-append b (c ∷ e ∷ s) t h = ends_with-append b (e ∷ s) t h

pub is_empty-append_right : (s t : Bytes) → is_empty t ≡ false → is_empty (s ++ t) ≡ false
is_empty-append_right [] t h = h
is_empty-append_right (c ∷ s) t h = refl
