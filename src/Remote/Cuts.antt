-- ===== src/Remote/Cuts.antt =====
-- Texts cut at the first and at the last of a byte, and put together again.
use octofs.Prelude.{ℕ, ◌≡◌, refl, ap, false, none, some, [], ◌∷◌, ◌++◌, arith, ◌==◌, All}
use octofs.Text.{Bytes}
use octofs.LineHash.Endpoint.{split_once, cons_before, is_digit}
use octofs.LineHash.Endpoint.Decimals.{AreDigits}
use octofs.Remote.{strip_prefix, rsplit_once, contains_byte}

-- The byte does not occur.
abbrev pub Lacks : ℕ → Bytes → Type 0
Lacks b = All (λ c. (c == b) ≡ false)

pub Lacks-append : (b : ℕ) (s t : Bytes) → Lacks b s → Lacks b t → Lacks b (s ++ t)
Lacks-append b [] t h k = k
Lacks-append b (c ∷ s) t h k = (h.0, Lacks-append b s t h.1 k)

pub split_once-append : (b : ℕ) (s t : Bytes) → Lacks b s → split_once b (s ++ b ∷ t) ≡ some (s, t)
unfolding split_once
split_once-append b [] t h = ground arith
split_once-append b (c ∷ s) t h = rw h.0 (ap (cons_before c) (split_once-append b s t h.1))

pub split_once-none : (b : ℕ) (s : Bytes) → Lacks b s → split_once b s ≡ none
unfolding split_once
split_once-none b [] h = refl
split_once-none b (c ∷ s) h = rw h.0 (ap (cons_before c) (split_once-none b s h.1))

pub rsplit_once-none : (b : ℕ) (s : Bytes) → Lacks b s → rsplit_once b s ≡ none
unfolding rsplit_once
rsplit_once-none b [] h = refl
rsplit_once-none b (c ∷ s) h = rw (h.0, rsplit_once-none b s h.1) refl

pub rsplit_once-append :
    (b : ℕ) (s t : Bytes) → Lacks b t → rsplit_once b (s ++ b ∷ t) ≡ some (s, t)
unfolding rsplit_once
rsplit_once-append b [] t h = rw (rsplit_once-none b t h) (ground arith)
rsplit_once-append b (c ∷ s) t h = rw (rsplit_once-append b s t h) refl

pub strip_prefix-append : (p s : Bytes) → strip_prefix p (p ++ s) ≡ some s
unfolding strip_prefix
strip_prefix-append [] s = refl
strip_prefix-append (c ∷ p) s = ground (arith, strip_prefix-append p s)

pub Lacks-digits : (b : ℕ) (s : Bytes) → is_digit b ≡ false → AreDigits s → Lacks b s
Lacks-digits b [] h k = tt
Lacks-digits b (c ∷ s) h k = (ground (arith, k.0), Lacks-digits b s h k.1)

pub Lacks-contains_byte : (b : ℕ) (s : Bytes) → contains_byte b s ≡ false → Lacks b s
Lacks-contains_byte b [] h = tt
Lacks-contains_byte b (c ∷ s) h = (ground arith, Lacks-contains_byte b s (ground arith))
