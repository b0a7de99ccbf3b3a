-- ===== src/Text/Splits.antt =====
-- Laws of the pieces that `split_inclusive` and `split` give.
use octofs.Prelude.{ℕ, ◌≡◌, refl, ap, ◌∙◌, inl, inr, List, [], ◌∷◌, ◌++◌, ◌==◌, Bool-cases}
use octofs.Text.{Bytes, push_first, split_inclusive}

abbrev pub concat : List Bytes → Bytes
concat [] = []
concat (p ∷ ps) = p ++ concat ps

concat-push_first : (c : ℕ) (ps : List Bytes) → concat (push_first c ps) ≡ c ∷ concat ps
concat-push_first c [] = refl
concat-push_first c (p ∷ ps) = refl

pub concat-split_inclusive : (b : ℕ) (s : Bytes) → concat (split_inclusive b s) ≡ s
unfolding split_inclusive
concat-split_inclusive b [] = refl
concat-split_inclusive b (c ∷ cs) = elim (Bool-cases (c == b)) [
  | inl e ↦ rw e (ap (c ∷◌) (concat-split_inclusive b cs))
  | inr e ↦ rw e (concat-push_first c _ ∙ ap (c ∷◌) (concat-split_inclusive b cs))
]

pub split_inclusive-nil : (b : ℕ) → split_inclusive b [] ≡ []
unfolding split_inclusive
split_inclusive-nil b = refl

push_first-first :
    (c : ℕ) (ps : List Bytes) → (p : Bytes) × (qs : List Bytes) × (push_first c ps ≡ (c ∷ p) ∷ qs)
push_first-first c [] = ([], [], refl)
push_first-first c (p ∷ ps) = (p, ps, refl)

-- The first piece of a text that is not empty begins with its first byte.
pub split_inclusive-first :
    (b c : ℕ) (s : Bytes)
    → (p : Bytes) × (ps : List Bytes) × (split_inclusive b (c ∷ s) ≡ (c ∷ p) ∷ ps)
unfolding split_inclusive
split_inclusive-first b c s = elim (Bool-cases (c == b)) [
  | inl h ↦ ([], split_inclusive b s, rw h)
  | inr h ↦ rw h (push_first-first c (split_inclusive b s))
]
