-- ===== src/Batch/Flow.antt =====
-- Lines in order, with what stands in the gaps between them and what stands for each of them.
use octofs.Prelude.{
  ℕ, ◌+◌, ◌≤◌, ◌<◌, ◌≡◌, refl, ap, ap₂, ◌∙◌, List, [], ◌∷◌, ◌++◌, append_assoc, arith, length,
}

module _ {ℓ} {A : Type ℓ} where
  -- From the gap behind line `i` on: each gap, then the line behind it by its number.
  unfoldable pub flow : (ℕ → List A) → (ℕ → A → List A) → ℕ → List A → List A
  flow gap body i [] = []
  flow gap body i (l ∷ ls) = gap i ++ (body (i + 1) l ++ flow gap body (i + 1) ls)

  pub flow-append :
      (gap : ℕ → List A) (body : ℕ → A → List A) (i : ℕ) (ls ms : List A)
      → flow gap body i (ls ++ ms) ≡ flow gap body i ls ++ flow gap body (i + length ls) ms
  unfolding flow
  flow-append gap body i [] ms =
      let e : i ≡ i + length {A = A} [] = omega arith in ap (λ n. flow gap body n ms) e
  flow-append gap body i (l ∷ ls) ms =
      let e : i + 1 + length ls ≡ i + length (l ∷ ls) = omega arith in
      ap (λ t. gap i ++ (body (i + 1) l ++ t))
        (flow-append gap body (i + 1) ls ms
          ∙ ap (λ n. flow gap body (i + 1) ls ++ flow gap body n ms) e)
      ∙ simp append_assoc

  -- Only the numbers of the lines count.
  pub flow-same :
      (gap gap' : ℕ → List A) (body body' : ℕ → A → List A) (i : ℕ) (ls : List A)
      → ((j : ℕ) → i ≤ j → j < i + length ls → gap j ≡ gap' j)
      → ((j : ℕ) (l : A) → i < j → j ≤ i + length ls → body j l ≡ body' j l)
      → flow gap body i ls ≡ flow gap' body' i ls
  unfolding flow
  flow-same gap gap' body body' i [] g b = refl
  flow-same gap gap' body body' i (l ∷ ls) g b = ap₂ ◌++◌ (g i (omega arith) (omega arith)) (
      ap₂ ◌++◌ (b (i + 1) l (omega arith) (omega arith)) (
        flow-same gap gap' body body' (i + 1) ls (λ j p q. g j (omega arith) (omega arith))
          (λ j m p q. b j m (omega arith) (omega arith))))

  -- Nothing in the gaps and each line for itself.
  pub flow_id : (i : ℕ) (ls : List A) → flow (λ _. []) (λ _ l. l ∷ []) i ls ≡ ls
  unfolding flow
  flow_id i [] = refl
  flow_id i (l ∷ ls) = ap (l ∷◌) (flow_id (i + 1) ls)

  pub flow_none : (i : ℕ) (ls : List A) → flow (λ _. []) (λ _ l. []) i ls ≡ []
  unfolding flow
  flow_none i [] = refl
  flow_none i (l ∷ ls) = flow_none (i + 1) ls
