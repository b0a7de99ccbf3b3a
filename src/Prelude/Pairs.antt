-- ===== src/Prelude/Pairs.antt =====
-- Relations between any two items of a list, under filters and sorting.
use mathlib.Core.Path.{◌≡◌, sym, subst}
use mathlib.Core.Bool.{Bool, true, false}
use mathlib.Core.Logic.{inl, inr}
use mathlib.Core.List.{List, [], ◌∷◌}
use octofs.Prelude.Tests.{Bool-cases}
use octofs.Prelude.Lists.{All, All-imp, filter}
use octofs.Prelude.Sort.{insert_sorted, sort_by, All-insert_sorted, All-sort_by}

-- The relation holds from each item to every later one.
abbrev pub Pairwise {ℓ κ} : {A : Type ℓ} → (A → A → Type κ) → List A → Type κ
Pairwise R [] = Unit
Pairwise R (x ∷ xs) = All (R x) xs × Pairwise R xs

pub All-zip {ℓ κ μ} :
    {A : Type ℓ} (P : A → Type κ) (Q : A → Type μ) (xs : List A)
    → All P xs
    → All Q xs
    → All (λ x. P x × Q x) xs
All-zip P Q [] a b = tt
All-zip P Q (x ∷ xs) a b = ((a.0, b.0), All-zip P Q xs a.1 b.1)

-- What holds of each item holds of both of a pair.
pub Pairwise-All {ℓ κ μ} :
    {A : Type ℓ} (P : A → Type κ) (R : A → A → Type μ) (xs : List A)
    → All P xs
    → Pairwise R xs
    → Pairwise (λ x y. P x × P y × R x y) xs
Pairwise-All P R [] a b = tt
Pairwise-All P R (x ∷ xs) a b =
    (All-imp xs (λ y h. (a.0, h.0, h.1)) (All-zip P (R x) xs a.1 b.0), Pairwise-All P R xs a.1 b.1)

module _ {ℓ} {A : Type ℓ} (p : A → Bool) where
  pub filter_hit : (x : A) (xs : List A) → p x ≡ true → filter p (x ∷ xs) ≡ x ∷ filter p xs
  unfolding filter
  filter_hit x xs e = rw e

  pub filter_miss : (x : A) (xs : List A) → p x ≡ false → filter p (x ∷ xs) ≡ filter p xs
  unfolding filter
  filter_miss x xs e = rw e

  pub All-filter {κ} :
      (P : A → Type κ) (xs : List A) → All P xs → All (λ x. P x × (p x ≡ true)) (filter p xs)
  unfolding filter
  All-filter P [] a = tt
  All-filter P (x ∷ xs) a = elim (Bool-cases (p x)) [
    | inl e ↦ rw e ((a.0, e), All-filter P xs a.1)
    | inr e ↦ rw e (All-filter P xs a.1)
  ]

  pub All-filter_weak {κ} : (P : A → Type κ) (xs : List A) → All P xs → All P (filter p xs)
  All-filter_weak P xs a = All-imp (filter p xs) (λ y h. h.0) (All-filter P xs a)

  pub Pairwise-filter {κ} :
      (R : A → A → Type κ) (xs : List A) → Pairwise R xs → Pairwise R (filter p xs)
  unfolding filter
  Pairwise-filter R [] a = tt
  Pairwise-filter R (x ∷ xs) a = elim (Bool-cases (p x)) [
    | inl e ↦ rw e (All-filter_weak (R x) xs a.0, Pairwise-filter R xs a.1)
    | inr e ↦ rw e (Pairwise-filter R xs a.1)
  ]

module _ {ℓ κ} {A : Type ℓ} (R : A → A → Type κ) (flip : (x y : A) → R x y → R y x) where
  abbrev pub Cross : List A → List A → Type κ
  Cross ps qs = All (λ x. All (R x) qs) ps

  Cross-right : (x : A) (ps qs : List A) → All (R x) ps → Cross ps qs → Cross ps (x ∷ qs)
  Cross-right x [] qs a c = tt
  Cross-right x (p ∷ ps) qs a c = ((flip x p a.0, c.0), Cross-right x ps qs a.1 c.1)

  -- From each item that one filter keeps to each that the other keeps.
  pub Pairwise-Cross :
      (p q : A → Bool) (xs : List A)
      → ((x : A) → p x ≡ true → q x ≡ false)
      → Pairwise R xs
      → Cross (filter p xs) (filter q xs)
  Pairwise-Cross p q [] f a = unfold filter in tt
  Pairwise-Cross p q (x ∷ xs) f a = elim (Bool-cases (p x)) [
    | inl e ↦
        subst (λ t. Cross t (filter q (x ∷ xs))) (sym (filter_hit p x xs e))
          (subst (λ t. Cross (x ∷ filter p xs) t) (sym (filter_miss q x xs (f x e)))
            (All-filter_weak q (R x) xs a.0, Pairwise-Cross p q xs f a.1))
    | inr e ↦
        subst (λ t. Cross t (filter q (x ∷ xs))) (sym (filter_miss p x xs e))
          (elim (Bool-cases (q x)) [
            | inl g ↦
                subst (λ t. Cross (filter p xs) t) (sym (filter_hit q x xs g))
                  (Cross-right x (filter p xs) (filter q xs) (All-filter_weak p (R x) xs a.0)
                    (Pairwise-Cross p q xs f a.1))
            | inr g ↦
                subst (λ t. Cross (filter p xs) t) (sym (filter_miss q x xs g))
                  (Pairwise-Cross p q xs f a.1)
          ])
  ]

  module _ (le : A → A → Bool) where
    Pairwise-insert_sorted :
        (x : A) (xs : List A) → All (R x) xs → Pairwise R xs → Pairwise R (insert_sorted le x xs)
    unfolding insert_sorted
    Pairwise-insert_sorted x [] h k = (tt, tt)
    Pairwise-insert_sorted x (y ∷ ys) h k = elim (Bool-cases (le x y)) [
      | inl e ↦ rw e (h, k)
      | inr e ↦
          rw e (
            All-insert_sorted le (R y) x ys (flip x y h.0) k.0,
            Pairwise-insert_sorted x ys h.1 k.1,
          )
    ]

    pub Pairwise-sort_by : (xs : List A) → Pairwise R xs → Pairwise R (sort_by le xs)
    unfolding sort_by
    Pairwise-sort_by [] a = tt
    Pairwise-sort_by (x ∷ xs) a =
        Pairwise-insert_sorted x (sort_by le xs) (All-sort_by le (R x) xs a.0)
          (Pairwise-sort_by xs a.1)

-- Sorting orders, for a comparison that is total and transitive.
module _ {ℓ} {A : Type ℓ} (le : A → A → Bool) (total : (x y : A) → le x y ≡ false → le y x ≡ true)
    (trans : (x y z : A) → le x y ≡ true → le y z ≡ true → le x z ≡ true) where
  insert_sorted-Pairwise :
      (x : A) (xs : List A)
      → Pairwise (λ y z. le y z ≡ true) xs
      → Pairwise (λ y z. le y z ≡ true) (insert_sorted le x xs)
  unfolding insert_sorted
  insert_sorted-Pairwise x [] h = (tt, tt)
  insert_sorted-Pairwise x (y ∷ ys) h = elim (Bool-cases (le x y)) [
    | inl e ↦ rw e ((e, All-imp ys (λ z k. trans x y z e k) h.0), h)
    | inr e ↦ rw e (
      All-insert_sorted le (λ z. le y z ≡ true) x ys (total x y e) h.0,
      insert_sorted-Pairwise x ys h.1,
    )
  ]

  pub sort_by-Pairwise : (xs : List A) → Pairwise (λ y z. le y z ≡ true) (sort_by le xs)
  unfolding sort_by
  sort_by-Pairwise [] = tt
  sort_by-Pairwise (x ∷ xs) = insert_sorted-Pairwise x (sort_by le xs) (sort_by-Pairwise xs)

pub Pairwise-imp {ℓ κ μ} :
    {A : Type ℓ} (R : A → A → Type κ) (S : A → A → Type μ) (xs : List A)
    → ((x y : A) → R x y → S x y)
    → Pairwise R xs
    → Pairwise S xs
Pairwise-imp R S [] f a = tt
Pairwise-imp R S (x ∷ xs) f a = (All-imp xs (f x) a.0, Pairwise-imp R S xs f a.1)
