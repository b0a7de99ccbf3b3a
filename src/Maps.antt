-- ===== src/Maps.antt =====
-- A hash map keyed by texts, as an association list.
use octofs.Prelude.{
  subst, ◌+◌, ℕ, ◌≡◌, refl, sym, ap, ◌∙◌, true, false, inl, inr, Option, none, some, List, [], ◌∷◌,
  arith, if◌then◌else◌, Bool-cases,
}
use octofs.Text.{Bytes, bytes_eq}
use octofs.Text.Equality.{eq_of_bytes_eq, bytes_eq_refl}

abbrev pub Map {ℓ} : Type ℓ → Type ℓ
Map V = List (Bytes × V)

module _ {ℓ} {V : Type ℓ} where
  unfoldable pub lookup : Bytes → List (Bytes × V) → Option V
  unfolding bytes_eq
  lookup k [] = none
  lookup k ((j, v) ∷ m) = if bytes_eq j k then some v else lookup k m

  unfoldable pub insert : Bytes → V → List (Bytes × V) → List (Bytes × V)
  unfolding bytes_eq
  insert k v [] = (k, v) ∷ []
  insert k v ((j, w) ∷ m) = if bytes_eq j k then (j, v) ∷ m else (j, w) ∷ insert k v m

  unfoldable pub remove : Bytes → List (Bytes × V) → List (Bytes × V)
  unfolding bytes_eq
  remove k [] = []
  remove k ((j, w) ∷ m) = let rest = remove k m in if bytes_eq j k then rest else (j, w) ∷ rest

bytes_eq-step : (i k j : Bytes) → bytes_eq i k ≡ true → bytes_eq i j ≡ bytes_eq k j
bytes_eq-step i k j h = ap (λ a. bytes_eq a j) (eq_of_bytes_eq i k h)

bytes_eq-ne : (i k j : Bytes) → bytes_eq i k ≡ false → bytes_eq i j ≡ true → bytes_eq k j ≡ false
bytes_eq-ne i k j h e = elim (Bool-cases (bytes_eq k j)) [
  | inl f ↦ cc (eq_of_bytes_eq k j f)
  | inr f ↦ f
]

pub bytes_eq-sym : (i k : Bytes) → bytes_eq i k ≡ false → bytes_eq k i ≡ false
bytes_eq-sym i k h = bytes_eq-ne i k i h (bytes_eq_refl i)

module _ {ℓ} {V : Type ℓ} where
  pub lookup-insert :
      (k j : Bytes) (v : V) (m : List (Bytes × V))
      → lookup j (insert k v m) ≡ (if bytes_eq k j then some v else lookup j m)
  unfolding lookup insert
  lookup-insert k j v [] = refl
  lookup-insert k j v ((i, w) ∷ m) = elim (Bool-cases (bytes_eq i k)) [
    | inl h ↦ rw (h, lookup) (rw (bytes_eq-step i k j h) (ground arith))
    | inr h ↦ rw (h, lookup) (ground (arith, bytes_eq-ne i k j h, lookup-insert k j v m))
  ]

  pub lookup-remove :
      (k j : Bytes) (m : List (Bytes × V))
      → lookup j (remove k m) ≡ (if bytes_eq k j then none else lookup j m)
  unfolding lookup remove
  lookup-remove k j [] = ground arith
  lookup-remove k j ((i, w) ∷ m) = elim (Bool-cases (bytes_eq i k)) [
    | inl h ↦ rw (h, lookup) (ground (arith, bytes_eq-step i k j h, lookup-remove k j m))
    | inr h ↦ rw (h, lookup) (ground (arith, bytes_eq-ne i k j h, lookup-remove k j m))
  ]

  -- No key stands twice.
  abbrev pub Unique : List (Bytes × V) → Type ℓ
  Unique [] = Unit
  Unique ((k, v) ∷ m) = (lookup k m ≡ none) × Unique m

  pub Unique-insert : (k : Bytes) (v : V) (m : List (Bytes × V)) → Unique m → Unique (insert k v m)
  unfolding insert
  Unique-insert k v [] u = (unfold lookup in refl, tt)
  Unique-insert k v ((j, w) ∷ m) u = elim (Bool-cases (bytes_eq j k)) [
    | inl h ↦ rw h u
    | inr h ↦ rw h (rw (lookup-insert k j v m, bytes_eq-sym j k h) u.0, Unique-insert k v m u.1)
  ]

  pub Unique-remove : (k : Bytes) (m : List (Bytes × V)) → Unique m → Unique (remove k m)
  unfolding remove
  Unique-remove k [] u = tt
  Unique-remove k ((j, w) ∷ m) u = elim (Bool-cases (bytes_eq j k)) [
    | inl h ↦ rw h (Unique-remove k m u.1)
    | inr h ↦ rw h (rw (lookup-remove k j m, bytes_eq-sym j k h) u.0, Unique-remove k m u.1)
  ]

  pub remove_absent : (k : Bytes) (m : List (Bytes × V)) → lookup k m ≡ none → remove k m ≡ m
  unfolding remove lookup
  remove_absent k [] h = refl
  remove_absent k ((j, w) ∷ m) h = ground (arith, remove_absent k m)

  -- The sum of a measure of the values.
  unfoldable pub total : (V → ℕ) → List (Bytes × V) → ℕ
  total f [] = 0
  total f ((k, v) ∷ m) = f v + total f m

  abbrev pub of_option : (V → ℕ) → Option V → ℕ
  of_option f none = 0
  of_option f (some v) = f v

  pub total-insert :
      (f : V → ℕ) (k : Bytes) (v : V) (m : List (Bytes × V))
      → total f (insert k v m) + of_option f (lookup k m) ≡ total f m + f v
  unfolding total insert lookup
  total-insert f k v [] = omega arith
  total-insert f k v ((j, w) ∷ m) = ground (arith, total-insert f k v m)

  pub total-remove :
      (f : V → ℕ) (k : Bytes) (m : List (Bytes × V))
      → Unique m
      → total f (remove k m) + of_option f (lookup k m) ≡ total f m
  unfolding total remove lookup
  total-remove f k [] u = omega arith
  total-remove f k ((j, w) ∷ m) u = elim (Bool-cases (bytes_eq j k)) [
    | inl h ↦ rw h (
        let absent = subst (λ x. lookup x m ≡ none) (eq_of_bytes_eq j k h) u.0 in
        omega (arith, ap (total f) (remove_absent k m absent)))
    | inr h ↦ rw h (omega (arith, total-remove f k m u.1))
  ]

module _ {ℓ} {V : Type ℓ} (k j : Bytes) (w : V) (m : List (Bytes × V)) where
  pub lookup_hit : bytes_eq j k ≡ true → lookup k ((j, w) ∷ m) ≡ some w
  unfolding lookup
  lookup_hit h = rw h

  pub lookup_miss : bytes_eq j k ≡ false → lookup k ((j, w) ∷ m) ≡ lookup k m
  unfolding lookup
  lookup_miss h = rw h

-- A predicate on every value.
abbrev pub AllValues {ℓ κ} : {V : Type ℓ} → (V → Type κ) → List (Bytes × V) → Type κ
AllValues P [] = Unit
AllValues P ((k, v) ∷ m) = P v × AllValues P m

module _ {ℓ κ} {V : Type ℓ} (P : V → Type κ) where
  pub AllValues-insert :
      (k : Bytes) (v : V) (m : List (Bytes × V)) → P v → AllValues P m → AllValues P (insert k v m)
  unfolding insert
  AllValues-insert k v [] p a = (p, tt)
  AllValues-insert k v ((j, w) ∷ m) p a = elim (Bool-cases (bytes_eq j k)) [
    | inl h ↦ rw h (p, a.1)
    | inr h ↦ rw h (a.0, AllValues-insert k v m p a.1)
  ]

  pub AllValues-remove :
      (k : Bytes) (m : List (Bytes × V)) → AllValues P m → AllValues P (remove k m)
  unfolding remove
  AllValues-remove k [] a = tt
  AllValues-remove k ((j, w) ∷ m) a = elim (Bool-cases (bytes_eq j k)) [
    | inl h ↦ rw h (AllValues-remove k m a.1)
    | inr h ↦ rw h (a.0, AllValues-remove k m a.1)
  ]

  pub AllValues-lookup :
      (k : Bytes) (m : List (Bytes × V)) {v : V} → AllValues P m → lookup k m ≡ some v → P v
  AllValues-lookup k [] a e = unfold lookup in cc
  AllValues-lookup k ((j, w) ∷ m) {v} a e = elim (Bool-cases (bytes_eq j k)) [
    | inl h ↦ let q : w ≡ v = cc (lookup_hit k j w m h) in subst P q a.0
    | inr h ↦ AllValues-lookup k m a.1 (sym (lookup_miss k j w m h) ∙ e)
  ]
