-- ===== src/LineHash/Nearest.antt =====
-- The nearest of the lines with a hash: what `push_relocation` keeps of them.
use octofs.Prelude.{
  ℕ, zero, suc, ◌+◌, ◌≤◌, ◌<◌, ◌≡◌, refl, ap, subst, ◌⊎◌, inl, inr, List, [], ◌∷◌, arith,
  Bool-cases, length, get_or, take, All,
}
use octofs.Prelude.Sort.{by_key, insert_sorted, sort_by, IsAscending}
use octofs.Text.{Bytes, bytes_eq}
use octofs.Text.Equality.{bytes_eq_refl}
use octofs.LineHash.{matching_lines}

-- The number is in the list.
abbrev pub Has : ℕ → List ℕ → Type 0
Has n [] = ⊥
Has n (x ∷ xs) = (x ≡ n) ⊎ Has n xs

All-Has : (P : ℕ → Type 0) (n : ℕ) (xs : List ℕ) → All P xs → Has n xs → P n
All-Has P n [] a h = absurd h
All-Has P n (x ∷ xs) a (inl e) = subst P e a.0
All-Has P n (x ∷ xs) a (inr h) = All-Has P n xs a.1 h

module _ (key : ℕ → ℕ) (n : ℕ) where
  Has-insert_sorted :
      (x : ℕ) (xs : List ℕ) → Has n (x ∷ xs) → Has n (insert_sorted (by_key key) x xs)
  unfolding insert_sorted
  Has-insert_sorted x [] h = h
  Has-insert_sorted x (y ∷ ys) h = elim (Bool-cases (by_key key x y)) [
    | inl e ↦ rw e h
    | inr e ↦ rw e (behind (Has-insert_sorted x ys) h)
  ]
    where
      behind :
          (Has n (x ∷ ys) → Has n (insert_sorted (by_key key) x ys))
          → Has n (x ∷ y ∷ ys)
          → Has n (y ∷ insert_sorted (by_key key) x ys)
      behind f (inl k) = inr (f (inl k))
      behind f (inr (inl k)) = inl k
      behind f (inr (inr k)) = inr (f (inr k))

  pub Has-sort_by : (xs : List ℕ) → Has n xs → Has n (sort_by (by_key key) xs)
  unfolding sort_by
  Has-sort_by [] h = h
  Has-sort_by (x ∷ xs) (inl e) = Has-insert_sorted x (sort_by (by_key key) xs) (inl e)
  Has-sort_by (x ∷ xs) (inr h) =
      Has-insert_sorted x (sort_by (by_key key) xs) (inr (Has-sort_by xs h))

  -- Of an ascending list, the number is among the first `k`, or there are `k` that come before it.
  pub Has-take :
      (k : ℕ) (xs : List ℕ)
      → IsAscending key xs
      → Has n xs
      → Has n (take k xs) ⊎ ((length (take k xs) ≡ k) × All (λ x. key x ≤ key n) (take k xs))
  Has-take zero xs a h = inr (refl, tt)
  Has-take (suc k) [] a h = absurd h
  Has-take (suc k) (x ∷ xs) a (inl e) = inl (inl e)
  Has-take (suc k) (x ∷ xs) a (inr h) = elim (Has-take k xs a.1 h) [
    | inl i ↦ inl (inr i)
    | inr (l, b) ↦ inr (ap suc l, (All-Has (λ y. key x ≤ key y) n xs a.0 h, b))
  ]

module _ (line_hash : Bytes → Bytes) where
  pub matching_lines-Has :
      (hash : Bytes) (at : ℕ) (ls : List Bytes) (i : ℕ)
      → i < length ls
      → line_hash (get_or ls i []) ≡ hash
      → Has (at + i) (matching_lines line_hash hash at ls)
  unfolding matching_lines
  matching_lines-Has hash at [] i l e = absurd (omega arith)
  matching_lines-Has hash at (x ∷ ls) zero l e = rw (e, bytes_eq_refl hash) (inl (omega arith))
  matching_lines-Has hash at (x ∷ ls) (suc i) l e =
      let found : Has (at + suc i) (matching_lines line_hash hash (at + 1) ls) =
        subst (λ m. Has m (matching_lines line_hash hash (at + 1) ls)) (shift at i)
          (matching_lines-Has hash (at + 1) ls i (omega arith) e) in
      elim (Bool-cases (bytes_eq (line_hash x) hash)) [
        | inl k ↦ rw k (inr found)
        | inr k ↦ rw k found
      ]
    where
      shift : (a b : ℕ) → a + 1 + b ≡ a + suc b
      shift a b = omega arith
