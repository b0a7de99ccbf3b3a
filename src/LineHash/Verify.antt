-- ===== src/LineHash/Verify.antt =====
-- A line id verifies exactly at its line, and every id that an error offers verifies.
use octofs.Prelude.{
  ℕ, zero, suc, ◌+◌, ◌-◌, ◌≤◌, ◌<◌, ◌≡◌, refl, sym, ap, ◌∙◌, ◌↔◌, ◌⊎◌, subst, false, ◌==◌, ltb, map,
  inl, inr, List, [], ◌∷◌, arith, Bool-cases, length, get_or, take, All, ok, err,
}
use octofs.Prelude.Sort.{by_key, sort_by, All-sort_by, IsAscending, sort_by-IsAscending}
use octofs.Text.{Bytes, bytes_eq}
use octofs.Text.Equality.{eq_of_bytes_eq, bytes_eq_refl}
use octofs.LineHash.Nearest.{Has, Has-take, Has-sort_by, matching_lines-Has}
use octofs.LineHash.{
  LineId, VerifyError, out_of_range, stale, matching_lines, ids_at, relocation, verify_line_id,
  abs_diff,
}

module _ (line_hash : Bytes → Bytes) where
  -- The file has this line, with this hash.
  pub record Holds (lines : List Bytes) (line : ℕ) (hash : Bytes) : Type 0 where
    pub positive : 1 ≤ line
    pub within : line ≤ length lines
    pub content : line_hash (get_or lines (line - 1) []) ≡ hash

  verified :
      (line : ℕ) (hash : Bytes) (lines : List Bytes)
      → Holds lines line hash
      → verify_line_id line_hash line hash lines ≡ ok line
  unfolding verify_line_id
  verified line hash lines h = rw (h.content, bytes_eq_refl hash) (ground arith)

  verified_sound :
      (line : ℕ) (hash : Bytes) (lines : List Bytes) {k : ℕ}
      → verify_line_id line_hash line hash lines ≡ ok k
      → (k ≡ line) × Holds lines line hash
  unfolding verify_line_id
  verified_sound line hash lines e = (
    ground arith,
    record {
      positive = ground arith;
      within = ground arith;
      content = eq_of_bytes_eq _ _ (ground arith);
    },
  )

  -- An id verifies exactly if the file has its line with its hash, and then as its own line.
  pub verify_line_id_iff :
      (line : ℕ) (hash : Bytes) (lines : List Bytes) (k : ℕ)
      → (verify_line_id line_hash line hash lines ≡ ok k) ↔ ((k ≡ line) × Holds lines line hash)
  verify_line_id_iff line hash lines k =
      (verified_sound line hash lines, λ (e, h). verified line hash lines h ∙ ap ok (sym e))

  -- From line `at` on, a line of `ls` at `n`.
  abbrev Within : Bytes → ℕ → List Bytes → ℕ → Type 0
  Within hash at ls n = (at ≤ n) × (n < at + length ls) × (line_hash (get_or ls (n - at) []) ≡ hash)

  Within-suc :
      (hash : Bytes) (at : ℕ) (l : Bytes) (ls : List Bytes) (ns : List ℕ)
      → All (Within hash (at + 1) ls) ns
      → All (Within hash at (l ∷ ls)) ns
  Within-suc hash at l ls [] h = tt
  Within-suc hash at l ls (n ∷ ns) (w, h) =
      ((omega arith, omega arith, rw (suc_sub n at w.0) w.2), Within-suc hash at l ls ns h)
    where
      suc_sub : (a b : ℕ) → b + 1 ≤ a → a - b ≡ suc (a - (b + 1))
      suc_sub a b k = omega arith

  matching_lines-Within :
      (hash : Bytes) (at : ℕ) (ls : List Bytes)
      → All (Within hash at ls) (matching_lines line_hash hash at ls)
  unfolding matching_lines
  matching_lines-Within hash at [] = tt
  matching_lines-Within hash at (l ∷ ls) =
      let rest = Within-suc hash at l ls _ (matching_lines-Within hash (at + 1) ls) in
      elim (Bool-cases (bytes_eq (line_hash l) hash)) [
        | inl e ↦ rw e (
          (omega arith, omega arith, rw (sub_self at) (eq_of_bytes_eq (line_hash l) hash e)),
          rest,
        )
        | inr e ↦ rw e rest
      ]
    where
      sub_self : (a : ℕ) → a - a ≡ 0
      sub_self a = omega arith

  All-take : (P : ℕ → Type 0) (n : ℕ) (xs : List ℕ) → All P xs → All P (take n xs)
  All-take P zero xs h = tt
  All-take P (suc n) [] h = tt
  All-take P (suc n) (x ∷ xs) h = (h.0, All-take P n xs h.1)

  -- An offered id: it carries the hash asked for and verifies.
  abbrev pub Verifies : Bytes → List Bytes → LineId → Type 0
  Verifies hash lines id =
      (id.hash ≡ hash) × (verify_line_id line_hash id.line id.hash lines ≡ ok id.line)

  ids_at-Verifies :
      (hash : Bytes) (lines : List Bytes) (ns : List ℕ)
      → All (Within hash 1 lines) ns
      → All (Verifies hash lines) (ids_at line_hash lines ns)
  ids_at-Verifies hash lines [] h = tt
  ids_at-Verifies hash lines (n ∷ ns) (w, h) = (
    (
      w.2,
      verified n (line_hash (get_or lines (n - 1) [])) lines
          (record { positive = w.0; within = omega arith; content = refl }),
    ),
    ids_at-Verifies hash lines ns h,
  )

  relocation-Verifies :
      (hash : Bytes) (line : ℕ) (lines : List Bytes)
      → All (Verifies hash lines) (relocation line_hash hash line lines)
  unfolding relocation
  relocation-Verifies hash line lines = ids_at-Verifies hash lines _ (
      All-take (Within hash 1 lines) 3 _ (
        All-sort_by (by_key (λ n. abs_diff n line)) (Within hash 1 lines) _
          (matching_lines-Within hash 1 lines)))

  IsAscending-take :
      (key : ℕ → ℕ) (n : ℕ) (xs : List ℕ) → IsAscending key xs → IsAscending key (take n xs)
  IsAscending-take key zero xs h = tt
  IsAscending-take key (suc n) [] h = tt
  IsAscending-take key (suc n) (x ∷ xs) h =
      (All-take (λ y. key x ≤ key y) n xs h.0, IsAscending-take key n xs h.1)

  abbrev distance : ℕ → LineId → ℕ
  distance line id = abs_diff id.line line

  IsAscending-ids_at :
      (lines : List Bytes) (line : ℕ) (ns : List ℕ)
      → IsAscending (λ n. abs_diff n line) ns
      → IsAscending (distance line) (ids_at line_hash lines ns)
  IsAscending-ids_at lines line [] h = tt
  IsAscending-ids_at lines line (n ∷ ns) h =
      (All-ids_at ns h.0, IsAscending-ids_at lines line ns h.1)
    where
      All-ids_at :
          (ms : List ℕ)
          → All (λ m. abs_diff n line ≤ abs_diff m line) ms
          → All (λ id. abs_diff n line ≤ distance line id) (ids_at line_hash lines ms)
      All-ids_at [] k = tt
      All-ids_at (m ∷ ms) k = (k.0, All-ids_at ms k.1)

  -- The ids that an error offers in place of the refused one.
  abbrev pub offered : VerifyError → List LineId
  offered (out_of_range id total ids) = ids
  offered (stale id win_start win_end ids) = ids

  offered-relocation :
      (line : ℕ) (hash : Bytes) (lines : List Bytes) {e : VerifyError}
      → verify_line_id line_hash line hash lines ≡ err e
      → offered e ≡ relocation line_hash hash line lines
  unfolding verify_line_id
  offered-relocation line hash lines h = ground arith

  relocation-IsAscending :
      (hash : Bytes) (line : ℕ) (lines : List Bytes)
      → IsAscending (distance line) (relocation line_hash hash line lines)
  unfolding relocation
  relocation-IsAscending hash line lines = IsAscending-ids_at lines line _ (
      IsAscending-take (λ n. abs_diff n line) 3 _
        (sort_by-IsAscending (λ n. abs_diff n line) (matching_lines line_hash hash 1 lines)))

  -- The lines that an error offers.
  abbrev pub offered_lines : VerifyError → List ℕ
  offered_lines e = map (λ id. id.line) (offered e)

  lines-ids_at :
      (lines : List Bytes) (ns : List ℕ) → map (λ id. id.line) (ids_at line_hash lines ns) ≡ ns
  lines-ids_at lines [] = refl
  lines-ids_at lines (n ∷ ns) = ap (n ∷◌) (lines-ids_at lines ns)

  -- A line is offered, or three are that are at least as near.
  abbrev pub Covered : ℕ → List ℕ → ℕ → Type 0
  Covered line ns n = Has n ns ⊎ ((length ns ≡ 3) × All (λ m. abs_diff m line ≤ abs_diff n line) ns)

  Holds-decided :
      (line : ℕ) (hash : Bytes) (lines : List Bytes)
      → Holds lines line hash ⊎ ¬ Holds lines line hash
  Holds-decided line hash lines = elim (Bool-cases (line == 0)) [
    | inl z ↦ inr (λ h. absurd (ground (arith, h.positive)))
    | inr p ↦ elim (Bool-cases (ltb (length lines) line)) [
      | inl o ↦ inr (λ h. absurd (ground (arith, h.within)))
      | inr w ↦ elim (Bool-cases (bytes_eq (line_hash (get_or lines (line - 1) [])) hash)) [
        | inl e ↦ inl (record {
          positive = ground arith;
          within = ground arith;
          content = eq_of_bytes_eq _ _ e;
        })
        | inr e ↦ inr (λ h.
            let q : bytes_eq hash hash ≡ false = rw h.content at e in
            let r = bytes_eq_refl hash in cc)
      ]
    ]
  ]

  relocation-Covered :
      (line : ℕ) (hash : Bytes) (lines : List Bytes) (n : ℕ)
      → Holds lines n hash
      → Covered line (map (λ id. id.line) (relocation line_hash hash line lines)) n
  unfolding relocation
  relocation-Covered line hash lines n h =
      let key : ℕ → ℕ = λ m. abs_diff m line in
      let found : Has n (matching_lines line_hash hash 1 lines) =
        subst (λ m. Has m (matching_lines line_hash hash 1 lines)) (back n h.positive)
          (matching_lines-Has line_hash hash 1 lines (n - 1) (omega (arith, h.positive, h.within))
            h.content) in
      subst (λ ns. Covered line ns n)
        (sym (
          lines-ids_at lines
            (take 3 (sort_by (by_key key) (matching_lines line_hash hash 1 lines)))))
        (Has-take key n 3 _ (sort_by-IsAscending key (matching_lines line_hash hash 1 lines))
          (Has-sort_by key n _ found))
    where
      back : (m : ℕ) → 1 ≤ m → 1 + (m - 1) ≡ m
      back m k = omega arith

  -- Every id that a refusal offers carries the expected hash and verifies against the same file, and
  -- the offers come nearest first. Each line of the file either has another hash, or is offered, or
  -- gives way to three offers that are at least as near.
  pub verify_line_id-offered :
      (line : ℕ) (hash : Bytes) (lines : List Bytes) {e : VerifyError} (n : ℕ)
      → verify_line_id line_hash line hash lines ≡ err e
      → All (Verifies hash lines) (offered e)
        × IsAscending (distance line) (offered e)
        × ((¬ Holds lines n hash) ⊎ Covered line (offered_lines e) n)
  verify_line_id-offered line hash lines n h = rw (offered-relocation line hash lines h) (
    relocation-Verifies hash line lines,
    relocation-IsAscending hash line lines,
    elim (Holds-decided n hash lines) [
      | inl k ↦ inr (relocation-Covered line hash lines n k)
      | inr k ↦ inl k
    ],
  )
