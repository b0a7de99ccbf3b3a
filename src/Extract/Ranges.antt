-- ===== src/Extract/Ranges.antt =====
-- The two ends of the range of an extraction are the lines that its parameters name.
use octofs.Prelude.{
  subst_ok, bound, ok, err, ℕ, ◌≤◌, ◌≡◌, sym, subst, Option, none, some, inl, inr, Bool-cases, ltb,
  length, refl,
}
use octofs.Text.{Bytes, lines}
use octofs.LineHash.{i64_max}
use octofs.LineHash.Endpoint.{Value, Endpoint, parse_endpoint}
use octofs.Extract.Places.{ok_of_map_err, LineOf, EndOf, endpoint-LineOf, endpoint-same}
use octofs.Extract.{
  bad_endpoint, backwards, the_start, the_end, map_err, parse_range, resolve_extract_endpoint,
  resolve_range,
}

module _ (line_hash : Bytes → Bytes) (source : Bytes)
    (small : length (lines source) ≤ i64_max) where
  -- What the two ends of the range name.
  abbrev pub Found : Option Value → Option Value → ℕ → ℕ → Type 0
  Found from_start from_end from to =
      (start : Value) × (from_start ≡ some start)
      × LineOf line_hash (lines source) start from
      × EndOf line_hash (lines source) from_end from to

  pairs-Found :
      (v : Value) (from_end : Option Value) (a b : Endpoint) {found : ℕ × ℕ}
      → parse_endpoint v ≡ ok a
      → ((w : Value) → from_end ≡ some w → parse_endpoint w ≡ ok b)
      → (from_end ≡ none → b ≡ a)
      → resolve_range line_hash (a, b) (lines source) ≡ ok found
      → Found (some v) from_end found.0 found.1
  unfolding resolve_range
  pairs-Found v from_end a b {found} p q same h =
      let ls = lines source in
      let (from, s, h1) = bound (resolve_extract_endpoint line_hash the_start a ls) _ h in
      let (to, t, h2) = bound (resolve_extract_endpoint line_hash the_end b ls) _ h1 in
      elim (Bool-cases (ltb to from)) [
        | inl k ↦ let x : err (backwards from to) ≡ ok found = rw k at h2 in cc
        | inr k ↦
            subst_ok (λ (r : ℕ × ℕ). Found (some v) from_end r.0 r.1) (rw k at h2)
              (
                v,
                refl,
                endpoint-LineOf line_hash the_start v a ls small p s,
                ends from_end q same s t,
              )
      ]
    where
      ends :
          (o : Option Value) {from to : ℕ}
          → ((w : Value) → o ≡ some w → parse_endpoint w ≡ ok b)
          → (o ≡ none → b ≡ a)
          → resolve_extract_endpoint line_hash the_start a (lines source) ≡ ok from
          → resolve_extract_endpoint line_hash the_end b (lines source) ≡ ok to
          → EndOf line_hash (lines source) o from to
      ends none {from} {to} q same s t = endpoint-same line_hash a (lines source) s (
          subst (λ e. resolve_extract_endpoint line_hash the_end e (lines source) ≡ ok to)
            (same refl) t)
      ends (some w) q same s t =
          endpoint-LineOf line_hash the_end w b (lines source) small (q w refl) t

  pub range-Found :
      (from_start from_end : Option Value) (range : Endpoint × Endpoint) {found : ℕ × ℕ}
      → parse_range from_start from_end ≡ ok range
      → resolve_range line_hash range (lines source) ≡ ok found
      → Found from_start from_end found.0 found.1
  unfolding parse_range
  range-Found none from_end range p h = cc
  range-Found (some v) none range {found} p h =
      let (a, q, k) = bound (map_err (bad_endpoint the_start) (parse_endpoint v)) _ p in
      let e : (a, a) ≡ range = cc in
      pairs-Found v none a a (ok_of_map_err _ (parse_endpoint v) q) (λ w x. cc) (λ x. refl)
        (subst (λ r. resolve_range line_hash r (lines source) ≡ ok found) (sym e) h)
  range-Found (some v) (some w) range {found} p h =
      let (a, q, k) = bound (map_err (bad_endpoint the_start) (parse_endpoint v)) _ p in
      let (b, r, l) = bound (map_err (bad_endpoint the_end) (parse_endpoint w)) _ k in
      let e : (a, b) ≡ range = cc in
      let y = ok_of_map_err _ (parse_endpoint w) r in
      pairs-Found v (some w) a b (ok_of_map_err _ (parse_endpoint v) q)
        (λ u x. let z : w ≡ u = cc in subst (λ t. parse_endpoint t ≡ ok b) z y) (λ x. cc)
        (subst (λ t. resolve_range line_hash t (lines source) ≡ ok found) (sym e) h)
