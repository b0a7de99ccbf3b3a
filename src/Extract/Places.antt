-- ===== src/Extract/Places.antt =====
-- What the parameters of an extraction name: the lines of the source, and the place in the target.
use octofs.Prelude.{
  Result, subst_ok, bound, ok, err, ℕ, zero, suc, ◌≤◌, ◌≡◌, refl, sym, ap, subst, Bool, true, false,
  ◌⊎◌, Option, none, some, inl, inr, List, [], ◌∷◌, map, arith, Bool-cases, length, get_or, take,
  drop,
}
use octofs.Prelude.Int.{ℤ, pos, negsuc}
use octofs.Text.{Bytes, cr, is_empty, lines, trim_end_matches}
use octofs.LineHash.{i64_max, resolve_line_index, verify_line_id}
use octofs.LineHash.Resolve.{Names, resolve_line_index_iff}
use octofs.LineHash.Points.{Points, verify_line_id-Points}
use octofs.LineHash.Endpoint.{Value, Endpoint, number, id, parse_endpoint}
use octofs.Extract.{
  Which, the_start, the_end, map_err, bad_append_endpoint, bad_append_id, no_target_lines,
  check_append, parse_append_line, resolve_extract_endpoint, append_position,
}

pub ok_of_map_err {ℓ κ μ} :
    {E : Type ℓ} {F : Type κ} {A : Type μ} (f : E → F) (r : Result E A) {a : A}
    → map_err f r ≡ ok a
    → r ≡ ok a
ok_of_map_err f (ok b) h = let e : b ≡ _ = cc in ap ok e
ok_of_map_err f (err e) h = cc

module _ (line_hash : Bytes → Bytes) where
  -- The value names this line: by its number, from the end if it is negative, or by its id.
  abbrev pub LineOf : List Bytes → Value → ℕ → Type 0
  LineOf ls v n =
      ((i : ℤ) × (parse_endpoint v ≡ ok (number i)) × Names i (length ls) n)
      ⊎ Points line_hash ls v n

  -- The end of the range is the start where it is not given.
  abbrev pub EndOf : List Bytes → Option Value → ℕ → ℕ → Type 0
  EndOf ls none from to = to ≡ from
  EndOf ls (some w) from to = LineOf ls w to

  -- The place is the start for 0, the end for -1, or behind the line of an id.
  abbrev pub Place : List Bytes → Value → ℕ → Bool → Type 0
  Place ls v position at_end =
      ((parse_endpoint v ≡ ok (number (pos 0))) × (position ≡ 0) × (at_end ≡ false))
      ⊎ (((parse_endpoint v ≡ ok (number (negsuc 0))) × (position ≡ length ls) × (at_end ≡ true))
          ⊎ (Points line_hash ls v position × (at_end ≡ false)))

  pub Place-within :
      (ls : List Bytes) (v : Value) (position : ℕ) (at_end : Bool)
      → Place ls v position at_end
      → position ≤ length ls
  Place-within ls v position at_end (inl (p, e, f)) = omega (arith, e)
  Place-within ls v position at_end (inr (inl (p, e, f))) = omega (arith, e)
  Place-within ls v position at_end (inr (inr ((hash, p, h), f))) = h.within

  pub endpoint-LineOf :
      (which : Which) (v : Value) (ep : Endpoint) (ls : List Bytes) {k : ℕ}
      → length ls ≤ i64_max
      → parse_endpoint v ≡ ok ep
      → resolve_extract_endpoint line_hash which ep ls ≡ ok k
      → LineOf ls v k
  unfolding resolve_extract_endpoint
  endpoint-LineOf which v (number n) ls {k} l p h =
      let r = ok_of_map_err _ (resolve_line_index n (length ls)) h in
      inl (n, p, ((resolve_line_index_iff n (length ls) k l).0 r).2)
  endpoint-LineOf which v (id line hash) ls {k} l p h = inr (
      verify_line_id-Points line_hash ls v line hash p
        (ok_of_map_err _ (verify_line_id line_hash line hash ls) h))

  pub endpoint-same :
      (ep : Endpoint) (ls : List Bytes) {a b : ℕ}
      → resolve_extract_endpoint line_hash the_start ep ls ≡ ok a
      → resolve_extract_endpoint line_hash the_end ep ls ≡ ok b
      → b ≡ a
  unfolding resolve_extract_endpoint
  endpoint-same (number n) ls h k =
      let r = ok_of_map_err _ (resolve_line_index n (length ls)) h in
      let s = ok_of_map_err _ (resolve_line_index n (length ls)) k in cc
  endpoint-same (id line hash) ls h k =
      let r = ok_of_map_err _ (verify_line_id line_hash line hash ls) h in
      let s = ok_of_map_err _ (verify_line_id line_hash line hash ls) k in cc

  append_position-Place :
      (v : Value) (ep append : Endpoint) (target : Bytes) {at : ℕ × Bool}
      → parse_endpoint v ≡ ok ep
      → check_append ep ≡ ok append
      → append_position line_hash append target ≡ ok at
      → Place (lines target) v at.0 at.1
  unfolding append_position
  append_position-Place v (id line hash) append target {at} p c h =
      let q : id line hash ≡ append = cc in
      let g = subst (λ a. append_position line_hash a target ≡ ok at) (sym q) h in
      elim (Bool-cases (is_empty target)) [
        | inl e ↦ let x : err no_target_lines ≡ ok at = rw e at g in cc
        | inr e ↦
            let (n, w, x) =
              bound (map_err bad_append_id (verify_line_id line_hash line hash (lines target)))
                (λ n. ok (n, false)) (rw e at g) in
            subst_ok (λ (a : ℕ × Bool). Place (lines target) v a.0 a.1) x
              (inr (
                inr (
                  verify_line_id-Points line_hash (lines target) v line hash p
                      (ok_of_map_err _ (verify_line_id line_hash line hash (lines target)) w),
                  refl,
                )))
      ]
  append_position-Place v (number (pos zero)) append target {at} p c h =
      let q : number (pos zero) ≡ append = cc in
      let k = subst (λ a. append_position line_hash a target ≡ ok at) (sym q) h in
      subst_ok (λ (a : ℕ × Bool). Place (lines target) v a.0 a.1) k (inl (p, refl, refl))
  append_position-Place v (number (pos (suc n))) append target p c h = cc
  append_position-Place v (number (negsuc zero)) append target {at} p c h =
      let q : number (negsuc zero) ≡ append = cc in
      let k = subst (λ a. append_position line_hash a target ≡ ok at) (sym q) h in
      subst_ok (λ (a : ℕ × Bool). Place (lines target) v a.0 a.1) k (inr (inl (p, refl, refl)))
  append_position-Place v (number (negsuc (suc n))) append target p c h = cc

  -- The parameter is given and names the place.
  pub append-Place :
      (append_line : Option Value) (append : Endpoint) (target : Bytes) {at : ℕ × Bool}
      → parse_append_line append_line ≡ ok append
      → append_position line_hash append target ≡ ok at
      → (v : Value) × (append_line ≡ some v) × Place (lines target) v at.0 at.1
  unfolding parse_append_line
  append-Place none append target c h = cc
  append-Place (some v) append target c h =
      let (ep, p, k) = bound (map_err bad_append_endpoint (parse_endpoint v)) check_append c in
      (
        v,
        refl,
        append_position-Place v ep append target
            (ok_of_map_err bad_append_endpoint (parse_endpoint v) p) k h,
      )

-- The lines are those of the list from this position on, without carriage returns at their ends.
abbrev pub Copied : List Bytes → ℕ → List Bytes → Type 0
Copied ls at [] = Unit
Copied ls at (x ∷ xs) = (x ≡ trim_end_matches cr (get_or ls at [])) × Copied ls (suc at) xs

drop-cons :
    (at : ℕ) (ls : List Bytes) {x : Bytes} {xs : List Bytes}
    → drop at ls ≡ x ∷ xs
    → (x ≡ get_or ls at []) × (xs ≡ drop (suc at) ls)
drop-cons zero [] h = cc
drop-cons zero (l ∷ ls) h = (cc, cc)
drop-cons (suc at) [] h = cc
drop-cons (suc at) (l ∷ ls) h = drop-cons at ls h

pub Copied-take :
    (n at : ℕ) (ls : List Bytes) → Copied ls at (map (trim_end_matches cr) (take n (drop at ls)))
Copied-take zero at ls = tt
Copied-take (suc n) at ls = go (drop at ls) refl (Copied-take n (suc at) ls)
  where
    go :
        (d : List Bytes)
        → drop at ls ≡ d
        → Copied ls (suc at) (map (trim_end_matches cr) (take n (drop (suc at) ls)))
        → Copied ls at (map (trim_end_matches cr) (take (suc n) d))
    go [] e c = tt
    go (x ∷ xs) e c =
        let (h, t) = drop-cons at ls e in
        (
          ap (trim_end_matches cr) h,
          subst (λ r. Copied ls (suc at) (map (trim_end_matches cr) (take n r))) (sym t) c,
        )
