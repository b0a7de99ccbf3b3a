-- ===== src/View/Ranges.antt =====
-- A view shows lines of the file.
use octofs.Prelude.{
  ok, ℕ, zero, suc, ◌+◌, ◌-◌, ◌≤◌, ◌<◌, ◌≡◌, refl, Bool, true, false, ◌||◌, ◌⊎◌, inl, inr, Option,
  none, some, Bool-cases, arith, ltb, ◌==◌, if◌then◌else◌,
}
use octofs.Prelude.Int.{ℤ, pos, negsuc}
use octofs.Text.{Bytes}
use octofs.LineHash.{resolve_line_index_clamped, from_end}
use octofs.LineHash.Resolve.{resolve_line_index_clamped-bounds}
use octofs.LineHash.Endpoint.{Endpoint}
use octofs.View.{
  ViewRange, index_of, resolve_endpoint_to_line, endpoint_or, ordered, range_of, is_too_large,
  line_count, resolve_view_range,
}

abbrev pub is_zero : ℤ → Bool
is_zero (pos zero) = true
is_zero (pos (suc n)) = false
is_zero (negsuc n) = false

-- The range lies in a file of so many lines.
pub record InFile (total : ℕ) (r : ViewRange) : Type 0 where
  pub first : 1 ≤ r.start
  pub forward : r.start ≤ r.end
  pub last : r.end ≤ total

clamped_ok :
    (index : ℤ) (total : ℕ)
    → is_zero index ≡ false
    → (k : ℕ × Bool) × (resolve_line_index_clamped index total ≡ ok k)
unfolding resolve_line_index_clamped
clamped_ok (pos zero) total h = cc
clamped_ok (pos (suc n)) total h = elim (Bool-cases (ltb total (suc n))) [
  | inl e ↦ ((total, true), rw e refl)
  | inr e ↦ ((suc n, false), rw e refl)
]
clamped_ok (negsuc n) total h = elim (Bool-cases (ltb total (from_end n))) [
  | inl e ↦ ((1, true), rw e refl)
  | inr e ↦ ((total - from_end n + 1, false), rw e refl)
]

line_of :
    (ep : Endpoint) (total : ℕ) (clamped : Bool)
    → 0 < total
    → is_zero (index_of ep) ≡ false
    → (k : ℕ × Bool) × (resolve_endpoint_to_line ep total clamped ≡ ok k)
      × (1 ≤ k.0)
      × (k.0 ≤ total)
unfolding resolve_endpoint_to_line
line_of ep total clamped p h =
    let ((k, was), e) = clamped_ok (index_of ep) total h in
    let b = resolve_line_index_clamped-bounds (index_of ep) total k was p e in
    ((k, clamped || was), rw e refl, b.0, b.1)

ordered-InFile :
    (total start end : ℕ) (clamped : Bool)
    → (1 ≤ start) × (start ≤ total)
    → (1 ≤ end) × (end ≤ total)
    → InFile total (ordered start end clamped)
ordered-InFile total start end clamped s e = elim (Bool-cases (ltb end start)) [
  | inl h ↦ rw h (record { first = e.0; forward = ground arith; last = s.1 })
  | inr h ↦ rw h (record { first = s.0; forward = ground arith; last = e.1 })
]

range_of-InFile :
    (start_ep end_ep : Endpoint) (total : ℕ)
    → 0 < total
    → is_zero (index_of start_ep) ≡ false
    → is_zero (index_of end_ep) ≡ false
    → (r : ViewRange) × (range_of start_ep end_ep total ≡ ok (some r)) × InFile total r
unfolding range_of
range_of-InFile start_ep end_ep total p s e =
    let (a, f, l1, l2) = line_of start_ep total false p s in
    let (b, g, m1, m2) = line_of end_ep total a.1 p e in
    (ordered a.0 b.0 b.1, rw (f, g) refl, ordered-InFile total a.0 b.0 b.1 (l1, l2) (m1, m2))

answers :
    (start_ep end_ep : Endpoint) (total : ℕ)
    → is_zero (index_of start_ep) ≡ false
    → is_zero (index_of end_ep) ≡ false
    → ((if total == 0 then ok none else range_of start_ep end_ep total) ≡ ok none)
      ⊎ ((r : ViewRange) × ((if total == 0 then ok none else range_of start_ep end_ep total)
            ≡ ok (some r))
          × InFile total r)
answers start_ep end_ep total s e = elim (Bool-cases (total == 0)) [
  | inl h ↦ inl (rw h refl)
  | inr h ↦
      let (r, f, i) = range_of-InFile start_ep end_ep total (ground arith) s e in inr (r, rw h f, i)
]

-- A view whose endpoints are not the line 0, of a file that is not too large, never fails: it shows
-- the whole file, or a range of lines that the file has, however far the endpoints lie outside and
-- whichever comes first.
pub resolve_view_range-InFile :
    (start_ep end_ep : Option Endpoint) (size : Option ℕ) (content : Option Bytes)
    → is_too_large size ≡ false
    → is_zero (index_of (endpoint_or start_ep (pos 1))) ≡ false
    → is_zero (index_of (endpoint_or end_ep (negsuc 0))) ≡ false
    → (resolve_view_range start_ep end_ep size content ≡ ok none)
      ⊎ ((r : ViewRange) × (resolve_view_range start_ep end_ep size content ≡ ok (some r))
          × InFile (line_count content) r)
unfolding resolve_view_range
resolve_view_range-InFile none none size content t s e = inl refl
resolve_view_range-InFile (some start_ep) end_ep size content t s e =
    rw t (answers start_ep (endpoint_or end_ep (negsuc 0)) (line_count content) s e)
resolve_view_range-InFile none (some end_ep) size content t s e =
    rw t (answers (endpoint_or none (pos 1)) end_ep (line_count content) s e)
