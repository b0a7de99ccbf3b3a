-- ===== src/LineHash/Resolve.antt =====
-- What the two resolutions of a possibly negative line index promise.
use octofs.Prelude.{
  refl, ℕ, zero, suc, ◌+◌, ◌≤◌, ◌<◌, ◌≡◌, ◌↔◌, Bool, true, false, arith, Result, ok, err,
}
use octofs.Prelude.Int.{ℤ, pos, negsuc}
use octofs.LineHash.{
  LineError, zero_index, beyond_end, before_start, i64_max, resolve_line_index,
  resolve_line_index_clamped,
}

-- The 1-indexed line that an index names: counted from the end if it is negative.
abbrev pub Names : ℤ → ℕ → ℕ → Type 0
Names (pos n) total k = n ≡ k
Names (negsuc n) total k = k + n ≡ total

-- In a file of less than 2^63 lines, an index resolves to a line exactly if it names that line and
-- the file has it.
pub resolve_line_index_iff :
    (index : ℤ) (total k : ℕ)
    → total ≤ i64_max
    → (resolve_line_index index total ≡ ok k) ↔ ((1 ≤ k) × (k ≤ total) × Names index total k)
unfolding resolve_line_index
resolve_line_index_iff (pos zero) total k h = ground arith
resolve_line_index_iff (pos (suc n)) total k h = ground arith
resolve_line_index_iff (negsuc n) total k h = ground arith

-- What clamping makes of the strict resolution.
abbrev pub clamp : ℕ → Result LineError ℕ → Result LineError (ℕ × Bool)
clamp total (ok k) = ok (k, false)
clamp total (err zero_index) = err zero_index
clamp total (err (beyond_end i n)) = ok (total, true)
clamp total (err (before_start i n)) = ok (1, true)

-- The clamped resolution is the strict one, with the last line for an index past the end, the first
-- for one before the start, and the flag raised exactly there; index 0 stays an error.
pub resolve_line_index_clamped-clamp :
    (index : ℤ) (total : ℕ)
    → resolve_line_index_clamped index total ≡ clamp total (resolve_line_index index total)
unfolding resolve_line_index resolve_line_index_clamped
resolve_line_index_clamped-clamp (pos zero) total = refl
resolve_line_index_clamped-clamp (pos (suc n)) total = ground arith
resolve_line_index_clamped-clamp (negsuc n) total = ground arith

-- In a file that has a line, the clamped resolution gives a line of the file.
pub resolve_line_index_clamped-bounds :
    (index : ℤ) (total k : ℕ) (flag : Bool)
    → 0 < total
    → resolve_line_index_clamped index total ≡ ok (k, flag)
    → (1 ≤ k) × (k ≤ total)
unfolding resolve_line_index_clamped
resolve_line_index_clamped-bounds (pos zero) total k flag h e = ground arith
resolve_line_index_clamped-bounds (pos (suc n)) total k flag h e = ground arith
resolve_line_index_clamped-bounds (negsuc n) total k flag h e = ground arith
