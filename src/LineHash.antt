-- ===== src/LineHash.antt =====
-- src/utils/line_hash.rs: line identifiers "N:hh", a position with the hash of the line's content.
-- The hash itself is a function of the `octolib` crate, and a parameter here.
use octofs.Prelude.{
  ℕ, zero, suc, ◌+◌, ◌-◌, min, max, Bool, true, false, Option, none, some, List, [], ◌∷◌, ◌==◌, ltb,
  leb, if◌then◌else◌, length, get_or, take, Result, ok, err,
}
use octofs.Prelude.Int.{ℤ, pos, negsuc}
use octofs.Prelude.Sort.{sort_by, by_key}
use octofs.Text.{Bytes, bytes_eq}
pub mod Resolve
pub mod Verify
pub mod Nearest
pub mod Points
pub mod Endpoint

-- the last index of `i64::MIN`, which has no negation, and `usize::MAX`
abbrev pub i64_max : ℕ
i64_max = 9223372036854775807

abbrev pub usize_max : ℕ
usize_max = 18446744073709551615

pub data LineError : Type 0 where
  zero_index : LineError
  beyond_end : ℤ → ℕ → LineError
  before_start : ℤ → ℕ → LineError

-- `index.checked_neg()` as a distance from the end; the index is -(n + 1).
abbrev pub from_end : ℕ → ℕ
from_end n = if n == i64_max then usize_max else n + 1

unfoldable pub resolve_line_index : ℤ → ℕ → Result LineError ℕ
resolve_line_index (pos zero) total_lines = err zero_index
resolve_line_index (pos (suc n)) total_lines =
    if ltb total_lines (suc n) then err (beyond_end (pos (suc n)) total_lines) else ok (suc n)
resolve_line_index (negsuc n) total_lines =
    if ltb total_lines (from_end n)
    then err (before_start (negsuc n) total_lines)
    else ok (total_lines - from_end n + 1)

unfoldable pub resolve_line_index_clamped : ℤ → ℕ → Result LineError (ℕ × Bool)
resolve_line_index_clamped (pos zero) total_lines = err zero_index
resolve_line_index_clamped (pos (suc n)) total_lines =
    if ltb total_lines (suc n) then ok (total_lines, true) else ok (suc n, false)
resolve_line_index_clamped (negsuc n) total_lines =
    if ltb total_lines (from_end n) then ok (1, true) else ok (total_lines - from_end n + 1, false)

abbrev pub abs_diff : ℕ → ℕ → ℕ
abs_diff a b = (a - b) + (b - a)

-- A line id: a 1-indexed line and the hash of its content.
pub record LineId : Type 0 where
  pub line : ℕ
  pub hash : Bytes

-- What the two messages of `verify_line_id` show: the window of lines with fresh ids, and the
-- lines where the expected hash is now.
pub data VerifyError : Type 0 where
  out_of_range : LineId → ℕ → List LineId → VerifyError
  stale : LineId → ℕ → ℕ → List LineId → VerifyError

module _ (line_hash : Bytes → Bytes) where
  -- `lines[line_1idx - 1]` panics out of range; each caller tests the range first.
  abbrev pub line_id_at : List Bytes → ℕ → LineId
  line_id_at lines n = record { line = n; hash = line_hash (get_or lines (n - 1) []) }

  -- The 1-indexed lines with this hash, from line `at` on.
  unfoldable pub matching_lines : Bytes → ℕ → List Bytes → List ℕ
  matching_lines expected_hash at [] = []
  matching_lines expected_hash at (l ∷ ls) =
      let rest = matching_lines expected_hash (at + 1) ls in
      if bytes_eq (line_hash l) expected_hash then at ∷ rest else rest

  abbrev pub ids_at : List Bytes → List ℕ → List LineId
  ids_at lines [] = []
  ids_at lines (n ∷ ns) = line_id_at lines n ∷ ids_at lines ns

  -- `push_relocation`: up to three lines with the hash, the nearest first
  unfoldable pub relocation : Bytes → ℕ → List Bytes → List LineId
  unfolding matching_lines sort_by
  relocation expected_hash expected_line lines = ids_at lines (
      take 3
        (sort_by (by_key (λ n. abs_diff n expected_line)) (matching_lines expected_hash 1 lines)))

  unfoldable pub verify_line_id : ℕ → Bytes → List Bytes → Result VerifyError ℕ
  unfolding relocation bytes_eq
  verify_line_id line expected_hash lines =
      let total = length lines in
      let id : LineId = record { line = line; hash = expected_hash } in
      if line == 0
      then err (out_of_range id total (relocation expected_hash line lines))
      else if ltb total line
      then err (out_of_range id total (relocation expected_hash line lines))
      else if bytes_eq (line_hash (get_or lines (line - 1) [])) expected_hash
      then ok line
      else err
          (stale id (max (line - 2) 1) (min (line + 2) total) (relocation expected_hash line lines))
