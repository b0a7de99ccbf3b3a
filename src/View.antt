-- ===== src/View.antt =====
-- The line range of a view: `resolve_view_range` of src/mcp/fs/core.rs, over the size and the content
-- of the file.
use octofs.Prelude.{
  Result, ok, err, ◌>>=◌, ℕ, zero, suc, ◌+◌, ◌-◌, Bool, true, false, ◌||◌, Option, none, some, List,
  [], ◌∷◌, ltb, leb, if◌then◌else◌, length, ◌==◌,
}
use octofs.Prelude.Int.{ℤ, pos, negsuc}
use octofs.Text.{Bytes, lines}
use octofs.LineHash.{LineError, resolve_line_index_clamped, i64_max, usize_max}
use octofs.LineHash.Endpoint.{Value, Endpoint, number, id, EndpointError, parse_endpoint}
pub mod Ranges

abbrev pub max_view_file_bytes : ℕ
max_view_file_bytes = 5242880

pub data ViewError : Type 0 where
  too_large : ViewError
  invalid_lines : LineError → ViewError

-- The range, and what the hints say of it.
pub record ViewRange : Type 0 where
  pub start : ℕ
  pub end : ℕ
  pub swapped : Bool
  pub clamped : Bool

-- A parameter that is missing or null is `none`.
unfoldable pub parse_optional_endpoint : Option Value → Result EndpointError (Option Endpoint)
unfolding parse_endpoint
parse_optional_endpoint none = ok none
parse_optional_endpoint (some v) = parse_endpoint v >>= λ ep. ok (some ep)

-- `line as i64` of a 64-bit line
abbrev pub as_i64 : ℕ → ℤ
as_i64 line = if leb line i64_max then pos line else negsuc (usize_max - line)

abbrev pub index_of : Endpoint → ℤ
index_of (number n) = n
index_of (id line hash) = as_i64 line

abbrev pub invalid_or {ℓ} : {A : Type ℓ} → Result LineError A → Result ViewError A
invalid_or (ok a) = ok a
invalid_or (err e) = err (invalid_lines e)

unfoldable pub resolve_endpoint_to_line : Endpoint → ℕ → Bool → Result ViewError (ℕ × Bool)
unfolding resolve_line_index_clamped
resolve_endpoint_to_line ep total_lines clamped =
    invalid_or (resolve_line_index_clamped (index_of ep) total_lines) >>= λ (line, was).
    ok (line, clamped || was)

abbrev pub endpoint_or : Option Endpoint → ℤ → Endpoint
endpoint_or none n = number n
endpoint_or (some ep) n = ep

-- Transposed endpoints name the same range.
abbrev pub ordered : ℕ → ℕ → Bool → ViewRange
ordered start end clamped =
    if ltb end start
    then record { start = end; end = start; swapped = true; clamped = clamped }
    else record { start = start; end = end; swapped = false; clamped = clamped }

unfoldable pub range_of : Endpoint → Endpoint → ℕ → Result ViewError (Option ViewRange)
unfolding resolve_endpoint_to_line
range_of start_ep end_ep total_lines =
    resolve_endpoint_to_line start_ep total_lines false >>= λ (start, clamped).
    resolve_endpoint_to_line end_ep total_lines clamped >>= λ (end, clamped').
    ok (some (ordered start end clamped'))

abbrev pub is_too_large : Option ℕ → Bool
is_too_large none = false
is_too_large (some size) = ltb max_view_file_bytes size

abbrev pub line_count : Option Bytes → ℕ
line_count none = 0
line_count (some content) = length (lines content)

-- Where the size cannot be told it is not checked, and a file that cannot be read has no line.
unfoldable pub resolve_view_range :
    Option Endpoint
    → Option Endpoint
    → Option ℕ
    → Option Bytes
    → Result ViewError (Option ViewRange)
unfolding range_of lines
resolve_view_range none none size content = ok none
resolve_view_range start_ep end_ep size content =
    if is_too_large size
    then err too_large
    else if line_count content == 0
    then ok none
    else range_of (endpoint_or start_ep (pos 1)) (endpoint_or end_ep (negsuc 0))
        (line_count content)
