-- ===== src/Tests/Ids.antt =====
-- Line ids over a toy hash.
use octofs.Prelude.{ℕ, ◌≡◌, refl, true, List, [], ◌∷◌, arith, ok, err, ◌↔◌, ◌⊎◌, ◌≤◌, All}
use octofs.Prelude.Int.{pos, negsuc}
use octofs.Prelude.Sort.{IsAscending}
use octofs.Text.{Bytes}
use octofs.LineHash.{
  verify_line_id, resolve_line_index, resolve_line_index_clamped, VerifyError, abs_diff, stale,
}
use octofs.LineHash.Resolve.{
  Names, resolve_line_index_iff, clamp, resolve_line_index_clamped-clamp,
  resolve_line_index_clamped-bounds,
}
use octofs.LineHash.Verify.{
  Holds, verify_line_id_iff, verify_line_id-offered, Verifies, offered, offered_lines, Covered,
}
use octofs.LineHash.Endpoint.{string, id, parse_endpoint}
use octofs.LineHash.Endpoint.Parses.{id_text, parse_endpoint-id_text, parse_endpoint-id_valid, IsId}

-- the first byte of the line, twice
abbrev pub toy_hash : Bytes → Bytes
toy_hash [] = b'0' ∷ b'0' ∷ []
toy_hash (c ∷ cs) = c ∷ c ∷ []

abbrev pub file : List Bytes
file = (b'a' ∷ []) ∷ (b'b' ∷ []) ∷ (b'a' ∷ b'c' ∷ []) ∷ []

resolve_line_index_iff_example :
    (resolve_line_index (negsuc 0) 3 ≡ ok 3) ↔ ((1 ≤ 3) × (3 ≤ 3) × Names (negsuc 0) 3 3)
resolve_line_index_iff_example = resolve_line_index_iff (negsuc 0) 3 3 (omega arith)

resolve_line_index_clamped-clamp_example :
    resolve_line_index_clamped (negsuc 7) 3 ≡ clamp 3 (resolve_line_index (negsuc 7) 3)
resolve_line_index_clamped-clamp_example = resolve_line_index_clamped-clamp (negsuc 7) 3

verify_line_id_iff_example :
    (verify_line_id toy_hash 2 (b'b' ∷ b'b' ∷ []) file ≡ ok 2)
    ↔ (◌≡◌ {A = ℕ} 2 2 × Holds toy_hash file 2 (b'b' ∷ b'b' ∷ []))
verify_line_id_iff_example = verify_line_id_iff toy_hash 2 (b'b' ∷ b'b' ∷ []) file 2

abbrev moved : VerifyError
moved =
    stale (record { line = 2; hash = b'a' ∷ b'a' ∷ [] }) 1 3
      ((record { line = 1; hash = b'a' ∷ b'a' ∷ [] })
        ∷ (record { line = 3; hash = b'a' ∷ b'a' ∷ [] })
        ∷ [])

verify_moved : verify_line_id toy_hash 2 (b'a' ∷ b'a' ∷ []) file ≡ err moved
unfolding verify_line_id
verify_moved = refl

verify_line_id-offered_example :
    All (Verifies toy_hash (b'a' ∷ b'a' ∷ []) file) (offered toy_hash moved)
    × IsAscending (λ i. abs_diff i.line 2) (offered toy_hash moved)
    × ((¬ Holds toy_hash file 3 (b'a' ∷ b'a' ∷ []))
        ⊎ Covered toy_hash 2 (offered_lines toy_hash moved) 3)
verify_line_id-offered_example =
    verify_line_id-offered toy_hash 2 (b'a' ∷ b'a' ∷ []) file 3 verify_moved

parse_endpoint-id_text_example :
    parse_endpoint (string (id_text 12 b'a' b'3')) ≡ ok (id 12 (b'a' ∷ b'3' ∷ []))
parse_endpoint-id_text_example =
    parse_endpoint-id_text 12 b'a' b'3' refl refl (omega arith) (omega arith)

resolve_line_index_clamped-bounds_example : (1 ≤ 3) × (3 ≤ 3)
unfolding resolve_line_index_clamped
resolve_line_index_clamped-bounds_example =
    resolve_line_index_clamped-bounds (pos 9) 3 3 true (omega arith) refl

parse_endpoint-id_valid_example :
    (i : IsId 12 (b'a' ∷ b'3' ∷ [])) × (parse_endpoint (string (id_text 12 i.first i.second))
      ≡ ok (id 12 (b'a' ∷ b'3' ∷ [])))
parse_endpoint-id_valid_example =
    parse_endpoint-id_valid (string (id_text 12 b'a' b'3')) 12 (b'a' ∷ b'3' ∷ [])
      (parse_endpoint-id_text 12 b'a' b'3' refl refl (omega arith) (omega arith))
