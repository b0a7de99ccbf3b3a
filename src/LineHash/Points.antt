-- ===== src/LineHash/Points.antt =====
-- The line to which the id in a value points.
use octofs.Prelude.{ℕ, ◌≡◌, sym, subst, List, ok}
use octofs.Text.{Bytes}
use octofs.LineHash.{verify_line_id}
use octofs.LineHash.Verify.{Holds, verify_line_id_iff}
use octofs.LineHash.Endpoint.{Chars, Value, id, parse_endpoint}

module _ (line_hash : Bytes → Bytes) (ls : List Bytes) where
  -- The value is the id of a line that has its hash.
  abbrev pub Points : Value → ℕ → Type 0
  Points v line =
      (hash : Chars) × (parse_endpoint v ≡ ok (id line hash)) × Holds line_hash ls line hash

  pub verify_line_id-Points :
      (v : Value) (line : ℕ) (hash : Chars) {k : ℕ}
      → parse_endpoint v ≡ ok (id line hash)
      → verify_line_id line_hash line hash ls ≡ ok k
      → Points v k
  verify_line_id-Points v line hash {k} p h =
      let (e, holds) = (verify_line_id_iff line_hash line hash ls k).0 h in
      subst (Points v) (sym e) (hash, p, holds)
