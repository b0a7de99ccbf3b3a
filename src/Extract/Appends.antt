-- ===== src/Extract/Appends.antt =====
-- What the extraction of lines does to the bytes of the target.
use octofs.Prelude.{
  subst_ok, bound, ok, err, ℕ, zero, suc, ◌≤◌, ◌≡◌, sym, ap, ◌∙◌, Bool, ◌||◌, Option, some, inl,
  inr, List, ◌++◌, arith, Bool-cases, ◌==◌, ltb, if◌then◌else◌, length, take, drop,
  take-append-drop, length-map, length-take, length-drop, ◌-◌, ◌+◌,
}
use octofs.Prelude.Int.{ℤ, pos, negsuc}
use octofs.LineHash.Verify.{verify_line_id_iff}
use octofs.Text.{cr, trim_end_matches, split_inclusive, Bytes, lf, is_empty, ends_with, lines}
use octofs.LineHash.{resolve_line_index, verify_line_id, i64_max}
use octofs.LineHash.Endpoint.{Value, Endpoint, number, id}
use octofs.Editable.{classify, EditableContent, from_raw, rendered, rendered_lines, insert_lines}
use octofs.Editable.RoundTrip.{rendered-from_raw}
use octofs.Editable.Insertion.{rendered-insert_lines, rendered_lines-append, text_with}
use octofs.Extract.Ranges.{range-Found}
use octofs.Extract.Places.{
  ok_of_map_err, LineOf, EndOf, Place, Place-within, append-Place, Copied, Copied-take,
}
use octofs.Extract.{
  backwards, insert_failed, Which, the_start, the_end, parse_range, parse_append_line, from_source,
  content_of, resolve_extract_endpoint, resolve_range, append_position, append_lines, extract_lines,
}

resolve_line_index-within :
    (n : ℤ) (total : ℕ) {k : ℕ} → resolve_line_index n total ≡ ok k → (1 ≤ k) × (k ≤ total)
unfolding resolve_line_index
resolve_line_index-within (pos zero) total h = cc
resolve_line_index-within (pos (suc n)) total {k} h = ground arith
resolve_line_index-within (negsuc n) total {k} h = ground arith

module _ (line_hash : Bytes → Bytes) where
  endpoint-within :
      (which : Which) (ep : Endpoint) (ls : List Bytes) {k : ℕ}
      → resolve_extract_endpoint line_hash which ep ls ≡ ok k
      → (1 ≤ k) × (k ≤ length ls)
  unfolding resolve_extract_endpoint
  endpoint-within which (number n) ls h =
      resolve_line_index-within n (length ls) (ok_of_map_err _ (resolve_line_index n (length ls)) h)
  endpoint-within which (id line hash) ls {k} h =
      let v = verify_line_id_iff line_hash line hash ls k in
      let w = v.0 (ok_of_map_err _ (verify_line_id line_hash line hash ls) h) in
      (omega (arith, w.0, w.1.positive), omega (arith, w.0, w.1.within))

  length-from_raw : (s : Bytes) → length (lines s) ≡ length (from_raw s).lines
  unfolding lines from_raw
  length-from_raw s =
      length-map _ (split_inclusive lf s) ∙ sym (length-map classify (split_inclusive lf s))

-- The trailing newline that the target gets.
abbrev pub trailing_of : Bytes → Bytes → ℕ → List Bytes → Bool → Bool
trailing_of source target to inserted at_end =
    if is_empty target || at_end
    then ends_with lf (content_of inserted (to == length (lines source)) (ends_with lf source))
    else ends_with lf target

-- The lines `from` to `to` of the source as one block in the target, all bytes of which stay.
pub record Appended (line_hash : Bytes → Bytes) (from_start from_end append_line : Option Value)
    (source target : Bytes) (edited : EditableContent) : Type 0 where
  pub from : ℕ
  pub to : ℕ
  pub position : ℕ
  pub at_end : Bool
  pub inserted : List Bytes
  pub start : Value
  pub append : Value
  pub given_start : from_start ≡ some start
  pub given_append : append_line ≡ some append
  pub first_line : LineOf line_hash (lines source) start from
  pub last_line : EndOf line_hash (lines source) from_end from to
  pub in_source : (1 ≤ from) × (from ≤ to) × (to ≤ length (lines source))
  pub place : Place line_hash (lines target) append position at_end
  pub count : from + length inserted ≡ to + 1
  pub copied : Copied (lines source) (from - 1) inserted
  pub text :
      rendered edited
      ≡ text_with (from_raw target) position inserted (trailing_of source target to inserted at_end)
  pub kept :
      target
      ≡ rendered_lines (take position (from_raw target).lines)
        ++ rendered_lines (drop position (from_raw target).lines)

kept_text :
    (position : ℕ) (target : Bytes)
    → target
      ≡ rendered_lines (take position (from_raw target).lines)
        ++ rendered_lines (drop position (from_raw target).lines)
unfolding rendered
kept_text position target =
    sym (rendered-from_raw target)
    ∙ ap rendered_lines (sym (take-append-drop position (from_raw target).lines))
    ∙ rendered_lines-append (take position (from_raw target).lines)
        (drop position (from_raw target).lines)

module _ (line_hash : Bytes → Bytes) where
  range-within :
      (range : Endpoint × Endpoint) (ls : List Bytes) {r : ℕ × ℕ}
      → resolve_range line_hash range ls ≡ ok r
      → (1 ≤ r.0) × (r.0 ≤ r.1) × (r.1 ≤ length ls)
  unfolding resolve_range
  range-within (start, end) ls {r} h =
      let (from, p, h1) = bound (resolve_extract_endpoint line_hash the_start start ls) _ h in
      let (to, q, h2) = bound (resolve_extract_endpoint line_hash the_end end ls) _ h1 in
      let w = endpoint-within line_hash the_start start ls p in
      let v = endpoint-within line_hash the_end end ls q in
      elim (Bool-cases (ltb to from)) [
        | inl k ↦ let x : err (backwards from to) ≡ ok r = rw k at h2 in cc
        | inr k ↦
            subst_ok (λ (a : ℕ × ℕ). (1 ≤ a.0) × (a.0 ≤ a.1) × (a.1 ≤ length ls)) (rw k at h2)
              (w.0, ground arith, v.1)
      ]

  inserted_as :
      (source target : Bytes) (range : ℕ × ℕ) (at : ℕ × Bool) {edited : EditableContent}
      → at.0 ≤ length (lines target)
      → append_lines line_hash source target range at ≡ ok edited
      → rendered edited
        ≡ text_with
            (from_raw target)
            at.0
            (from_source source range.0 range.1)
            (trailing_of source target range.1 (from_source source range.0 range.1) at.1)
  unfolding append_lines
  inserted_as source target (from, to) (position, at_end) w h =
      let ls = from_source source from to in
      let c = from_raw target in
      let t = trailing_of source target to ls at_end in
      let (edited, e, r) =
        rendered-insert_lines c position ls t (omega (arith, length-from_raw line_hash target)) in
      let k = ok_of_map_err insert_failed (insert_lines c position ls t) h in
      subst_ok (λ (x : EditableContent). rendered x ≡ text_with c position ls t) (sym e ∙ k) r

count_of :
    (from to : ℕ) (source : Bytes)
    → 1 ≤ from
    → from ≤ to
    → to ≤ length (lines source)
    → from + length (from_source source from to) ≡ to + 1
count_of from to source p q r =
    let taken = take (to - (from - 1)) (drop (from - 1) (lines source)) in
    omega (
      arith,
      length-map (trim_end_matches cr) taken,
      length-take (to - (from - 1)) (drop (from - 1) (lines source)),
      length-drop (from - 1) (lines source),
    )

-- When an extraction from a source of less than 2^63 lines answers, the start and the end of its range
-- are the lines that its parameters name, by number, from the end or by an id whose hash the line has,
-- and exactly these lines, without carriage returns at their ends, stand in the target as one block:
-- at its start for 0, at its end for -1, or behind the line of an id. Every byte of the target stays.
pub extract_lines-Appended :
    (line_hash : Bytes → Bytes) (from_start from_end append_line : Option Value)
    (source target : Bytes) {edited : EditableContent}
    → length (lines source) ≤ i64_max
    → extract_lines line_hash from_start from_end append_line source target ≡ ok edited
    → Appended line_hash from_start from_end append_line source target edited
unfolding extract_lines parse_append_line
extract_lines-Appended line_hash from_start from_end append_line source target small h =
    let (range, p, h1) = bound (parse_range from_start from_end) _ h in
    let (append, q, h2) = bound (parse_append_line append_line) _ h1 in
    let (found, f, h3) = bound (resolve_range line_hash range (lines source)) _ h2 in
    let (at, g, h4) = bound (append_position line_hash append target) _ h3 in
    let (start, given, first, last) =
      range-Found line_hash source small from_start from_end range p f in
    let (place, given_place, placed) = append-Place line_hash append_line append target q g in
    let w = Place-within line_hash (lines target) place at.0 at.1 placed in
    let i = range-within line_hash range (lines source) f in
    record {
      from = found.0;
      to = found.1;
      position = at.0;
      at_end = at.1;
      inserted = from_source source found.0 found.1;
      start = start;
      append = place;
      given_start = given;
      given_append = given_place;
      first_line = first;
      last_line = last;
      in_source = i;
      place = placed;
      count = count_of found.0 found.1 source i.0 i.1 i.2;
      copied = Copied-take _ (found.0 - 1) (lines source);
      text = inserted_as line_hash source target found at w h4;
      kept = kept_text at.0 target;
    }
