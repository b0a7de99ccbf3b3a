-- ===== src/LineHash/Endpoint/Parses.antt =====
-- What `parse_endpoint` accepts: a rendered line id is read back, and every id it gives is one.
use octofs.Prelude.{
  ◌&&◌, ◌*◌, none, ℕ, ◌+◌, ◌-◌, ◌≤◌, ◌≡◌, refl, sym, ap, ◌∙◌, subst, Bool, true, false, ◌||◌,
  Option, some, [], ◌∷◌, ◌++◌, map, arith, leb, ◌==◌, Bool-cases, inl, inr, Result, ok,
}
use octofs.LineHash.{ℤ, usize_max}
use octofs.LineHash.Endpoint.{
  number_or, EndpointError, parse_parts, id_of, number, keep_last, Chars, Value, string, Endpoint,
  id, is_whitespace, trim_start, trim_end, trim, is_digit, parse_digits, parse_i64, parse_usize,
  is_ascii_hexdigit, utf8_width, byte_len, all_hexdigits, at_most, parse_magnitude, split_once,
  to_ascii_lowercase, is_hash, parse_text, parse_endpoint,
}
use octofs.LineHash.Endpoint.Decimals.{
  decimal, parse_digits-decimal, AreDigits, AreDigits-decimal, decimal-cons,
}

-- a lower-case hexadecimal digit, as `octolib` writes hashes
abbrev pub is_lower_hex : ℕ → Bool
is_lower_hex c = is_digit c || (leb b'a' c && leb c b'f')

-- The text "N:hh".
abbrev pub id_text : ℕ → ℕ → ℕ → Chars
id_text line h1 h2 = decimal line ++ b':' ∷ h1 ∷ h2 ∷ []

parse_digits-colon : (acc : ℕ) (s t : Chars) → AreDigits s → parse_digits acc (s ++ b':' ∷ t) ≡ none
unfolding parse_digits
parse_digits-colon acc [] t h = refl
parse_digits-colon acc (c ∷ s) t h =
    rw (h.0, parse_digits) (parse_digits-colon (acc * 10 + (c - b'0')) s t h.1)

split_once-colon : (s t : Chars) → AreDigits s → split_once b':' (s ++ b':' ∷ t) ≡ some (s, t)
unfolding split_once
split_once-colon [] t h = refl
split_once-colon (c ∷ s) t h = ground (arith, split_once-colon s t h.1)

hex-whitespace : (c : ℕ) → is_lower_hex c ≡ true → is_whitespace c ≡ false
unfolding is_whitespace
hex-whitespace c h = ground arith

trim_end-keeps :
    (s : Chars) (c : ℕ) (t : Chars) → trim_end (c ∷ t) ≡ c ∷ t → trim_end (s ++ c ∷ t) ≡ s ++ c ∷ t
unfolding trim_end
trim_end-keeps [] c t h = h
trim_end-keeps (x ∷ []) c t h = ap (keep_last x) h
trim_end-keeps (x ∷ y ∷ s) c t h = ap (keep_last x) (trim_end-keeps (y ∷ s) c t h)

parse_text-parts :
    (s : Chars) {num hash : Chars}
    → parse_i64 s ≡ none
    → split_once b':' s ≡ some (num, hash)
    → parse_text s ≡ id_of (parse_usize num) (map to_ascii_lowercase hash)
unfolding parse_text split_once
parse_text-parts [] e f = ground arith
parse_text-parts (c ∷ cs) e f = rw (e, f, parse_text)

digit-whitespace : (c : ℕ) → is_digit c ≡ true → is_whitespace c ≡ false
unfolding is_whitespace
digit-whitespace c h = ground arith

module _ (line h1 h2 : ℕ) (k1 : is_lower_hex h1 ≡ true) (k2 : is_lower_hex h2 ≡ true) where
  parse_i64-id_text : parse_i64 (id_text line h1 h2) ≡ none
  unfolding parse_i64
  parse_i64-id_text =
      let (c, cs, e, d) = decimal-cons line in
      let p =
        parse_digits-colon 0 (c ∷ cs) (h1 ∷ h2 ∷ []) (subst AreDigits e (AreDigits-decimal line)) in
      rw e (ground arith)

  parse_usize-decimal : line ≤ usize_max → parse_usize (decimal line) ≡ some line
  unfolding parse_usize
  parse_usize-decimal h =
      let (c, cs, e, d) = decimal-cons line in
      let p = ap (parse_digits 0) (sym e) ∙ parse_digits-decimal line in rw e (ground arith)

  hash_end : trim_end (b':' ∷ h1 ∷ h2 ∷ []) ≡ b':' ∷ h1 ∷ h2 ∷ []
  unfolding trim_end
  hash_end = rw (hex-whitespace h2 k2)

  trim-id_text : trim (id_text line h1 h2) ≡ id_text line h1 h2
  unfolding trim_start trim_end
  trim-id_text =
      let (c, cs, e, d) = decimal-cons line in
      let w : is_whitespace c ≡ false = digit-whitespace c d in
      rw (e, w) (trim_end-keeps (c ∷ cs) b':' (h1 ∷ h2 ∷ []) hash_end)

  is_hash-lower : is_hash (map to_ascii_lowercase (h1 ∷ h2 ∷ [])) ≡ true
  is_hash-lower = ground arith

  lowercase-lower : map to_ascii_lowercase (h1 ∷ h2 ∷ []) ≡ h1 ∷ h2 ∷ []
  lowercase-lower = ground arith

  -- A line id as the views show it, with a hash of two lower-case hexadecimal digits, parses to its
  -- line and its hash.
  pub parse_endpoint-id_text :
      1 ≤ line
      → line ≤ usize_max
      → parse_endpoint (string (id_text line h1 h2)) ≡ ok (id line (h1 ∷ h2 ∷ []))
  unfolding parse_endpoint
  parse_endpoint-id_text p h = rw trim-id_text (
      parse_text-parts (id_text line h1 h2) parse_i64-id_text
        (split_once-colon (decimal line) (h1 ∷ h2 ∷ []) (AreDigits-decimal line))
      ∙ rw (parse_usize-decimal h) (ground (arith, is_hash-lower, lowercase-lower)))

-- A line id in its written form: the line is a positive `usize`, and the hash two lower-case hexadecimal
-- digits.
pub record IsId (line : ℕ) (hash : Chars) : Type 0 where
  pub positive : 1 ≤ line
  pub fits : line ≤ usize_max
  pub first : ℕ
  pub second : ℕ
  pub digits : hash ≡ first ∷ second ∷ []
  pub first_digit : is_lower_hex first ≡ true
  pub second_digit : is_lower_hex second ≡ true

lower-hex :
    (c : ℕ)
    → is_ascii_hexdigit (to_ascii_lowercase c) ≡ true
    → is_lower_hex (to_ascii_lowercase c) ≡ true
lower-hex c h = ground arith

width-pos : (c : ℕ) → 1 ≤ utf8_width c
width-pos c = ground arith

hash-IsId :
    (line : ℕ) (hash : Chars)
    → 1 ≤ line
    → line ≤ usize_max
    → is_hash (map to_ascii_lowercase hash) ≡ true
    → IsId line (map to_ascii_lowercase hash)
hash-IsId line [] p l h = cc
hash-IsId line (a ∷ []) p l h = absurd (ground arith)
hash-IsId line (a ∷ b ∷ []) p l h = record {
  positive = p;
  fits = l;
  first = to_ascii_lowercase a;
  second = to_ascii_lowercase b;
  digits = refl;
  first_digit = lower-hex a (ground arith);
  second_digit = lower-hex b (ground arith);
}
hash-IsId line (a ∷ b ∷ c ∷ hash) p l h =
    let wa = width-pos (to_ascii_lowercase a) in
    let wb = width-pos (to_ascii_lowercase b) in
    let wc = width-pos (to_ascii_lowercase c) in
    let e : byte_len (map to_ascii_lowercase (a ∷ b ∷ c ∷ hash)) ≡ 2 =
      eq_of_and (byte_len (map to_ascii_lowercase (a ∷ b ∷ c ∷ hash)))
        (all_hexdigits (map to_ascii_lowercase (a ∷ b ∷ c ∷ hash))) h in
    absurd (omega (arith, e, wa, wb, wc))
  where
    eq_of_and : (n : ℕ) (b : Bool) → (n == 2 && b) ≡ true → n ≡ 2
    eq_of_and n b k = ground arith

parse_usize-within : (s : Chars) {n : ℕ} → parse_usize s ≡ some n → n ≤ usize_max
unfolding parse_usize
parse_usize-within [] h = cc
parse_usize-within (c ∷ s) {n} h = elim (Bool-cases (c == b'+')) [
  | inl e ↦ let q : parse_magnitude usize_max s ≡ some n = rw e at h in magnitude-within s q
  | inr e ↦
      let q : parse_magnitude usize_max (c ∷ s) ≡ some n = rw e at h in magnitude-within (c ∷ s) q
]
  where
    at_most-within : (o : Option ℕ) {k : ℕ} → at_most usize_max o ≡ some k → k ≤ usize_max
    at_most-within none h = cc
    at_most-within (some x) h = ground arith

    magnitude-within : (t : Chars) {k : ℕ} → parse_magnitude usize_max t ≡ some k → k ≤ usize_max
    magnitude-within [] h = cc
    magnitude-within (d ∷ t) h = at_most-within (parse_digits 0 (d ∷ t)) h

id_of-IsId :
    (num : Option ℕ) (hash' : Chars) (line : ℕ) (hash : Chars)
    → ((n : ℕ) → num ≡ some n → n ≤ usize_max)
    → id_of num (map to_ascii_lowercase hash') ≡ ok (id line hash)
    → IsId line hash
id_of-IsId none hash' line hash k e = cc
id_of-IsId (some n) hash' line hash k e =
    let p : 1 ≤ n = ground arith in
    let h : is_hash (map to_ascii_lowercase hash') ≡ true = ground arith in
    let x : n ≡ line = ground arith in
    let y : map to_ascii_lowercase hash' ≡ hash = ground arith in
    subst (IsId line) y
      (subst (λ m. IsId m (map to_ascii_lowercase hash')) x (hash-IsId n hash' p (k n refl) h))

parse_parts-IsId :
    (p : Option (Chars × Chars)) (line : ℕ) (hash : Chars)
    → parse_parts p ≡ ok (id line hash)
    → IsId line hash
parse_parts-IsId none line hash e = cc
parse_parts-IsId (some (num, h)) line hash e =
    id_of-IsId (parse_usize num) h line hash (λ n. parse_usize-within num) e

number_or-id :
    (n : Option ℤ) (r : Result EndpointError Endpoint) {line : ℕ} {hash : Chars}
    → number_or n r ≡ ok (id line hash)
    → r ≡ ok (id line hash)
number_or-id none r e = e
number_or-id (some n) r e = cc

parse_text-IsId :
    (s : Chars) (line : ℕ) (hash : Chars) → parse_text s ≡ ok (id line hash) → IsId line hash
parse_text-IsId [] line hash e = unfold parse_text in cc
parse_text-IsId (c ∷ cs) line hash e =
    parse_parts-IsId (split_once b':' (c ∷ cs)) line hash
      (number_or-id (parse_i64 (c ∷ cs)) _ (unfold parse_text in e))

-- Whatever the value, an id that `parse_endpoint` gives has a line from 1 on that fits a `usize` and a
-- hash of two lower-case hexadecimal digits, and the id written in that form parses to itself.
pub parse_endpoint-id_valid :
    (v : Value) (line : ℕ) (hash : Chars)
    → parse_endpoint v ≡ ok (id line hash)
    → (i : IsId line hash) × (parse_endpoint (string (id_text line i.first i.second))
        ≡ ok (id line hash))
parse_endpoint-id_valid v line hash e =
    let i = value-IsId v e in
    (
      i,
      parse_endpoint-id_text line i.first i.second i.first_digit i.second_digit i.positive i.fits
          ∙ ap (λ h. ok (id line h)) (sym i.digits),
    )
  where
    value-IsId : (w : Value) → parse_endpoint w ≡ ok (id line hash) → IsId line hash
    value-IsId (number none) k = unfold parse_endpoint in cc
    value-IsId (number (some n)) k = unfold parse_endpoint in cc
    value-IsId (string s) k = parse_text-IsId (trim s) line hash (unfold parse_endpoint in k)
    value-IsId Value.other k = unfold parse_endpoint in cc
