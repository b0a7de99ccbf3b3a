-- ===== src/LineHash/Endpoint.antt =====
-- `Endpoint` and `parse_endpoint` of src/utils/line_hash.rs: the line targets that the tools take,
-- over the code points of a JSON string.
use octofs.Prelude.{
  ℕ, zero, suc, ◌+◌, ◌-◌, ◌*◌, ◌/◌, ◌%◌, Bool, true, false, not, ◌&&◌, ◌||◌, Option, none, some,
  List, [], ◌∷◌, ◌++◌, map, ◌==◌, ltb, leb, if◌then◌else◌, length, Result, ok, err,
}
use octofs.Prelude.Int.{ℤ, pos, negsuc}
use octofs.LineHash.{i64_max, usize_max}
pub mod Decimals
pub mod Parses

abbrev pub Chars : Type 0
Chars = List ℕ

-- The JSON values that are told apart: a number by its `as_i64()`, a string, anything else.
pub data Value : Type 0 where
  number : Option ℤ → Value
  string : Chars → Value
  other : Value

pub data Endpoint : Type 0 where
  number : ℤ → Endpoint
  id : ℕ → Chars → Endpoint

pub data EndpointError : Type 0 where
  not_integer empty_value invalid_line not_one_indexed invalid_hash invalid_value : EndpointError
  not_line : EndpointError

-- `char::is_whitespace`, the White_Space property
unfoldable pub is_whitespace : ℕ → Bool
is_whitespace c =
    (leb 9 c && leb c 13)
    || (c == 32
        || (c == 0x85
            || (c == 0xa0
                || (c == 0x1680
                    || ((leb 0x2000 c && leb c 0x200a)
                        || (c == 0x2028
                            || (c == 0x2029 || (c == 0x202f || (c == 0x205f || c == 0x3000)))))))))

unfoldable pub trim_start : Chars → Chars
unfolding is_whitespace
trim_start [] = []
trim_start (c ∷ cs) = let rest = trim_start cs in if is_whitespace c then rest else c ∷ cs

abbrev pub keep_last : ℕ → Chars → Chars
keep_last c [] = if is_whitespace c then [] else c ∷ []
keep_last c (d ∷ ds) = c ∷ d ∷ ds

unfoldable pub trim_end : Chars → Chars
unfolding is_whitespace
trim_end [] = []
trim_end (c ∷ cs) = keep_last c (trim_end cs)

abbrev pub trim : Chars → Chars
trim s = trim_end (trim_start s)

abbrev pub is_digit : ℕ → Bool
is_digit c = leb b'0' c && leb c b'9'

unfoldable pub parse_digits : ℕ → Chars → Option ℕ
parse_digits acc [] = some acc
parse_digits acc (c ∷ cs) =
    let rest = parse_digits (acc * 10 + (c - b'0')) cs in if is_digit c then rest else none

abbrev pub at_most : ℕ → Option ℕ → Option ℕ
at_most limit none = none
at_most limit (some n) = if leb n limit then some n else none

-- at least one digit, and no overflow
abbrev pub parse_magnitude : ℕ → Chars → Option ℕ
parse_magnitude limit [] = none
parse_magnitude limit (c ∷ cs) = at_most limit (parse_digits 0 (c ∷ cs))

abbrev negate : Option ℕ → Option ℤ
negate none = none
negate (some zero) = some (pos 0)
negate (some (suc n)) = some (negsuc n)

abbrev positive : Option ℕ → Option ℤ
positive none = none
positive (some n) = some (pos n)

-- `s.parse::<i64>()`
unfoldable pub parse_i64 : Chars → Option ℤ
unfolding parse_digits
parse_i64 [] = none
parse_i64 (c ∷ cs) =
    if c == b'-'
    then negate (parse_magnitude (i64_max + 1) cs)
    else if c == b'+'
    then positive (parse_magnitude i64_max cs)
    else positive (parse_magnitude i64_max (c ∷ cs))

-- `s.parse::<usize>()`
unfoldable pub parse_usize : Chars → Option ℕ
unfolding parse_digits
parse_usize [] = none
parse_usize (c ∷ cs) =
    if c == b'+' then parse_magnitude usize_max cs else parse_magnitude usize_max (c ∷ cs)

abbrev pub cons_before : ℕ → Option (Chars × Chars) → Option (Chars × Chars)
cons_before c none = none
cons_before c (some (a, b)) = some (c ∷ a, b)

-- `s.split_once(sep)`
unfoldable pub split_once : ℕ → Chars → Option (Chars × Chars)
split_once sep [] = none
split_once sep (c ∷ cs) = if c == sep then some ([], cs) else cons_before c (split_once sep cs)

abbrev pub to_ascii_lowercase : ℕ → ℕ
to_ascii_lowercase c = if leb b'A' c && leb c b'Z' then c + 32 else c

abbrev pub is_ascii_hexdigit : ℕ → Bool
is_ascii_hexdigit c = is_digit c || ((leb b'a' c && leb c b'f') || (leb b'A' c && leb c b'F'))

abbrev pub utf8_width : ℕ → ℕ
utf8_width c = if ltb c 0x80 then 1 else if ltb c 0x800 then 2 else if ltb c 0x10000 then 3 else 4

-- `s.len()`, in bytes
abbrev pub byte_len : Chars → ℕ
byte_len [] = 0
byte_len (c ∷ cs) = utf8_width c + byte_len cs

abbrev pub all_hexdigits : Chars → Bool
all_hexdigits [] = true
all_hexdigits (c ∷ cs) = is_ascii_hexdigit c && all_hexdigits cs

abbrev pub is_hash : Chars → Bool
is_hash hash = byte_len hash == 2 && all_hexdigits hash

abbrev pub id_of : Option ℕ → Chars → Result EndpointError Endpoint
id_of none hash = err invalid_line
id_of (some line) hash =
    if line == 0
    then err not_one_indexed
    else if is_hash hash
    then ok (id line hash)
    else err invalid_hash

-- the composite id, split at its colon
abbrev pub parse_parts : Option (Chars × Chars) → Result EndpointError Endpoint
parse_parts none = err invalid_value
parse_parts (some (num, hash)) = id_of (parse_usize num) (map to_ascii_lowercase hash)

abbrev pub number_or : Option ℤ → Result EndpointError Endpoint → Result EndpointError Endpoint
number_or (some n) parts = ok (number n)
number_or none parts = parts

unfoldable pub parse_text : Chars → Result EndpointError Endpoint
unfolding parse_i64 parse_usize split_once
parse_text [] = err empty_value
parse_text (c ∷ cs) = number_or (parse_i64 (c ∷ cs)) (parse_parts (split_once b':' (c ∷ cs)))

unfoldable pub parse_endpoint : Value → Result EndpointError Endpoint
unfolding parse_text trim_start trim_end
parse_endpoint (number none) = err not_integer
parse_endpoint (number (some n)) = ok (number n)
parse_endpoint (string s) = parse_text (trim s)
parse_endpoint other = err not_line
