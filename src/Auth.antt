-- ===== src/Auth.antt =====
-- Access to the HTTP transport: src/http_auth.rs, and the order in which src/main.rs puts its checks.
-- A token is a text of code points, and is compared in its UTF-8 encoding. The environment, whether an
-- address is a loopback, and `HeaderValue::to_str`, which gives the text of a header, are parameters.
use octofs.Prelude.{
  Result, ok, err, ℕ, Bool, true, false, not, ◌&&◌, Option, none, some, List, [], ◌∷◌, ◌++◌, ◌+◌,
  ◌/◌, ◌%◌, ltb, map, ◌==◌, if◌then◌else◌, length,
}
use Prim.Native.Nat.{bit_or, bit_xor}
use octofs.Text.{Bytes, is_empty, bytes_eq}
use octofs.LineHash.Endpoint.{Chars, trim, trim_start, trim_end, split_once, to_ascii_lowercase}
pub mod Compares
pub mod Encodes
pub mod Policy

abbrev pub token_or : Option Chars → Option Chars → Option Chars
token_or none b = b
token_or (some a) b = some a

abbrev pub not_blank : Option Chars → Option Chars
not_blank none = none
not_blank (some token) = if is_empty (trim token) then none else some (trim token)

-- `env` is the value of the variable OCTOFS_AUTH_TOKEN.
unfoldable pub resolve_auth_token : Option Chars → Option Chars → Option Chars
unfolding trim_start trim_end
resolve_auth_token env cli_token = not_blank (token_or cli_token env)

pub data BindError : Type 0 where
  unauthenticated : BindError

abbrev pub no_token : Option Chars → Bool
no_token none = true
no_token (some token) = false

unfoldable pub check_bind_policy : Bool → Option Chars → Result BindError (Unit {0})
check_bind_policy is_loopback token =
    if no_token token && not is_loopback then err unauthenticated else ok tt

-- The fold over the pairs of bytes, to the shorter of the two.
unfoldable pub difference : ℕ → Bytes → Bytes → ℕ
difference acc [] b = acc
difference acc (x ∷ a) [] = acc
difference acc (x ∷ a) (y ∷ b) = difference (bit_or acc (bit_xor x y)) a b

unfoldable pub constant_time_eq : Bytes → Bytes → Bool
unfolding difference
constant_time_eq a b = length a == length b && difference 0 a b == 0

-- `as_bytes` of a text: the encoding of each of its code points
abbrev pub encode_utf8 : ℕ → Bytes
encode_utf8 c =
    if ltb c 0x80
    then c ∷ []
    else if ltb c 0x800
    then (0xc0 + c / 64 % 32) ∷ (0x80 + c % 64) ∷ []
    else if ltb c 0x10000
    then (0xe0 + c / 4096 % 16) ∷ (0x80 + c / 64 % 64) ∷ (0x80 + c % 64) ∷ []
    else (0xf0 + c / 262144 % 8)
      ∷ (0x80 + c / 4096 % 64)
      ∷ (0x80 + c / 64 % 64)
      ∷ (0x80 + c % 64)
      ∷ []

unfoldable pub as_bytes : Chars → Bytes
as_bytes [] = []
as_bytes (c ∷ cs) = encode_utf8 c ++ as_bytes cs

-- "bearer"
abbrev pub bearer : Chars
bearer = b'b' ∷ b'e' ∷ b'a' ∷ b'r' ∷ b'e' ∷ b'r' ∷ []

-- `a.eq_ignore_ascii_case(b)`
unfoldable pub eq_ignore_ascii_case : Chars → Chars → Bool
unfolding bytes_eq
eq_ignore_ascii_case a b = bytes_eq (map to_ascii_lowercase a) (map to_ascii_lowercase b)

abbrev pub credential_matches : Chars → Option (Chars × Chars) → Bool
credential_matches token none = false
credential_matches token (some (scheme, presented)) =
    eq_ignore_ascii_case scheme bearer
    && constant_time_eq (as_bytes (trim presented)) (as_bytes token)

abbrev pub text_matches : Chars → Option Chars → Bool
text_matches token none = false
text_matches token (some text) = credential_matches token (split_once 32 text)

module _ (to_str : Bytes → Option Chars) where
  unfoldable pub bearer_matches : Option Bytes → Chars → Bool
  unfolding split_once eq_ignore_ascii_case constant_time_eq as_bytes trim_start trim_end
  bearer_matches none token = false
  bearer_matches (some value) token = text_matches token (to_str value)

  -- Whether a request with this Authorization header passes the layer that a token puts there.
  unfoldable pub admits : Option Chars → Option Bytes → Bool
  unfolding bearer_matches
  admits none authorization = true
  admits (some token) authorization = bearer_matches authorization token
